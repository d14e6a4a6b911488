-- ===== src/Tests/Playback.antt =====
-- The theorems about the controller of playback at a database with a clip that is ready, a clip that
-- takes its place, and a listener who changes the rate while the device is being released.
use ai_tts.Common.{
  ◌≡◌, refl, true, false, ◌&&◌, none, some, List, [], ◌∷◌, is_none, arith, if_either,
}
use ai_tts.Model.{Utterance, ready, playing, played, skipped, preempt}
use ai_tts.Store.Reads.{get, next_pending, by_states, next_unfinished_segment, playback_queue}
use ai_tts.Store.Registry.{set_setting}
use ai_tts.Playback.{Sink, Player, absent, watching, set_rate}
use ai_tts.Playback.Plan.{plan}
use ai_tts.Playback.Watch.{watch}
use ai_tts.Playback.Control.{
  set_playback_rate, set_supported_rate, apply_rate, arm_resume_when_input_idle,
}
use ai_tts.Playback.Step.{Step, plans, pauses, resumes, skips, ends, answers, stores, run, after}
use ai_tts.Playback.Sound.{IsSound}
use ai_tts.Playback.Sound.Device.{IsCalm}
use ai_tts.Playback.Sound.Control.{set_playback_rate-Sound}
use ai_tts.Playback.Sound.Steps.{after-IsSound, overlaps-run}
use ai_tts.Playback.Held.{held-plan}
use ai_tts.Playback.Outcome.{watch-played}
use ai_tts.Playback.Start.{plan-starts}
use ai_tts.Store.{ok}
use ai_tts.Store.Replay.{skip_utterance}
use ai_tts.Store.Skipped.{skip_utterance-effect}
use ai_tts.Playback.Transport.{skip}
use ai_tts.Playback.Skipped.{skip-skipped}
use ai_tts.Tests.Data.{three, clip, database}

abbrev silent : Sink
silent = record {
  started = [];
  start_positions = [];
  overlaps = 0;
  paused = false;
  error = none;
  active = false;
  natural = false;
  position = 0;
  playback_rate = 100;
  rate_changes = [];
}

abbrev spoken : Utterance
spoken = record (clip "a" ready 2) { audio_path = some "a.wav"; duration_ms = some 900 }

abbrev alert : Utterance
alert = record (clip "b" ready 1) { audio_path = some "b.wav"; priority = preempt }

abbrev player : List Utterance → Player
player us = record {
  store = database us [];
  sink = silent;
  streams = [];
  held = false;
  playback_rate = 100;
  current_id = none;
  current_segment_index = none;
  preempted_stack = [];
  sink_active = false;
  cue_session_open = false;
  speaker_returning = false;
  watcher = absent;
  interrupted_at = none;
  resume_when_input_idle_armed = false;
  woken = false;
}

abbrev idle_player : Player
idle_player = player (spoken ∷ [])

idle_player-IsSound : IsSound idle_player
unfolding IsSound
idle_player-IsSound = (λ h. h, refl, λ h e. refl)

-- The listener asks for one and a half times the rate.
abbrev pub faster : Player → Player
faster p = (set_playback_rate 150 p).1

pub faster-IsCalm : IsCalm faster
unfolding set_playback_rate set_supported_rate set_setting apply_rate set_rate
faster-IsCalm = record {
  sound_ok = (set_playback_rate-Sound 150).at;
  quiet_ok = λ p v marked quiet.
      if_either (λ (q : Player). q.sink.active ≡ false) (p.sink_active && is_none p.current_id) _ _
        (λ h. quiet) (λ h. quiet);
  taken_ok = λ p v taken.
      if_either (λ (q : Player). is_none q.current_id ≡ false)
        (p.sink_active && is_none p.current_id) _ _ (λ h. taken) (λ h. taken);
}

-- A clip starts, an alert comes in and takes the device, and the clip returns once it has ended.
abbrev steps : List Step
steps =
    plans
    ∷ stores (λ s. record s { utterances = alert ∷ s.utterances })
    ∷ plans
    ∷ pauses
    ∷ resumes
    ∷ ends
    ∷ answers
    ∷ plans
    ∷ skips
    ∷ []

overlaps-run_example : (run faster steps idle_player).sink.overlaps ≡ 0
overlaps-run_example = overlaps-run faster faster-IsCalm steps idle_player idle_player-IsSound

after-IsSound_example : IsSound (after faster plans idle_player)
after-IsSound_example = after-IsSound faster faster-IsCalm plans idle_player idle_player-IsSound

abbrev pub held_player : Player
held_player = record idle_player { held = true }

held-plan_example :
    ((plan faster held_player).1.sink ≡ held_player.sink)
    × ((plan faster held_player).1.store ≡ held_player.store)
held-plan_example = held-plan faster held_player refl

abbrev speaking : Utterance
speaking = record spoken { state = playing }

abbrev ended_player : Player
ended_player = record (player (speaking ∷ [])) {
  sink = record silent { natural = true };
  current_id = some "a";
  sink_active = true;
  watcher = watching;
}

watch-played_example :
    (v : Utterance) × (get "a" (watch ended_player).1.store ≡ some v)
    × (v.state ≡ played)
    × ((watch ended_player).1.current_id ≡ none)
    × ((watch ended_player).1.sink_active ≡ false)
unfolding get
watch-played_example = watch-played ended_player speaking refl refl refl refl refl

plan-starts_example :
    let q = (plan faster idle_player).1 in
    (v : Utterance) × (get "a" q.store ≡ some v)
    × (v.state ≡ playing)
    × (q.current_id ≡ some "a")
    × (q.sink_active ≡ true)
    × (q.sink.started ≡ "a.wav" ∷ [])
    × (q.sink.position ≡ 0)
unfolding get next_pending by_states next_unfinished_segment playback_queue
plan-starts_example =
    plan-starts faster idle_player spoken "a.wav" refl refl refl refl refl refl refl refl refl refl
      refl

-- Another task asks for a resume once the listener is quiet.
arm-IsCalm : IsCalm arm_resume_when_input_idle
unfolding IsSound arm_resume_when_input_idle
arm-IsCalm = record {
  sound_ok = λ p v. v;
  quiet_ok = λ p v marked quiet. quiet;
  taken_ok = λ p v taken. taken;
}

arm-store : (q : Player) → (arm_resume_when_input_idle q).store ≡ q.store
unfolding arm_resume_when_input_idle
arm-store q = refl

abbrev pub speaking_player : Player
speaking_player = record (player (speaking ∷ [])) {
  sink = record silent { active = true };
  current_id = some "a";
  sink_active = true;
  watcher = watching;
}

pub speaking_player-IsSound : IsSound speaking_player
unfolding IsSound
speaking_player-IsSound = (λ h. refl, refl, λ h e. absurd (ground arith))

skip-skipped_example :
    let q = (skip arm_resume_when_input_idle speaking_player).1 in
    (v : Utterance) × (get "a" q.store ≡ some v)
    × (v.state ≡ skipped)
    × (q.current_id ≡ none)
    × (q.sink.active ≡ false)
    × (q.sink_active ≡ false)
unfolding get
skip-skipped_example =
    skip-skipped arm_resume_when_input_idle arm-store arm-IsCalm speaking_player speaking
      speaking_player-IsSound refl refl refl

skip_utterance-effect_example :
    (v : Utterance) × ((skip_utterance "b" (some 0) 300 (some 300) three).0 ≡ ok v)
    × (get "b" (skip_utterance "b" (some 0) 300 (some 300) three).1 ≡ some v)
    × (v.state ≡ skipped)
unfolding get
skip_utterance-effect_example =
    skip_utterance-effect "b" (some 0) 300 (some 300) three (clip "b" playing 2) refl refl
