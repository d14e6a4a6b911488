-- ===== src/Playback/Sound/Control.antt =====
-- The rate, the hold, its release and the end of a clip in src/aitts/playback.py keep the device sound.
use ai_tts.Common.{
  ℕ, Bool, true, false, not, ◌&&◌, Option, none, some, String, arith, is_none, if_either,
}
use ai_tts.Model.{Utterance, UtteranceSegment, paused, state_is}
use ai_tts.Store.Reads.{next_unfinished_segment}
use ai_tts.Store.Registry.{set_setting}
use ai_tts.Playback.{Player, set_rate, pause_sink, resume_sink}
use ai_tts.Playback.Act.{Play, modify}
use ai_tts.Playback.Control.{
  notify, rate_text, apply_rate, set_supported_rate, set_playback_rate, clear_interruption,
  pause_at, pause_child, pause_found, hold, interrupt_now, interrupt, adopt, current_or_adopted,
  resume_child, resume_active, resume_from, resume_found, resume,
}
use ai_tts.Playback.Sound.{
  IsFree, IsSound, free-IsSound, unmarked-IsFree, Holds, pure-Sound, play_rules,
}
use ai_tts.Playback.Sound.Device.{
  start_by_taking, begin-Takes, begin_segment-Takes, IsCalm, release_sink-IsFree,
}

pub notify-Sound : Holds IsSound IsSound (modify notify)
unfolding notify IsSound
notify-Sound = record { at = λ p v. v }

pub clear_interruption-Sound : Holds IsSound IsSound clear_interruption
unfolding clear_interruption IsSound
clear_interruption-Sound = record { at = λ p v. v }

apply_rate-Sound : (rate : ℕ) → Holds IsSound IsSound (modify (apply_rate rate))
unfolding apply_rate IsSound set_rate
apply_rate-Sound rate = record {
  at = λ p v. if_either IsSound (p.sink_active && is_none p.current_id) _ _ (λ h. v) (λ h. v);
}

set_supported_rate-Sound :
    (rate : ℕ) (text : Option String) → Holds IsSound IsSound (set_supported_rate rate text)
unfolding set_supported_rate IsSound set_setting apply_rate
set_supported_rate-Sound rate none = record { at = λ p v. v }
set_supported_rate-Sound rate (some text) = record { at = (apply_rate-Sound rate).at }

pub set_playback_rate-Sound : (rate : ℕ) → Holds IsSound IsSound (set_playback_rate rate)
unfolding set_playback_rate
set_playback_rate-Sound rate = set_supported_rate-Sound rate (rate_text rate)

pause_sink-Sound : Holds IsSound IsSound (modify (λ p. record p { sink = pause_sink p.sink }))
unfolding pause_sink IsSound
pause_sink-Sound = record { at = λ p v. v }

resume_sink-Sound : Holds IsSound IsSound (modify (λ p. record p { sink = resume_sink p.sink }))
unfolding resume_sink IsSound
resume_sink-Sound = record { at = λ p v. v }

pause_at-Sound :
    (u : Utterance) (i : Option ℕ) (position : ℕ) → Holds IsSound IsSound (pause_at u i position)
unfolding pause_at
pause_at-Sound u none position = pure-Sound tt
pause_at-Sound u (some i) position = search play_rules

pause_child-Sound : (u : Utterance) → Holds IsSound IsSound (pause_child u)
unfolding pause_child
pause_child-Sound u = search (play_rules, pause_sink-Sound, pause_at-Sound) depth 8

module _ (meanwhile : Player → Player) (calm : IsCalm meanwhile) where
  pause_found-Sound : (u : Option Utterance) → Holds IsSound IsSound (pause_found meanwhile u)
  unfolding pause_found
  pause_found-Sound none = record {
    at = λ p v.
        if_either (λ (m : Play (Unit {0})). IsSound (m p).1) p.sink_active _ _
          (λ h. free-IsSound _ (release_sink-IsFree meanwhile calm p v)) (λ h. v);
  }
  pause_found-Sound (some u) = search (play_rules, pause_child-Sound) depth 8

  held-Sound : Holds IsSound IsSound (modify (λ p. record p { held = true }))
  unfolding IsSound
  held-Sound = record { at = λ p v. v }

  pub hold-Sound : (by_hand : Bool) → Holds IsSound IsSound (hold meanwhile by_hand)
  unfolding hold
  hold-Sound by_hand =
      search (play_rules, clear_interruption-Sound, held-Sound, pause_found-Sound) depth 8

  marked-Sound :
      (now : ℕ) → Holds IsSound IsSound (modify (λ p. record p { interrupted_at = some now }))
  unfolding IsSound
  marked-Sound now = record { at = λ p v. v }

  interrupt_now-Sound : Holds IsSound IsSound (interrupt_now meanwhile)
  unfolding interrupt_now
  interrupt_now-Sound = search (play_rules, hold-Sound, marked-Sound) depth 10

  pub interrupt-Sound : Holds IsSound IsSound (interrupt meanwhile)
  unfolding interrupt
  interrupt-Sound = search (play_rules, interrupt_now-Sound)

adopt-Sound : (u : Option Utterance) → Holds IsSound IsSound (modify (adopt u))
unfolding IsSound adopt
adopt-Sound none = record { at = λ p v. v }
adopt-Sound (some u) = record { at = λ p v. (v.0, v.1, λ h c. absurd (ground arith)) }

current_or_adopted-Sound : (u : Option Utterance) → Holds IsSound IsSound (current_or_adopted u)
unfolding current_or_adopted
current_or_adopted-Sound (some u) = pure-Sound (some u)
current_or_adopted-Sound none = search (play_rules, adopt-Sound)

resume_child-Sound : (id : String) (i : Option ℕ) → Holds IsSound IsSound (resume_child id i)
unfolding resume_child
resume_child-Sound id none = pure-Sound tt
resume_child-Sound id (some i) = search play_rules

resume_active-Sound : (u : Utterance) → Holds IsSound IsSound (resume_active u)
unfolding resume_active
resume_active-Sound u = search (play_rules, resume_sink-Sound, resume_child-Sound) depth 8

resume_from-Sound :
    (u : Utterance) (g : Option UtteranceSegment) → Holds IsFree IsSound (resume_from u g)
unfolding resume_from
resume_from-Sound u (some g) = search (play_rules, start_by_taking, begin_segment-Takes) depth 8
resume_from-Sound u none = search (play_rules, start_by_taking, begin-Takes) depth 8

resume_found-Sound : (u : Option Utterance) → Holds IsSound IsSound (resume_found u)
unfolding resume_found
resume_found-Sound none = pure-Sound tt
resume_found-Sound (some u) = record {
  at = λ p v.
      let g = next_unfinished_segment u.id p.store in
      if_either (λ (m : Play (Unit {0})). IsSound (m p).1) (not (state_is u.state paused)) _ _
        (λ h. v)
        (λ h.
          if_either (λ (m : Play (Unit {0})). IsSound (m p).1) p.sink_active _ _
            (λ k. (resume_active-Sound u).at p v)
            (λ k. (resume_from-Sound u g).at p (unmarked-IsFree p v k)));
}

on_release : Holds IsSound IsSound (modify (λ p. record p { held = false }))
unfolding IsSound
on_release = record { at = λ p v. v }

pub resume-Sound : Holds IsSound IsSound resume
unfolding resume
resume-Sound =
    search
      (
        play_rules, on_release, clear_interruption-Sound, current_or_adopted-Sound,
        resume_found-Sound, notify-Sound,
      )
      depth 10
