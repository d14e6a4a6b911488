-- ===== src/Playback/Transport.antt =====
-- The listener's steps in src/aitts/playback.py: the skip, the steps through a document, the restart, and
-- the end of playback. Each runs under the transport lock, so that none of them runs in another's
-- `meanwhile`.
use ai_tts.Common.{
  ℕ, ◌+◌, ◌-◌, Bool, true, false, not, ◌||◌, String, Option, none, some, [], ◌∷◌, length, is_empty,
  leb, ◌==◌, if◌then◌else◌,
}
use ai_tts.Model.{
  Utterance, UtteranceSegment, ready, playing, paused, skipped, failed, state_is, state_in,
  is_terminal,
}
use ai_tts.Store.{ok}
use ai_tts.Store.Reads.{
  get, segments, get_segment, next_unfinished_segment, completed_segment_duration_ms,
}
use ai_tts.Store.Transition.{no_changes, transition, transition_segment}
use ai_tts.Store.Replay.{suspend_playback, skip_utterance, restart_segments, reset_segments_from}
use ai_tts.Playback.{Player, or_zero, or_text, current, current_heard_ms}
use ai_tts.Playback.Act.{Play, pure, gets, modify, on_store, when, done, ◌>>=◌, ◌>>◌}
use ai_tts.Playback.Device.{
  start_audio, begin_segment, has_source, clip_has_source, release_sink, clear_current,
}
use ai_tts.Playback.Control.{notify, clear_interruption, hold}

unfoldable pub skip_clip : (Player → Player) → Utterance → Play (Unit {0})
skip_clip meanwhile u = do
  heard ← gets (λ p. or_zero (current_heard_ms p))
  position ← gets (λ p. if p.sink_active then p.sink.position else or_zero u.played_ms)
  index ← gets (λ p. p.current_segment_index)
  modify (release_sink meanwhile)
  on_store (skip_utterance u.id index position (some heard))
  modify clear_current

unfoldable pub skip_found : (Player → Player) → Option Utterance → Play (Unit {0})
skip_found meanwhile none = pure tt
skip_found meanwhile (some u) =
    if state_in u.state (playing ∷ paused ∷ []) then skip_clip meanwhile u else pure tt

unfoldable pub skip : (Player → Player) → Play (Unit {0})
skip meanwhile = do clear_interruption; u ← gets current; skip_found meanwhile u; modify notify

-- `_resume_document_at_next_ready` for a child and its parent.
unfoldable pub resume_ready : Option UtteranceSegment → Option Utterance → Play (Unit {0})
resume_ready none u = pure tt
resume_ready (some g) none = pure tt
resume_ready (some g) (some u) = do
  held ← gets (λ p. p.held)
  if held
      then when (state_is u.state playing) (
          done (
            on_store (
              transition u.id paused
                (record no_changes { played_ms = some (or_zero u.played_ms) }))))
      else when (state_is g.state ready) (begin_segment u g 0)

unfoldable pub resume_document_at_next_ready : String → Play (Unit {0})
resume_document_at_next_ready id = do
  g ← gets (λ p. next_unfinished_segment id p.store)
  u ← gets (λ p. get id p.store)
  resume_ready g u

unfoldable pub forget_segment : Player → Player
forget_segment p = record p { current_segment_index = none }

-- `contextlib.suppress(Exception)`.
abbrev pub suppress : {A : Type 0} → Play A → Play (Unit {0})
suppress m p = (ok tt, (m p).1)

unfoldable pub settle_silent : String → Play (Unit {0})
settle_silent id = do
  heard ← gets (λ p. completed_segment_duration_ms id none p.store)
  suppress (
      on_store (
        transition id failed (record no_changes {
          error = some "playback stopped: no cached audio remains for this document";
          played_ms = some heard;
        })))
  modify clear_current
  modify notify

unfoldable pub restore_after_failed_step : String → ℕ → Play (Unit {0})
restore_after_failed_step id index = do
  reset ← on_store (reset_segments_from id index)
  if not reset
      then settle_silent id
      else do modify forget_segment; resume_document_at_next_ready id; modify notify

-- `_navigable_segment_index`.
unfoldable pub navigable : Player → Option (Utterance × ℕ)
navigable p = if p.held then none else elim (current p) [
  | none ↦ none
  | some u ↦ elim p.current_segment_index [
    | none ↦ none
    | some i ↦ if is_empty (segments u.id p.store) then none else some (u, i)
  ]
]

unfoldable pub next_from : (Player → Player) → Option (Utterance × ℕ) → Play Bool
next_from meanwhile none = pure false
next_from meanwhile (some (u, index)) = do
  last ← gets (λ p. leb (length (segments u.id p.store)) (index + 1))
  position ← gets (λ p. if p.sink_active then p.sink.position else 0)
  if last then pure false else do
    modify (release_sink meanwhile)
    on_store
        (transition_segment u.id index skipped (record no_changes { played_ms = some position }))
    modify forget_segment
    resume_document_at_next_ready u.id
    modify notify
    pure true

unfoldable pub next_segment : (Player → Player) → Play Bool
next_segment meanwhile = do target ← gets navigable; next_from meanwhile target

unfoldable pub back_to : Utterance → ℕ → Bool → Play Bool
back_to u index false = restore_after_failed_step u.id index >> pure false
back_to u index true = do
  modify forget_segment
  resume_document_at_next_ready u.id
  modify notify
  pure true

abbrev replayable : Option UtteranceSegment → Player → Bool
replayable none p = false
replayable (some g) p = has_source g p

unfoldable pub previous_from : (Player → Player) → Option (Utterance × ℕ) → Play Bool
previous_from meanwhile none = pure false
previous_from meanwhile (some (u, index)) = do
  there ← gets (λ p. replayable (get_segment u.id (index - 1) p.store) p)
  if index == 0 || not there then pure false else do
    modify (release_sink meanwhile)
    reset ← on_store (reset_segments_from u.id (index - 1))
    back_to u index reset

unfoldable pub previous_segment : (Player → Player) → Play Bool
previous_segment meanwhile = do target ← gets navigable; previous_from meanwhile target

unfoldable pub play_again : Utterance → Play (Unit {0})
play_again u = do
  when (state_is u.state paused) (done (on_store (transition u.id playing no_changes)))
  modify (start_audio (or_text u.audio_path u.id) 0)

-- The end of a restart, for the clip as it is after the release.
unfoldable pub restart_refreshed : Option Utterance → Play (Unit {0})
restart_refreshed none = pure tt
restart_refreshed (some u) = do
  held ← gets (λ p. p.held)
  if not (state_in u.state (playing ∷ paused ∷ []))
      then pure tt
      else if held
      then done (on_store (suspend_playback u.id none 0))
      else play_again u

unfoldable pub restart_clip : (Player → Player) → Utterance → Play (Unit {0})
restart_clip meanwhile u = do
  sourced ← gets (clip_has_source u)
  if not sourced then pure tt else do
    modify (release_sink meanwhile)
    now ← gets (λ p. get u.id p.store)
    restart_refreshed now
    modify notify

abbrev is_ready : Option UtteranceSegment → Bool
is_ready none = false
is_ready (some g) = state_is g.state ready

unfoldable pub restart_first : String → Option ℕ → Bool → Play (Unit {0})
restart_first id active true = resume_document_at_next_ready id
restart_first id none false = pure tt
restart_first id (some i) false = restore_after_failed_step id i

unfoldable pub restart_document : (Player → Player) → Utterance → Play (Unit {0})
restart_document meanwhile u = do
  active ← gets (λ p. p.current_segment_index)
  modify (release_sink meanwhile)
  on_store (restart_segments u.id)
  modify forget_segment
  first ← gets (λ p. is_ready (next_unfinished_segment u.id p.store))
  restart_first u.id active first
  modify notify

unfoldable pub restart_found : (Player → Player) → Option Utterance → Play (Unit {0})
restart_found meanwhile none = pure tt
restart_found meanwhile (some u) = do
  composite ← gets (λ p. not (is_empty (segments u.id p.store)))
  if not (state_in u.state (playing ∷ paused ∷ []))
      then pure tt
      else if composite
      then restart_document meanwhile u
      else restart_clip meanwhile u

unfoldable pub restart_current : (Player → Player) → Play (Unit {0})
restart_current meanwhile = do
  held ← gets (λ p. p.held)
  u ← gets current
  if held then pure tt else restart_found meanwhile u

unfoldable pub save_stopped : Option Utterance → Bool → Play (Unit {0})
save_stopped none had_sink = pure tt
save_stopped (some u) had_sink = do
  p ← gets (λ p. p)
  when had_sink (done (on_store (suspend_playback u.id p.current_segment_index p.sink.position)))

-- The controller's `stop`.
unfoldable pub retire_playback : (Player → Player) → Play (Unit {0})
retire_playback meanwhile = do
  had_sink ← gets (λ p. p.sink_active)
  modify (release_sink meanwhile)
  u ← gets current
  save_stopped u had_sink
  modify clear_current

unfoldable pub hold_live : (Player → Player) → Option Utterance → Play (Unit {0})
hold_live meanwhile none = pure tt
hold_live meanwhile (some u) = do
  held ← gets (λ p. p.held)
  if is_terminal u || held then pure tt else hold meanwhile true

unfoldable pub shutdown : (Player → Player) → Play (Unit {0})
shutdown meanwhile = do u ← gets current; hold_live meanwhile u; retire_playback meanwhile
