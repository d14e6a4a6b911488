-- ===== src/Playback/Device.antt =====
-- How the controller of src/aitts/playback.py takes the device and gives it back. What other tasks do
-- while it waits for the device to be released is the argument `meanwhile`.
use ai_tts.Common.{
  ℕ, Bool, true, false, not, ◌||◌, String, Option, none, some, [], ◌∷◌, is_some, is_none,
  if◌then◌else◌,
}
use ai_tts.Model.{
  Utterance, UtteranceSegment, ready, playing, paused, state_is, state_in, artifact_id,
}
use ai_tts.Store.{Store, runtime_error}
use ai_tts.Store.Reads.{get_segment, next_unfinished_segment}
use ai_tts.Store.Transition.{no_changes, transition, transition_segment}
use ai_tts.Playback.{
  Watcher, Player, absent, watching, start, stop, set_rate, or_zero, or_text, is_live,
}
use ai_tts.Playback.Act.{Play, raise, gets, modify, on_store, when, done, ◌>>=◌, ◌>>◌}

-- `_configure_cue`, for a sink that takes no prefix.
unfoldable pub configure_cue : Player → Player
configure_cue p = record p { speaker_returning = false; cue_session_open = true }

-- Starts the sink, marks it active and watches it.
unfoldable pub start_audio : String → ℕ → Player → Player
start_audio path position p = record p {
  sink = start path position p.sink;
  sink_active = true;
  watcher = watching;
}

unfoldable pub begin : String → String → ℕ → Play (Unit {0})
begin id path position = do
  modify configure_cue
  on_store (transition id playing no_changes)
  modify (λ p. record p { current_id = some id })
  modify (start_audio path position)

abbrev pub has_source : UtteranceSegment → Player → Bool
has_source g p = is_some g.audio_path || is_live (artifact_id g) p

unfoldable pub begin_segment : Utterance → UtteranceSegment → ℕ → Play (Unit {0})
begin_segment parent g position = do
  modify configure_cue
  when (state_in parent.state (ready ∷ paused ∷ []))
      (done (on_store (transition parent.id playing no_changes)))
  on_store (transition_segment parent.id g.index playing no_changes)
  modify (λ p. record p { current_id = some parent.id; current_segment_index = some g.index })
  sourced ← gets (has_source g)
  if not sourced
      then raise runtime_error
      else modify (start_audio (or_text g.audio_path (artifact_id g)) position)

abbrev pub clip_has_source : Utterance → Player → Bool
clip_has_source u p = is_some u.audio_path || is_live u.id p

-- A clip without anything to play yet becomes the current one.
unfoldable pub wait_for_saved : Utterance → Play (Unit {0})
wait_for_saved u = do
  modify (λ p. record p { current_id = some u.id; current_segment_index = none })
  when (state_is u.state paused) (done (on_store (transition u.id playing no_changes)))

unfoldable pub start_found : Utterance → Option UtteranceSegment → Play (Unit {0})
start_found u (some g) =
    if state_in g.state (ready ∷ paused ∷ [])
    then begin_segment u g (or_zero g.played_ms)
    else wait_for_saved u
start_found u none = do
  sourced ← gets (clip_has_source u)
  if sourced then begin u.id (or_text u.audio_path u.id) (or_zero u.played_ms) else wait_for_saved u

abbrev pub saved_segment : String → Option ℕ → Store → Option UtteranceSegment
saved_segment id none s = next_unfinished_segment id s
saved_segment id (some i) s = get_segment id i s

unfoldable pub start_saved : Utterance → Option ℕ → Play (Unit {0})
start_saved u index = do g ← gets (λ p. saved_segment u.id index p.store); start_found u g

-- What `_release_sink` does once the sink has ended.
unfoldable pub retire : Player → Player
retire p = record p {
  sink = if is_none p.current_id then set_rate p.playback_rate p.sink else p.sink;
  sink_active = false;
}

unfoldable pub stop_sink : (Player → Player) → Player → Player
stop_sink meanwhile p =
    if p.sink_active then retire (meanwhile (record p { sink = stop p.sink })) else p

abbrev pub cancel : Watcher → (Player → Player) → Player → Player
cancel absent meanwhile p = p
cancel _ meanwhile p = meanwhile (record p { watcher = absent })

-- Cancels the watcher and waits until it has ended.
unfoldable pub cancel_watcher : (Player → Player) → Player → Player
cancel_watcher meanwhile p = cancel p.watcher meanwhile p

unfoldable pub release_sink : (Player → Player) → Player → Player
release_sink meanwhile p = stop_sink meanwhile (cancel_watcher meanwhile p)

unfoldable pub clear_current : Player → Player
clear_current p = record p { current_id = none; current_segment_index = none }
