-- ===== src/Playback/Watch.antt =====
-- What src/aitts/playback.py does when the sink has ended: `_watch`, `_finish_segment_playback` and
-- `_watch_outro`. The task goes on once its `wait` has returned.
use Prim.Native.String.{◌++◌}
use ai_tts.Common.{
  ℕ, ◌+◌, Bool, true, false, not, ◌&&◌, ◌||◌, String, Option, none, some, [], ◌∷◌, is_some, is_none,
  if◌then◌else◌,
}
use ai_tts.Model.{
  Utterance, UtteranceSegment, playing, paused, played, failed, state_in, is_terminal,
}
use ai_tts.Store.{Store}
use ai_tts.Store.Reads.{get, get_segment, next_unfinished_segment, completed_segment_duration_ms}
use ai_tts.Store.Transition.{no_changes, transition, transition_segment}
use ai_tts.Playback.{Player, absent, set_rate, or_text}
use ai_tts.Playback.Act.{Play, pure, gets, modify, on_store, done, ◌>>=◌, ◌>>◌}

abbrev pub device_error : Player → String
device_error p = "playback device error: " ++ or_text p.sink.error "unknown failure"

unfoldable pub end_document : Utterance → Play (Unit {0})
end_document u = do
  rest ← gets (λ p. next_unfinished_segment u.id p.store)
  heard ← gets (λ p. completed_segment_duration_ms u.id none p.store)
  if is_some rest
      then pure tt
      else done (on_store (transition u.id played (record no_changes { played_ms = some heard })))

unfoldable pub end_segment : Utterance → UtteranceSegment → Play (Unit {0})
end_segment u g = do
  on_store
      (transition_segment u.id g.index played (record no_changes { played_ms = g.duration_ms }))
  end_document u

unfoldable pub fail_segment : Utterance → UtteranceSegment → Play (Unit {0})
fail_segment u g = do
  p ← gets (λ p. p)
  on_store (
      transition_segment u.id g.index failed
        (record no_changes { error = some (device_error p); played_ms = some p.sink.position }))
  heard ← gets (λ q. completed_segment_duration_ms u.id none q.store + p.sink.position)
  done (
      on_store (
        transition u.id failed
          (record no_changes { error = some (device_error p); played_ms = some heard })))

unfoldable pub finish_found : Utterance → Bool → Option UtteranceSegment → Play (Unit {0})
finish_found u ended none = pure tt
finish_found u ended (some g) = if ended then end_segment u g else fail_segment u g

-- `_finish_segment_playback`.
unfoldable pub finish_segment_playback : Utterance → ℕ → Bool → Play (Unit {0})
finish_segment_playback u index ended = do
  g ← gets (λ p. get_segment u.id index p.store)
  finish_found u ended g

unfoldable pub finish_clip : Utterance → Bool → Play (Unit {0})
finish_clip u ended = do
  p ← gets (λ p. p)
  if ended
      then done
          (on_store (transition u.id played (record no_changes { played_ms = u.duration_ms })))
      else done (
          on_store (
            transition u.id failed (record no_changes {
              error = some (device_error p);
              played_ms = some p.sink.position;
            })))

unfoldable pub settle_at : Utterance → Bool → Option ℕ → Play (Unit {0})
settle_at u ended (some index) = finish_segment_playback u index ended
settle_at u ended none = finish_clip u ended

unfoldable pub settle_clip : Option Utterance → Bool → Play (Unit {0})
settle_clip none ended = pure tt
settle_clip (some u) ended = do
  index ← gets (λ p. p.current_segment_index)
  if state_in u.state (playing ∷ paused ∷ []) then settle_at u ended index else pure tt

abbrev pub gone : Option Utterance → Bool
gone none = true
gone (some u) = is_terminal u

-- The document is over, as far as the store knows.
abbrev pub is_over : String → Store → Bool
is_over id s = gone (get id s) || is_none (next_unfinished_segment id s)

-- The end of `_watch`: the device is free, and so is a document that is over.
unfoldable pub free_device : String → Player → Player
free_device id p = record p {
  sink_active = false;
  current_segment_index = none;
  watcher = absent;
  current_id = if is_over id p.store then none else p.current_id;
  woken = true;
}

unfoldable pub watch_current : Option String → Bool → Play (Unit {0})
watch_current none ended = pure tt
watch_current (some id) ended = do
  u ← gets (λ p. get id p.store)
  settle_clip u ended
  modify (free_device id)

-- `_watch`, once the sink has ended. Whoever stopped the sink owns the change of state.
unfoldable pub watch : Play (Unit {0})
watch = do
  p ← gets (λ p. p)
  if not p.sink.natural && is_none p.sink.error
      then pure tt
      else watch_current p.current_id p.sink.natural

-- `_watch_outro`, once the sink has ended.
unfoldable pub watch_outro : Player → Player
watch_outro p = record p {
  sink = set_rate p.playback_rate p.sink;
  sink_active = false;
  watcher = absent;
  woken = true;
}
