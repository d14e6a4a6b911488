-- ===== src/Playback/Plan.antt =====
-- The plan of src/aitts/playback.py: `_plan_preemption` and one turn of the loop of `run`, up to where it
-- goes on or waits to be woken.
use ai_tts.Common.{
  ℕ, ◌+◌, Bool, true, false, not, ◌&&◌, ◌||◌, String, Option, none, some, List, [], ◌∷◌, is_some,
  is_none, is_empty, text_eq, if◌then◌else◌,
}
use ai_tts.Common.Table.{find}
use ai_tts.Common.Int.{leb_ℤ}
use ai_tts.Model.{
  Utterance, UtteranceSegment, State, Priority, preempt, ready, playing, paused, state_is,
  is_terminal,
}
use ai_tts.Store.{Store}
use ai_tts.Store.Reads.{
  get, segments, get_segment, next_unfinished_segment, completed_segment_duration_ms,
  playback_queue, next_pending,
}
use ai_tts.Store.Registry.{get_setting}
use ai_tts.Store.Replay.{suspend_playback, skip_utterance}
use ai_tts.Playback.{
  Player, watching_outro, start, set_rate, or_zero, or_text, current, current_heard_ms,
}
use ai_tts.Playback.Act.{Play, pure, gets, modify, on_store, ◌>>=◌, ◌>>◌}
use ai_tts.Playback.Device.{
  begin, begin_segment, clip_has_source, start_saved, release_sink, clear_current,
}

abbrev is_preempt : Priority → Bool
is_preempt preempt = true
is_preempt _ = false

-- The clip may take the device from the current one.
abbrev outranks : Option Utterance → Utterance → Bool
outranks none u = true
outranks (some c) u = is_terminal c || not (leb_ℤ c.order_key u.order_key)

abbrev pub candidate : Player → Option Utterance
candidate p =
    find (λ u. is_preempt u.priority && state_is u.state ready && outranks (current p) u)
      (playback_queue p.store)

-- The position that is saved for a clip between two children.
abbrev pub suspended_position : Utterance → Player → ℕ
suspended_position u p =
    if is_none p.current_segment_index && not (is_empty (segments u.id p.store))
    then completed_segment_duration_ms u.id none p.store
    else or_zero (current_heard_ms p)

unfoldable pub push_suspended : String → Option ℕ → Bool → Player → Player
push_suspended id index saved p = record p {
  preempted_stack = if saved then (id, index) ∷ p.preempted_stack else p.preempted_stack;
}

-- Once the device is free, the clip is saved for its return.
unfoldable pub save_suspended : Utterance → Option ℕ → Bool → ℕ → Play (Unit {0})
save_suspended u index had_sink before = do
  position ← gets (λ p. if had_sink then p.sink.position else before)
  saved ← on_store (suspend_playback u.id index position)
  modify (push_suspended u.id index saved)
  modify clear_current

unfoldable pub suspend_clip : (Player → Player) → Utterance → Play (Unit {0})
suspend_clip meanwhile u = do
  index ← gets (λ p. p.current_segment_index)
  had_sink ← gets (λ p. p.sink_active)
  before ← gets (suspended_position u)
  modify (release_sink meanwhile)
  save_suspended u index had_sink before

-- The device goes back though no clip is to be saved: the closing cue, or a clip that has ended.
unfoldable pub release_idle : (Player → Player) → Player → Player
release_idle meanwhile p = if p.sink_active then clear_current (release_sink meanwhile p) else p

unfoldable pub suspend_found : (Player → Player) → Option Utterance → Play (Unit {0})
suspend_found meanwhile none = modify (release_idle meanwhile)
suspend_found meanwhile (some u) =
    if is_terminal u then modify (release_idle meanwhile) else suspend_clip meanwhile u

unfoldable pub suspend_current : (Player → Player) → Play (Unit {0})
suspend_current meanwhile = do u ← gets current; suspend_found meanwhile u

abbrev still_in : State → Option Utterance → Bool
still_in st none = false
still_in st (some u) = state_is u.state st

unfoldable pub start_refreshed : Option Utterance → Play (Unit {0})
start_refreshed none = pure tt
start_refreshed (some u) = if state_is u.state ready then start_saved u none else pure tt

unfoldable pub return_to : Utterance → Option ℕ → Play (Unit {0})
return_to u index = do
  modify (λ p. record p { speaker_returning = true })
  start_saved u index
  modify (λ p. record p { speaker_returning = false })

unfoldable pub restore_next : Option Utterance → Option ℕ → Play (Unit {0}) → Play (Unit {0})
restore_next none index rest = rest
restore_next (some u) index rest = if state_is u.state paused then return_to u index else rest

-- The loop of `_restore_preempted` over the stack.
unfoldable pub restore_from : List (String × Option ℕ) → Play (Unit {0})
restore_from [] = pure tt
restore_from ((id, index) ∷ saved) = do
  modify (λ p. record p { preempted_stack = saved })
  u ← gets (λ p. get id p.store)
  restore_next u index (restore_from saved)

unfoldable pub restore_preempted : Play (Unit {0})
restore_preempted = do saved ← gets (λ p. p.preempted_stack); restore_from saved

unfoldable pub restore_if_free : Play (Unit {0})
restore_if_free = do
  free ← gets (λ p. is_none p.current_id)
  if free then restore_preempted else pure tt

unfoldable pub preempt_with : (Player → Player) → Utterance → Play (Unit {0})
preempt_with meanwhile u = do
  suspend_current meanwhile
  held ← gets (λ p. p.held)
  if held
      then pure tt
      else do refreshed ← gets (λ p. get u.id p.store); start_refreshed refreshed; restore_if_free

unfoldable pub preempt_found : (Player → Player) → Option Utterance → Play (Unit {0})
preempt_found meanwhile none = restore_if_free
preempt_found meanwhile (some u) = preempt_with meanwhile u

unfoldable pub plan_preemption : (Player → Player) → Play (Unit {0})
plan_preemption meanwhile = do
  held ← gets (λ p. p.held)
  u ← gets candidate
  if held then pure tt else preempt_found meanwhile u

-- The closing cue.
unfoldable pub start_outro : Player → Player
start_outro p = record p {
  sink = start "chime_outro_descending.wav" 0 (set_rate 100 p.sink);
  sink_active = true;
  watcher = watching_outro;
}

abbrev pub earcon_enabled : Player → Bool
earcon_enabled p = text_eq (get_setting "earcon_enabled" "false" p.store) "true"

unfoldable pub close_cue_session : Player → Player
close_cue_session p =
    let closed = record p { cue_session_open = false } in
    if earcon_enabled p then start_outro closed else closed

unfoldable pub finish_cue_session : Option Utterance → Player → Player
finish_cue_session pending p =
    if is_some pending || not p.cue_session_open then p else close_cue_session p

-- Where the loop has nothing to start, it waits.
unfoldable pub go_idle : Player → Player
go_idle p = record p { woken = false }

unfoldable pub start_next : Option Utterance → Option UtteranceSegment → Play (Unit {0})
start_next none g = modify go_idle
start_next (some u) (some g) =
    if state_is u.state ready && state_is g.state ready then begin_segment u g 0 else modify go_idle
start_next (some u) none = do
  sourced ← gets (clip_has_source u)
  if state_is u.state ready && sourced
      then begin u.id (or_text u.audio_path u.id) 0
      else modify go_idle

abbrev pub child_of : Option Utterance → Store → Option UtteranceSegment
child_of none s = none
child_of (some u) s = next_unfinished_segment u.id s

unfoldable pub plan_next : Play (Unit {0})
plan_next = do
  next ← gets (λ p. next_pending none p.store)
  modify (finish_cue_session next)
  g ← gets (λ p. child_of next p.store)
  start_next next g

unfoldable pub continue_child : Utterance → Option UtteranceSegment → Play (Unit {0})
continue_child u none = modify go_idle
continue_child u (some g) = if state_is g.state ready then begin_segment u g 0 else modify go_idle

unfoldable pub continue_found : Option Utterance → Play (Unit {0})
continue_found none = modify clear_current
continue_found (some u) = do
  held ← gets (λ p. p.held)
  g ← gets (λ p. next_unfinished_segment u.id p.store)
  if is_terminal u
      then modify clear_current
      else if not held && state_is u.state playing
      then continue_child u g
      else modify go_idle

unfoldable pub plan_rest : Play (Unit {0})
plan_rest = do
  p ← gets (λ p. p)
  if is_none p.current_id && not p.held && not p.sink_active
      then plan_next
      else if is_some p.current_id && not p.sink_active
      then continue_found (current p)
      else modify go_idle

-- One turn of the loop of `run`.
unfoldable pub plan : (Player → Player) → Play (Unit {0})
plan meanwhile = plan_preemption meanwhile >> plan_rest

unfoldable pub clear_entry : Option Utterance → Option ℕ → Play ℕ
clear_entry none index = pure 0
clear_entry (some u) index = if not (state_is u.state paused) then pure 0 else do
  g ← gets (λ p. child_at u.id index p.store)
  on_store (skip_utterance u.id index (played g) u.played_ms)
  pure 1
  where
    child_at : String → Option ℕ → Store → Option UtteranceSegment
    child_at id none s = none
    child_at id (some i) s = get_segment id i s

    played : Option UtteranceSegment → ℕ
    played none = 0
    played (some g) = or_zero g.played_ms

-- `clear_preempted` over the stack; it returns how many clips it has skipped.
unfoldable pub clear_from : List (String × Option ℕ) → Play ℕ
clear_from [] = pure 0
clear_from ((id, index) ∷ saved) = do
  modify (λ p. record p { preempted_stack = saved })
  u ← gets (λ p. get id p.store)
  one ← clear_entry u index
  cleared ← clear_from saved
  pure (one + cleared)

unfoldable pub clear_preempted : Play ℕ
clear_preempted = do saved ← gets (λ p. p.preempted_stack); clear_from saved
