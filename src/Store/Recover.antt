-- ===== src/Store/Recover.antt =====
-- `recover` and `_recover_streaming_jobs` of src/aitts/store.py: the repair after a restart.
use Prim.Native.String.{◌++◌ as text_append}
use ai_tts.Common.{
  ℕ, Bool, false, ◌&&◌, ◌||◌, not, String, Option, none, some, List, [], ◌∷◌, ◌++◌, text_eq,
  is_empty, all, leb, head?, if◌then◌else◌,
}
use ai_tts.Common.Table.{find, select_where, sort_by}
use Prim.Native.String.{compare}
use text.Mathlib.Text.{is_lt}
use ai_tts.Model.{
  Utterance, UtteranceSegment, State, queued, synthesizing, ready, playing, paused, played, failed,
  state_is, state_in, terminal, is_terminal,
}
use ai_tts.Store.{Store, StreamingJob}
use ai_tts.Store.Exec.{Exec, pure, gets, execute, for_each, when, if_found, ◌>>=◌, ◌>>◌}
use ai_tts.Store.Reads.{
  has_id, is_child, get, segments, by_states, input_queue, playback_queue,
  completed_segment_duration_ms,
}
use ai_tts.Store.Transition.{
  no_changes, transition, transition_segment, write_utterances, write_segments,
}
use ai_tts.Store.Streaming.{failure}
use ai_tts.Store.Registry.{set_setting}

-- `audio_path = NULL, played_ms = NULL`, back in the queue.
abbrev pub requeue_segment : UtteranceSegment → UtteranceSegment
requeue_segment g = record g { state = queued; audio_path = none; played_ms = none }

abbrev pub requeue_utterance : Utterance → Utterance
requeue_utterance u = record u { state = queued; audio_path = none; played_ms = none }

-- A child that is already finished stays finished.
unfoldable pub requeue_child : String → Option ℕ → Exec (Unit {0})
requeue_child id none = pure tt
requeue_child id (some i) =
    write_segments (λ g. is_child id i g && not (state_in g.state terminal)) requeue_segment

unfoldable pub requeue_parent : Utterance → Option ℕ → Exec (Unit {0})
requeue_parent parent none = write_utterances (has_id parent.id) requeue_utterance
requeue_parent parent (some i) =
    when (state_is parent.state playing)
      (write_utterances (has_id parent.id) (λ u. record u { state = paused }))

-- The work on one interrupted job whose parent is still owed.
unfoldable pub recover_live : Utterance → StreamingJob → Exec (Unit {0})
recover_live parent job = do
  when (state_in parent.state (playing ∷ paused ∷ [])) (set_setting "playback_held" "true")
  requeue_child parent.id job.segment_index
  requeue_parent parent job.segment_index

unfoldable pub recover_job : StreamingJob → Exec (Unit {0})
recover_job job = do
  found ← gets (get job.utterance_id)
  if_found found λ parent. if is_terminal parent then pure tt else recover_live parent job

unfoldable pub delete_jobs : Exec (Unit {0})
delete_jobs = execute (λ s. record s { streaming_jobs = [] })

unfoldable pub recover_streaming_jobs : Exec (Unit {0})
recover_streaming_jobs = do
  interrupted ← gets (λ s. s.streaming_jobs)
  for_each interrupted recover_job
  delete_jobs

abbrev by_parent_and_index : UtteranceSegment → UtteranceSegment → Bool
by_parent_and_index a b =
    is_lt (compare a.utterance_id b.utterance_id)
    || (text_eq a.utterance_id b.utterance_id && leb a.index b.index)

unfoldable pub segments_by_states : List State → Store → List UtteranceSegment
segments_by_states states s =
    sort_by by_parent_and_index (select_where (λ g. state_in g.state states) s.segments)

unfoldable pub move_segment_to : State → UtteranceSegment → Exec (Unit {0})
move_segment_to to g = transition_segment g.utterance_id g.index to no_changes >> pure tt

unfoldable pub move_to : State → Utterance → Exec (Unit {0})
move_to to u = transition u.id to no_changes >> pure tt

-- `f"{error}"` of an optional text.
abbrev error_text : Option String → String
error_text none = "None"
error_text (some e) = e

abbrev is_failed : UtteranceSegment → Bool
is_failed g = state_is g.state failed

abbrev first_is_ready : List UtteranceSegment → Bool
first_is_ready gs = elim (head? gs) [ none ↦ false | some g ↦ state_is g.state ready ]

abbrev all_closed : List UtteranceSegment → Bool
all_closed gs = not (is_empty gs) && all (λ g. state_in g.state terminal) gs

-- A child failed before its parent did.
unfoldable pub fail_owner : Utterance → UtteranceSegment → Exec (Unit {0})
fail_owner u g = do
  when (state_is u.state queued) (move_to synthesizing u)
  transition u.id failed (failure (text_append "segment failed: " (error_text g.error)))
  pure tt

unfoldable pub close_owner : Utterance → Exec (Unit {0})
close_owner u = do
  elapsed ← gets (completed_segment_duration_ms u.id none)
  transition u.id played (record no_changes { played_ms = some elapsed })
  pure tt

-- The three cases of the last loop, by the first failed child.
unfoldable pub reconcile_children :
    Utterance → List UtteranceSegment → Option UtteranceSegment → Exec (Unit {0})
reconcile_children u gs (some g) = fail_owner u g
reconcile_children u gs none =
    if state_is u.state paused && all_closed gs
    then close_owner u
    else if state_is u.state queued && first_is_ready gs
    then move_to synthesizing u >> move_to ready u
    else pure tt

unfoldable pub reconcile : Utterance → Exec (Unit {0})
reconcile u = do gs ← gets (segments u.id); reconcile_children u gs (find is_failed gs)

unfoldable pub recover : Exec (Unit {0})
recover = do
  recover_streaming_jobs
  rendering ← gets (segments_by_states (synthesizing ∷ []))
  for_each rendering (move_segment_to queued)
  sounding ← gets (segments_by_states (playing ∷ []))
  for_each sounding (move_segment_to paused)
  claimed ← gets (by_states (synthesizing ∷ []))
  for_each claimed (move_to queued)
  heard ← gets (by_states (playing ∷ []))
  for_each heard (move_to paused)
  owed ← gets (λ s. input_queue s ++ playback_queue s)
  for_each owed reconcile
