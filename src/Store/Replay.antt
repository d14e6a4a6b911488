-- ===== src/Store/Replay.antt =====
-- Stepping through a document in src/aitts/store.py: `restart_segments`, `reset_segments_from`,
-- `skip_utterance` and `suspend_playback`.
use ai_tts.Common.{
  ℕ, ◌+◌, Bool, true, false, ◌&&◌, ◌||◌, not, String, Option, none, some, List, [], ◌∷◌, text_eq,
  is_some, is_none, is_empty, ◌==◌, leb, if◌then◌else◌, any,
}
use ai_tts.Common.Table.{find}
use ai_tts.Model.{
  Utterance, UtteranceSegment, State, ready, playing, paused, played, skipped, state_is, state_in,
  artifact_id,
}
use ai_tts.Store.{Store, StreamingJob, key_error, transition_error}
use ai_tts.Store.Exec.{Exec, pure, raise, gets, time, require, when, ◌>>=◌, ◌>>◌}
use ai_tts.Store.Reads.{has_id, is_child, get, get_segment, segments, completed_segment_duration_ms}
use ai_tts.Store.Transition.{no_changes, transition, write_utterances, write_segments}
use ai_tts.Store.Streaming.{is_job, announce_found, announce_segment_found}

abbrev pub replayable_states : List State
replayable_states = ready ∷ playing ∷ paused ∷ played ∷ skipped ∷ []

abbrev job_of : UtteranceSegment → StreamingJob → Bool
job_of g j =
    text_eq j.utterance_id g.utterance_id
    && elim j.segment_index [ none ↦ false | some i ↦ i == g.index ]

-- Audio to play again: a file, or a clip that is still being generated.
abbrev pub has_audio : List StreamingJob → UtteranceSegment → Bool
has_audio jobs g = is_some g.audio_path || any (job_of g) jobs

abbrev rewind : UtteranceSegment → UtteranceSegment
rewind g = record g { state = ready; played_ms = some 0 }

-- The children that a replay from `index` reopens.
abbrev pub reopened : String → ℕ → List StreamingJob → UtteranceSegment → Bool
reopened id index jobs g =
    text_eq g.utterance_id id
    && leb index g.index
    && has_audio jobs g
    && state_in g.state replayable_states

unfoldable pub restart_segments : String → Exec Bool
restart_segments id = do
  gs ← gets (segments id)
  jobs ← gets (λ s. s.streaming_jobs)
  if is_empty gs then pure false else do
    write_segments
        (λ g. text_eq g.utterance_id id && has_audio jobs g && state_in g.state replayable_states)
        rewind
    write_utterances (has_id id) (λ u. record u { played_ms = some 0 })
    pure true

abbrev is_ready : Option UtteranceSegment → Bool
is_ready none = false
is_ready (some g) = state_is g.state ready

-- The target's audio is a file, or a clip whose producer is still at work.
abbrev is_live : List StreamingJob → UtteranceSegment → Bool
is_live jobs g = is_some (find (is_job (artifact_id g)) jobs)

unfoldable pub rewind_from : String → ℕ → List StreamingJob → Exec Bool
rewind_from id index jobs = do
  write_segments (reopened id index jobs) rewind
  elapsed ← gets (completed_segment_duration_ms id (some index))
  write_utterances (has_id id) (λ u. record u { played_ms = some elapsed })
  moved ← gets (get_segment id index)
  pure (is_ready moved)

unfoldable pub reset_target : String → ℕ → List StreamingJob → Option UtteranceSegment → Exec Bool
reset_target id index jobs none = pure false
reset_target id index jobs (some target) =
    if is_none target.audio_path && not (is_live jobs target)
    then pure false
    else rewind_from id index jobs

unfoldable pub reset_segments_from : String → ℕ → Exec Bool
reset_segments_from id index = do
  found ← gets (get_segment id index)
  jobs ← gets (λ s. s.streaming_jobs)
  reset_target id index jobs found

-- The child that is being heard, if it is.
abbrev pub active_child : String → Option ℕ → Store → Option UtteranceSegment
active_child id none s = none
active_child id (some i) s = elim (get_segment id i s) [
  | none ↦ none
  | some g ↦ if state_in g.state (playing ∷ paused ∷ []) then some g else none
]

unfoldable pub skip_child : String → ℕ → Option UtteranceSegment → Exec (Unit {0})
skip_child id position none = pure tt
skip_child id position (some g) =
    write_segments (is_child id g.index)
      (λ x. record x { state = skipped; played_ms = some position })

unfoldable pub announce_skipped : String → Option UtteranceSegment → Exec (Unit {0})
announce_skipped id none = pure tt
announce_skipped id (some g) = announce_segment_found id g.index g.state

unfoldable pub skip_utterance : String → Option ℕ → ℕ → Option ℕ → Exec Utterance
skip_utterance id index position total = do
  found ← gets (get id)
  current ← require found key_error
  active ← gets (active_child id index)
  if not (state_in current.state (playing ∷ paused ∷ [])) then raise transition_error else do
    skip_child id position active
    after ← transition id skipped (record no_changes { played_ms = total })
    announce_skipped id active
    pure after

abbrev pub child_at : String → Option ℕ → Store → Option UtteranceSegment
child_at id none s = none
child_at id (some i) s = get_segment id i s

unfoldable pub pause_child : String → Option ℕ → ℕ → Exec (Unit {0})
pause_child id none position = pure tt
pause_child id (some i) position =
    write_segments (is_child id i) (λ g. record g { state = paused; played_ms = some position })

-- The document's position: what was completed before the child, and the child's own position.
abbrev pub total_position : String → Option ℕ → ℕ → Store → ℕ
total_position id none position s = position
total_position id (some i) position s = position + completed_segment_duration_ms id (some i) s

unfoldable pub announce_paused_child : String → Option UtteranceSegment → Exec (Unit {0})
announce_paused_child id none = pure tt
announce_paused_child id (some g) =
    when (not (state_is g.state paused)) (announce_segment_found id g.index g.state)

-- `time.time()` is read only where the state changes.
unfoldable pub change_time : Utterance → Exec ℕ
change_time clip = if not (state_is clip.state paused) then time else pure clip.state_changed_at

unfoldable pub save_position : String → ℕ → ℕ → Exec (Unit {0})
save_position id total now =
    write_utterances (has_id id)
      (λ u. record u { state = paused; played_ms = some total; state_changed_at = now })

-- The callbacks of `suspend_playback`.
unfoldable pub announce_suspended : String → Option UtteranceSegment → State → Exec Bool
announce_suspended id before was = do
  announce_paused_child id before
  when (not (state_is was paused)) (announce_found id was)
  pure true

unfoldable pub suspend_clip : String → Option ℕ → ℕ → Option Utterance → Exec Bool
suspend_clip id index position none = pure false
suspend_clip id index position (some clip) =
    if not (state_in clip.state (playing ∷ paused ∷ [])) then pure false else do
      before ← gets (child_at id index)
      total ← gets (total_position id index position)
      pause_child id index position
      now ← change_time clip
      save_position id total now
      announce_suspended id before clip.state

unfoldable pub suspend_playback : String → Option ℕ → ℕ → Exec Bool
suspend_playback id index position = do found ← gets (get id); suspend_clip id index position found
