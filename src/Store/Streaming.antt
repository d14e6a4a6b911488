-- ===== src/Store/Streaming.antt =====
-- The life of a claimed unit of work in src/aitts/store.py: `start_streaming`,
-- `discard_streaming_job`, `synthesis_work_is_active`, `finish_synthesis` and `fail_synthesis`.
use Prim.Native.String.{◌++◌ as text_append}
use ai_tts.Common.{
  ℕ, Bool, true, false, ◌&&◌, ◌||◌, not, String, Option, none, some, List, [], ◌∷◌, ◌++◌, text_eq,
  is_some, is_none, ◌==◌, if◌then◌else◌, all, is_empty,
}
use ai_tts.Common.Table.{find, delete_where, select_where}
use ai_tts.Model.{
  Utterance, UtteranceSegment, SynthesisWork, State, queued, synthesizing, ready, playing, paused,
  cancelled, failed, state_is, state_in, terminal, is_terminal,
}
use ai_tts.Store.{Store, StreamingJob, on_transition, on_segment_transition}
use ai_tts.Store.Exec.{Exec, pure, gets, execute, time, emit, when, if_found, ◌>>=◌, ◌>>◌}
use ai_tts.Store.Reads.{has_id, is_child, get, get_segment, sum_duration}
use ai_tts.Store.Transition.{
  Changes, no_changes, transition, transition_segment, write_utterances, write_segments,
}

abbrev pub is_job : String → StreamingJob → Bool
is_job artifact j = text_eq j.artifact_id artifact

unfoldable pub streaming_job : SynthesisWork → Store → Bool
streaming_job w s = is_some (find (is_job w.id) s.streaming_jobs)

unfoldable pub insert_job : StreamingJob → Exec (Unit {0})
insert_job j = execute (λ s. record s { streaming_jobs = s.streaming_jobs ++ j ∷ [] })

unfoldable pub discard_streaming_job : String → Exec (Unit {0})
discard_streaming_job artifact =
    execute (λ s. record s { streaming_jobs = delete_where (is_job artifact) s.streaming_jobs })

-- `get_segment` at an index that may be None.
abbrev pub child_of : SynthesisWork → Store → Option UtteranceSegment
child_of w s = elim w.segment_index [ none ↦ none | some i ↦ get_segment w.utterance_id i s ]

abbrev not_closed : Option UtteranceSegment → Bool
not_closed none = true
not_closed (some g) = not (state_in g.state terminal)

abbrev is_rendering : Option UtteranceSegment → Bool
is_rendering none = false
is_rendering (some g) = state_is g.state synthesizing

abbrev active_under : SynthesisWork → Store → Option Utterance → Bool
active_under w s none = false
active_under w s (some parent) =
    if is_terminal parent
    then false
    else if streaming_job w s
    then not_closed (child_of w s)
    else if is_none w.segment_index
    then state_is parent.state synthesizing
    else is_rendering (child_of w s)

unfoldable pub synthesis_work_is_active : SynthesisWork → Store → Bool
synthesis_work_is_active w s = active_under w s (get w.utterance_id s)

-- Callbacks are called only if the row is still there.
unfoldable pub announce_found : String → State → Exec (Unit {0})
announce_found id before = do
  found ← gets (get id)
  if_found found (λ u. emit (on_transition u before))

unfoldable pub announce_segment_found : String → ℕ → State → Exec (Unit {0})
announce_segment_found id index before = do
  found ← gets (get_segment id index)
  if_found found (λ g. emit (on_segment_transition g before))

abbrev pub set_state : State → ℕ → Utterance → Utterance
set_state st now u = record u { state = st; state_changed_at = now }

abbrev is_first : Option ℕ → Bool
is_first none = false
is_first (some i) = i == 0

unfoldable pub set_child_state : SynthesisWork → State → Exec (Unit {0})
set_child_state w st =
    if_found w.segment_index
      λ i. write_segments (is_child w.utterance_id i) (λ g. record g { state = st })

unfoldable pub announce_child : SynthesisWork → Exec (Unit {0})
announce_child w =
    if_found w.segment_index (λ i. announce_segment_found w.utterance_id i synthesizing)

-- `ready_parent`.
abbrev pub readies_parent : SynthesisWork → Utterance → Bool
readies_parent w parent =
    is_none w.segment_index || (is_first w.segment_index && state_is parent.state synthesizing)

unfoldable pub set_ready : String → Exec (Unit {0})
set_ready id = do now ← time; write_utterances (has_id id) (set_state ready now)

-- The writes of `start_streaming`, and the callbacks after the commit.
unfoldable pub advertise : SynthesisWork → Utterance → Exec (Unit {0})
advertise w parent = do
  insert_job (record {
    artifact_id = w.id;
    utterance_id = w.utterance_id;
    segment_index = w.segment_index;
  })
  set_child_state w ready
  when (readies_parent w parent) (set_ready w.utterance_id)
  announce_child w
  when (readies_parent w parent) (announce_found w.utterance_id parent.state)

unfoldable pub start_streaming : SynthesisWork → Exec (Unit {0})
start_streaming w = do
  active ← gets (synthesis_work_is_active w)
  streaming ← gets (streaming_job w)
  found ← gets (get w.utterance_id)
  if not active || streaming then pure tt else if_found found (advertise w)

abbrev children : String → Store → List UtteranceSegment
children id s = select_where (λ g. text_eq g.utterance_id id) s.segments

-- `COUNT(*) > 0` and `COUNT(*) = COUNT(duration_ms)`.
abbrev pub all_measured : List UtteranceSegment → Bool
all_measured gs = not (is_empty gs) && all (λ g. is_some g.duration_ms) gs

unfoldable pub refresh_composite_duration : String → Exec (Unit {0})
refresh_composite_duration id = do
  gs ← gets (children id)
  when (all_measured gs)
      (write_utterances (has_id id) (λ u. record u { duration_ms = some (sum_duration gs) }))

-- The UPDATE that publishes the audio of a streamed unit.
unfoldable pub publish_streamed : SynthesisWork → String → Option ℕ → Exec (Unit {0})
publish_streamed w path duration = elim w.segment_index [
  | none ↦ write_utterances (has_id w.utterance_id) (λ u. record u {
    audio_path = some path;
    duration_ms = duration;
    generation_artifact_id = some w.id;
  })
  | some i ↦ do
    write_segments (is_child w.utterance_id i) (λ g. record g {
      audio_path = some path;
      duration_ms = duration;
      generation_artifact_id = some w.id;
    })
    refresh_composite_duration w.utterance_id
]

abbrev pub rendered : String → Option ℕ → Changes
rendered path duration = record no_changes { audio_path = some path; duration_ms = duration }

-- `if parent is not None and parent.state is State.SYNTHESIZING: …`.
unfoldable pub promote_parent : String → Exec (Unit {0})
promote_parent id = do
  found ← gets (get id)
  if_found found
      λ u. when (state_is u.state synthesizing) (transition u.id ready no_changes >> pure tt)

unfoldable pub publish_rendered : SynthesisWork → String → Option ℕ → Exec (Unit {0})
publish_rendered w path duration = elim w.segment_index [
  | none ↦ transition w.utterance_id ready (rendered path duration) >> pure tt
  | some i ↦ do
    transition_segment w.utterance_id i ready (rendered path duration)
    when (i == 0) (promote_parent w.utterance_id)
    refresh_composite_duration w.utterance_id
]

unfoldable pub finish_synthesis : SynthesisWork → String → Option ℕ → Exec (Unit {0})
finish_synthesis w path duration = do
  streaming ← gets (streaming_job w)
  if streaming
      then (publish_streamed w path duration >> discard_streaming_job w.id)
      else publish_rendered w path duration

abbrev pub live_states : Bool → List State
live_states true = synthesizing ∷ ready ∷ playing ∷ paused ∷ []
live_states false = synthesizing ∷ []

abbrev pub failure : String → Changes
failure error = record no_changes { error = some error }

-- The end of `fail_synthesis`: the parent fails with its child.
unfoldable pub fail_parent : String → String → Exec (Unit {0})
fail_parent id error = do
  found ← gets (get id)
  if_found found λ u.
      when (not (is_terminal u))
        (transition u.id failed (failure (text_append "segment failed: " error)) >> pure tt)

unfoldable pub fail_child : SynthesisWork → ℕ → String → Exec (Unit {0})
fail_child w i error = do
  streaming ← gets (streaming_job w)
  write_segments (λ g. is_child w.utterance_id i g && state_in g.state (live_states streaming))
      (λ g. record g { state = failed; error = some error })
  write_segments
      (λ g.
        text_eq g.utterance_id w.utterance_id
        && state_in g.state (queued ∷ synthesizing ∷ ready ∷ []))
      (λ g. record g { state = cancelled })
  fail_parent w.utterance_id error

unfoldable pub fail_synthesis : SynthesisWork → String → Exec (Unit {0})
fail_synthesis w error = elim w.segment_index [
  | none ↦ transition w.utterance_id failed (failure error) >> pure tt
  | some i ↦ fail_child w i error
]
