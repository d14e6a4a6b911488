-- ===== src/Store/Transition.antt =====
-- `transition` and `transition_segment` of src/aitts/store.py.
pub mod Effect
use ai_tts.Common.{
  ℕ, Bool, ◌&&◌, not, String, Option, none, some, text_eq, path_stem, if◌then◌else◌,
}
use ai_tts.Common.Table.{update_where}
use ai_tts.Model.{Utterance, UtteranceSegment, State, cancelled, state_in, terminal, can_transition}
use ai_tts.Store.{Store, on_transition, on_segment_transition, key_error, transition_error}
use ai_tts.Store.Exec.{Exec, pure, raise, gets, execute, time, emit, require, when, ◌>>=◌, ◌>>◌}
use ai_tts.Store.Reads.{has_id, is_child, get, get_segment}

-- The keyword arguments that may change with the state.
pub record Changes : Type 0 where
  pub error : Option String
  pub duration_ms : Option ℕ
  pub played_ms : Option ℕ
  pub audio_path : Option String

abbrev pub no_changes : Changes
no_changes = record { error = none; duration_ms = none; played_ms = none; audio_path = none }

-- A column is set only where the value is not None.
abbrev pub or_else {ℓ} : {A : Type ℓ} → Option A → Option A → Option A
or_else none old = old
or_else (some new) old = some new

-- `Path(audio_path).stem if audio_path else None`.
pub generation_of : Option String → Option String
generation_of none = none
generation_of (some path) = if text_eq path "" then none else some (path_stem path)

abbrev pub set_utterance : State → Changes → ℕ → Utterance → Utterance
set_utterance to ch now u = record u {
  state = to;
  state_changed_at = now;
  error = or_else ch.error u.error;
  duration_ms = or_else ch.duration_ms u.duration_ms;
  played_ms = or_else ch.played_ms u.played_ms;
  audio_path = or_else ch.audio_path u.audio_path;
  generation_artifact_id = or_else (generation_of ch.audio_path) u.generation_artifact_id;
}

abbrev pub set_segment : State → Changes → UtteranceSegment → UtteranceSegment
set_segment to ch g = record g {
  state = to;
  error = or_else ch.error g.error;
  duration_ms = or_else ch.duration_ms g.duration_ms;
  played_ms = or_else ch.played_ms g.played_ms;
  audio_path = or_else ch.audio_path g.audio_path;
  generation_artifact_id = or_else (generation_of ch.audio_path) g.generation_artifact_id;
}

abbrev pub update_utterances : (Utterance → Bool) → (Utterance → Utterance) → Store → Store
update_utterances p f s = record s { utterances = update_where p f s.utterances }

-- UPDATE utterances SET … WHERE ….
unfoldable pub write_utterances : (Utterance → Bool) → (Utterance → Utterance) → Exec (Unit {0})
write_utterances p f = execute (update_utterances p f)

-- UPDATE utterance_segments SET … WHERE ….
unfoldable pub write_segments :
    (UtteranceSegment → Bool) → (UtteranceSegment → UtteranceSegment) → Exec (Unit {0})
write_segments p f = execute (λ s. record s { segments = update_where p f s.segments })

-- The unfinished children of `id`.
abbrev pub unfinished : String → UtteranceSegment → Bool
unfinished id g = text_eq g.utterance_id id && not (state_in g.state terminal)

unfoldable pub cancel_children : String → Exec (Unit {0})
cancel_children id = write_segments (unfinished id) (λ g. record g { state = cancelled })

-- Reads the row back and calls the callbacks with it.
unfoldable pub announce : String → State → Exec Utterance
announce id before = do
  found ← gets (get id)
  after ← require found key_error
  emit (on_transition after before)
  pure after

-- The writes of a permitted `transition`, and the callbacks.
unfoldable pub move : String → State → Changes → State → Exec Utterance
move id to ch before = do
  now ← time
  write_utterances (has_id id) (set_utterance to ch now)
  when (state_in to terminal) (cancel_children id)
  announce id before

unfoldable pub transition : String → State → Changes → Exec Utterance
transition id to ch = do
  found ← gets (get id)
  current ← require found key_error
  if can_transition current.state to then move id to ch current.state else raise transition_error

unfoldable pub announce_segment : String → ℕ → State → Exec UtteranceSegment
announce_segment id index before = do
  found ← gets (get_segment id index)
  after ← require found key_error
  emit (on_segment_transition after before)
  pure after

unfoldable pub move_segment : String → ℕ → State → Changes → State → Exec UtteranceSegment
move_segment id index to ch before = do
  write_segments (is_child id index) (set_segment to ch)
  announce_segment id index before

unfoldable pub transition_segment : String → ℕ → State → Changes → Exec UtteranceSegment
transition_segment id index to ch = do
  found ← gets (get_segment id index)
  current ← require found key_error
  if can_transition current.state to
      then move_segment id index to ch current.state
      else raise transition_error
