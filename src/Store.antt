-- ===== src/Store.antt =====
-- src/aitts/store.py: the database and how a method of `Store` acts on it.
-- The database is five tables of rows, in the order in which SQLite would scan them. A method is an
-- action: it returns or raises, and what it committed before raising stays written, so the database
-- comes back beside the error too. The readings of `time.time()` are taken from a given sequence,
-- and the calls of the `on_transition` and `on_segment_transition` callbacks are appended to a list.
-- A failure of SQLite itself (a full disk, a locked file) is not modelled.
pub mod Exec
pub mod Reads
pub mod Transition
pub mod Lasting
pub mod Submit
pub mod Synthesis
pub mod Streaming
pub mod Replay
pub mod Queue
pub mod Registry
pub mod Recover
pub mod Calls
pub mod Order
pub mod Promote
pub mod Forgotten
pub mod Skipped
use ai_tts.Common.{
  ℕ, suc, ◌+◌, ◌≡◌, refl, Bool, true, false, ◌&&◌, not, String, Option, none, some, List, [], ◌∷◌,
  ◌++◌, text_eq, ◌==◌,
}
use ai_tts.Common.Table.{find}
use ai_tts.Model.{Utterance, UtteranceSegment, VoiceAssignment, State, state_in, terminal}

pub record StreamingJob : Type 0 where
  pub artifact_id : String
  pub utterance_id : String
  pub segment_index : Option ℕ

pub record Setting : Type 0 where
  pub key : String
  pub value : String

-- One call of a callback: the row after the change, and the state before it; or an announcement of
-- the voice registry.
pub data Event : Type 0 where
  on_transition : Utterance → State → Event
  on_segment_transition : UtteranceSegment → State → Event
  voice_assigned : VoiceAssignment → Event
  voice_released : String → Event

pub record Store : Type 0 where
  pub utterances : List Utterance
  pub segments : List UtteranceSegment
  pub streaming_jobs : List StreamingJob
  pub settings : List Setting
  pub voice_assignments : List VoiceAssignment
  pub clock : ℕ → ℕ
  pub readings : ℕ
  pub events : List Event

-- The exceptions that a method raises; the last three are an `ApiError` of that type.
pub data Error : Type 0 where
  key_error transition_error value_error integrity_error runtime_error : Error
  overflow_error : Error
  bad_request not_found illegal_state : Error

pub data Result {ℓ} (A : Type ℓ) : Type ℓ where
  ok : A → Result A
  raised : Error → Result A
