-- ===== src/Model.antt =====
-- src/aitts/model.py: the utterance, its states and the transitions between them.
-- Speeds are only carried along, so a speed is an opaque number here; times are the readings of
-- `time.time()`, taken as numbers; order keys only ever hold whole numbers, so they are integers.
pub mod Machine
use Prim.Native.String.{◌++◌}
use ai_tts.Common.{
  format_04d, ℕ, Bool, ◌||◌, Option, none, some, List, [], ◌∷◌, String, ◌==◌, any, is_some,
}
use ai_tts.Common.Int.{ℤ}

pub data State : Type 0 where
  submitted queued synthesizing ready playing paused played skipped cancelled failed : State

pub data Sensitivity : Type 0 where
  public internal confidential : Sensitivity

pub data Priority : Type 0 where
  normal urgent preempt : Priority

pub data ContentFormat : Type 0 where
  plain_text markdown : ContentFormat

abbrev pub state_code : State → ℕ
state_code submitted = 0
state_code queued = 1
state_code synthesizing = 2
state_code ready = 3
state_code playing = 4
state_code paused = 5
state_code played = 6
state_code skipped = 7
state_code cancelled = 8
state_code failed = 9

-- `a is b` of two members of the enumeration.
abbrev pub state_is : State → State → Bool
state_is a b = state_code a == state_code b

abbrev pub state_in : State → List State → Bool
state_in s ss = any (state_is s) ss

abbrev pub terminal : List State
terminal = played ∷ skipped ∷ cancelled ∷ failed ∷ []

abbrev pub transitions : State → List State
transitions submitted = queued ∷ []
transitions queued = synthesizing ∷ cancelled ∷ []
transitions synthesizing = ready ∷ failed ∷ cancelled ∷ queued ∷ []
transitions ready = playing ∷ cancelled ∷ failed ∷ []
transitions playing = played ∷ paused ∷ skipped ∷ failed ∷ []
transitions paused = playing ∷ played ∷ skipped ∷ failed ∷ []
transitions played = []
transitions skipped = []
transitions cancelled = []
transitions failed = []

unfoldable pub can_transition : State → State → Bool
can_transition src dst = state_in dst (transitions src)

pub record Utterance : Type 0 where
  pub id : String
  pub text : String
  pub voice : String
  pub speed : ℕ
  pub sensitivity : Sensitivity
  pub priority : Priority
  pub state : State
  pub order_key : ℤ
  pub submitted_at : ℕ
  pub state_changed_at : ℕ
  pub source : Option String
  pub error : Option String
  pub duration_ms : Option ℕ
  pub played_ms : Option ℕ
  pub audio_path : Option String
  pub generation_artifact_id : Option String
  pub replay_of : Option String
  pub engine : Option String

unfoldable pub is_terminal : Utterance → Bool
is_terminal u = state_in u.state terminal

pub record UtteranceSegment : Type 0 where
  pub utterance_id : String
  pub index : ℕ
  pub text : String
  pub state : State
  pub error : Option String
  pub duration_ms : Option ℕ
  pub played_ms : Option ℕ
  pub audio_path : Option String
  pub generation_artifact_id : Option String

-- `artifact_id` of a segment.
unfoldable pub artifact_id : UtteranceSegment → String
artifact_id g = g.utterance_id ++ "_segment_" ++ format_04d g.index

pub record VoiceAssignment : Type 0 where
  pub source : String
  pub voice : String
  pub pinned : Bool
  pub assigned_at : ℕ

pub record SynthesisWork : Type 0 where
  pub id : String
  pub utterance_id : String
  pub segment_index : Option ℕ
  pub text : String
  pub voice : String
  pub speed : ℕ
  pub state : State
  pub engine : Option String
  pub sensitivity : Sensitivity

unfoldable pub is_segment : SynthesisWork → Bool
is_segment w = is_some w.segment_index
