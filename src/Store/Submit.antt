-- ===== src/Store/Submit.antt =====
-- `submit` of src/aitts/store.py. The identifier that `new_utterance_id` mints is an argument.
use ai_tts.Common.{
  ℕ, suc, Bool, false, ◌||◌, String, Option, none, some, List, [], ◌∷◌, ◌++◌, is_blank, is_empty,
  any, is_some, if◌then◌else◌,
}
use ai_tts.Model.{Utterance, UtteranceSegment, Sensitivity, Priority, queued}
use ai_tts.Store.{Store, value_error, integrity_error}
use ai_tts.Store.Exec.{Exec, pure, raise, gets, execute, time, ◌>>=◌, ◌>>◌}
use ai_tts.Store.Reads.{get, head_order_key, tail_order_key}

pub record Submission : Type 0 where
  pub text : String
  pub voice : String
  pub speed : ℕ
  pub sensitivity : Sensitivity
  pub priority : Priority
  pub source : Option String
  pub replay_of : Option String
  pub engine : Option String
  pub at_head : Bool
  pub spoken_segments : Option (List String)

-- The test that refuses a submission.
abbrev pub refused_segments : Option (List String) → Bool
refused_segments none = false
refused_segments (some texts) = is_empty texts || any is_blank texts

-- `enumerate(spoken_segments)`, from `index` on.
abbrev pub segment_rows : String → ℕ → List String → List UtteranceSegment
segment_rows id index [] = []
segment_rows id index (text ∷ texts) =
    record {
      utterance_id = id;
      index = index;
      text = text;
      state = queued;
      error = none;
      duration_ms = none;
      played_ms = none;
      audio_path = none;
      generation_artifact_id = none;
    }
    ∷ segment_rows id (suc index) texts

abbrev pub rows_of : String → Option (List String) → List UtteranceSegment
rows_of id none = []
rows_of id (some texts) = segment_rows id 0 texts

abbrev pub new_utterance : String → Submission → ℕ → Store → Utterance
new_utterance id sub now s = record {
  id = id;
  text = sub.text;
  voice = sub.voice;
  speed = sub.speed;
  sensitivity = sub.sensitivity;
  priority = sub.priority;
  state = queued;
  order_key = if sub.at_head then head_order_key s else tail_order_key s;
  submitted_at = now;
  state_changed_at = now;
  source = sub.source;
  error = none;
  duration_ms = none;
  played_ms = none;
  audio_path = none;
  generation_artifact_id = none;
  replay_of = sub.replay_of;
  engine = sub.engine;
}

-- The INSERT statements; a second row with one identifier is an IntegrityError.
unfoldable pub insert_utterance : Utterance → List UtteranceSegment → Exec Utterance
insert_utterance utt rows s =
    (if is_some (get utt.id s)
        then raise integrity_error
        else execute
            (λ t. record t { utterances = t.utterances ++ utt ∷ []; segments = t.segments ++ rows })
          >> pure utt)
      s

unfoldable pub submit : String → Submission → Exec Utterance
submit id sub = if refused_segments sub.spoken_segments then raise value_error else do
  now ← time
  utt ← gets (new_utterance id sub now)
  insert_utterance utt (rows_of id sub.spoken_segments)
