-- ===== src/Tests/Data.antt =====
-- Databases to run the methods on.
use ai_tts.Common.{ℕ, false, String, none, some, List, [], ◌∷◌}
use ai_tts.Common.Int.{pos}
use ai_tts.Model.{
  Utterance, UtteranceSegment, State, queued, played, ready, playing, confidential, normal,
}
use ai_tts.Store.{Store}
use ai_tts.Store.Submit.{Submission}

abbrev pub clip : String → State → ℕ → Utterance
clip id st key = record {
  id = id;
  text = "Hello.";
  voice = "bm_daniel";
  speed = 100;
  sensitivity = confidential;
  priority = normal;
  state = st;
  order_key = pos key;
  submitted_at = key;
  state_changed_at = key;
  source = some "agent";
  error = none;
  duration_ms = none;
  played_ms = none;
  audio_path = none;
  generation_artifact_id = none;
  replay_of = none;
  engine = none;
}

abbrev pub segment : String → ℕ → State → UtteranceSegment
segment id i st = record {
  utterance_id = id;
  index = i;
  text = "Part.";
  state = st;
  error = none;
  duration_ms = some 1000;
  played_ms = none;
  audio_path = none;
  generation_artifact_id = none;
}

abbrev pub database : List Utterance → List UtteranceSegment → Store
database us gs = record {
  utterances = us;
  segments = gs;
  streaming_jobs = [];
  settings = [];
  voice_assignments = [];
  clock = λ n. n;
  readings = 0;
  events = [];
}

abbrev pub three : Store
three =
    database (clip "a" played 1 ∷ clip "b" playing 2 ∷ clip "c" queued 3 ∷ [])
      (segment "b" 0 playing ∷ segment "b" 1 ready ∷ segment "b" 2 queued ∷ [])

abbrev pub two_parts : Submission
two_parts = record {
  text = "One. Two.";
  voice = "af_bella";
  speed = 120;
  sensitivity = confidential;
  priority = normal;
  source = none;
  replay_of = none;
  engine = none;
  at_head = false;
  spoken_segments = some ("One." ∷ "Two." ∷ []);
}
