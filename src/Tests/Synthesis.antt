-- ===== src/Tests/Synthesis.antt =====
-- The theorems about synthesis at a pool with a local and a remote engine, over files that are a list
-- of paths.
use ai_tts.Common.{
  ◌⊎◌, ◌≡◌, refl, map, true, false, String, Option, none, some, List, [], ◌∷◌, text_eq, not, arith,
}
use ai_tts.Common.Table.{select_where}
use ai_tts.Model.{
  SynthesisWork, State, is_segment, can_transition, is_terminal, queued, synthesizing, ready,
  confidential,
}
use ai_tts.Store.{Error, ok}
use ai_tts.Store.Synthesis.{claim_for_synthesis, claim_candidates}
use ai_tts.Store.Reads.{get}
use ai_tts.Store.Transition.{transition, move, announce, write_utterances}
use ai_tts.Store.Streaming.{
  streaming_job, synthesis_work_is_active, finish_synthesis, publish_rendered,
}
use ai_tts.Synthesis.{
  gives, fails, AudioArtifactPort, Engine, Pool, Desk, synthesize_one, worker_turn, synthesize_at,
  render, finish, finish_stream, eligible_engine_names,
}
use ai_tts.Synthesis.Private.{synthesize_one-SameLocal}
use ai_tts.Synthesis.Settled.{TakenAway, synthesize_one-settled}
use ai_tts.Synthesis.Concluded.{Concluded}
use ai_tts.Tests.Data.{clip, database}

abbrev file_port : AudioArtifactPort (List String)
file_port = record {
  target = λ id d. (gives "candidate.wav", "candidate.wav" ∷ d);
  is_usable = λ path d. (gives true, d);
  publish = λ id path d.
      (gives "published.wav", "published.wav" ∷ select_where (λ p. not (text_eq p path)) d);
  discard = λ path d. (gives true, select_where (λ p. not (text_eq p path)) d);
}

abbrev kokoro : Engine (List String)
kokoro = record { is_local = true; synthesize = λ text voice speed path d. (gives 1500, d) }

abbrev cloud : Engine (List String)
cloud = record { is_local = false; synthesize = λ text voice speed path d. (fails "no network", d) }

abbrev spy : Engine (List String)
spy = record { is_local = false; synthesize = λ text voice speed path d. (gives 10, text ∷ d) }

abbrev pool : Pool (List String)
pool = record {
  engine_name = "kokoro";
  engines = ("cloud", cloud) ∷ ("kokoro", kokoro) ∷ [];
  prepare_engine = λ name d. (gives tt, d);
  artifacts = file_port;
}

abbrev message : Error → String
message e = "error"

abbrev desk : Desk (List String)
desk = record {
  store = database (clip "a" synthesizing 1 ∷ []) [];
  disk = [];
  streams = none;
  active_jobs = 0;
  parks = 0;
}

abbrev whole_clip : SynthesisWork
whole_clip = record {
  id = "a";
  utterance_id = "a";
  segment_index = none;
  text = "Hello.";
  voice = "bm_daniel";
  speed = 100;
  state = synthesizing;
  engine = none;
  sensitivity = confidential;
}

synthesize_one-settled_example :
    let r = synthesize_one pool message (λ d. d) whole_clip desk in
    (synthesis_work_is_active whole_clip r.1.store ≡ false)
    × (Concluded whole_clip r.1.store ⊎ TakenAway pool whole_clip (λ d. d) desk)
    × (is_segment whole_clip ≡ false → r.0 ≡ ok tt)
unfolding streaming_job
synthesize_one-settled_example =
    synthesize_one-settled pool message (λ d. d) whole_clip desk refl (λ x h. h)

synthesize_one-SameLocal_example :
    synthesize_one pool message (λ d. d) whole_clip desk
    ≡ synthesize_one
        (record pool { engines = ("cloud", spy) ∷ ("kokoro", kokoro) ∷ [] })
        message
        (λ d. d)
        whole_clip
        desk
synthesize_one-SameLocal_example =
    synthesize_one-SameLocal pool (("cloud", spy) ∷ ("kokoro", kokoro) ∷ []) message (λ d. d)
      whole_clip desk (refl, refl, (λ h. absurd (ground arith)), (refl, refl, (λ h. refl), tt)) refl
      refl

-- A turn of a worker: the queued clip becomes ready, with its published audio.
worker_turn_example :
    let d = record desk { store = database (clip "a" queued 1 ∷ []) [] } in
    map {B = State × Option String}
      (λ u. (u.state, u.audio_path))
      (worker_turn pool message (λ x. x) [] d).1.store.utterances
    ≡ (ready, some "published.wav") ∷ []
unfolding worker_turn claim_for_synthesis claim_candidates transition move announce write_utterances
    get synthesize_one synthesize_at eligible_engine_names render finish synthesis_work_is_active
    streaming_job finish_synthesis publish_rendered finish_stream can_transition is_terminal
worker_turn_example = refl
