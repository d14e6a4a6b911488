-- ===== src/Store/Calls.antt =====
-- The methods of `Store` that write, as one type of calls, and what each of them does.
use ai_tts.Common.{ℕ, Bool, true, false, String, Option, List}
use ai_tts.Model.{State, SynthesisWork}
use ai_tts.Store.{Store}
use ai_tts.Store.Transition.{Changes, transition, transition_segment}
use ai_tts.Store.Submit.{Submission, submit}
use ai_tts.Store.Synthesis.{claim_for_synthesis}
use ai_tts.Store.Streaming.{
  start_streaming, discard_streaming_job, finish_synthesis, fail_synthesis,
}
use ai_tts.Store.Replay.{restart_segments, reset_segments_from, skip_utterance, suspend_playback}
use ai_tts.Store.Queue.{
  QueueName, move_to_head, clear_queue, clear_pending, reorder_pending, remove_history,
  clear_history, forget_terminal_audio, bind_legacy_engine,
}
use ai_tts.Store.Registry.{claim_voice, pin_voice, release_voice, set_setting}
use ai_tts.Store.Recover.{recover}

pub data Call : Type 0 where
  submits : String → Submission → Call
  moves : String → State → Changes → Call
  moves_segment : String → ℕ → State → Changes → Call
  claims : List String → String → Call
  starts_streaming : SynthesisWork → Call
  discards_job : String → Call
  finishes : SynthesisWork → String → Option ℕ → Call
  fails : SynthesisWork → String → Call
  restarts : String → Call
  resets_from : String → ℕ → Call
  skips : String → Option ℕ → ℕ → Option ℕ → Call
  suspends : String → Option ℕ → ℕ → Call
  heads : String → Call
  clears_queue : QueueName → Call
  clears_pending : Call
  reorders : List String → Call
  removes : String → Call
  clears_history : Call
  forgets_audio : String → Call
  binds_engine : String → Call
  claims_voice : String → String → Call
  pins_voice : String → String → Call
  releases_voice : String → Call
  sets : String → String → Call
  recovers : Call

-- The database after a call, whether it returned or raised.
unfoldable pub after : Store → Call → Store
after s (submits id sub) = (submit id sub s).1
after s (moves id to ch) = (transition id to ch s).1
after s (moves_segment id i to ch) = (transition_segment id i to ch s).1
after s (claims held unbound) = (claim_for_synthesis held unbound s).1
after s (starts_streaming w) = (start_streaming w s).1
after s (discards_job a) = (discard_streaming_job a s).1
after s (finishes w path d) = (finish_synthesis w path d s).1
after s (fails w error) = (fail_synthesis w error s).1
after s (restarts id) = (restart_segments id s).1
after s (resets_from id i) = (reset_segments_from id i s).1
after s (skips id i position total) = (skip_utterance id i position total s).1
after s (suspends id i position) = (suspend_playback id i position s).1
after s (heads id) = (move_to_head id s).1
after s (clears_queue q) = (clear_queue q s).1
after s clears_pending = (clear_pending s).1
after s (reorders ids) = (reorder_pending ids s).1
after s (removes id) = (remove_history id s).1
after s clears_history = (clear_history s).1
after s (forgets_audio path) = (forget_terminal_audio path s).1
after s (binds_engine name) = (bind_legacy_engine name s).1
after s (claims_voice source voice) = (claim_voice source voice s).1
after s (pins_voice source voice) = (pin_voice source voice s).1
after s (releases_voice source) = (release_voice source s).1
after s (sets key value) = (set_setting key value s).1
after s recovers = (recover s).1

-- The calls that delete history records.
abbrev pub deletes : Call → Bool
deletes (removes id) = true
deletes clears_history = true
deletes _ = false
