-- ===== src/Playback/Step.antt =====
-- What may happen to the controller of src/aitts/playback.py, one step at a time: a turn of the plan, a
-- control of the listener, the end of a clip and the watcher's answer to it, and the work of the rest of
-- the daemon on the store and on the live sources.
use ai_tts.Common.{ℕ, String, List, [], ◌∷◌, if◌then◌else◌}
use ai_tts.Store.{Store}
use ai_tts.Playback.{
  Player, Watcher, absent, watching, watching_outro, finish_current, fail_current, advance_to,
}
use ai_tts.Playback.Plan.{plan, clear_preempted}
use ai_tts.Playback.Watch.{watch, watch_outro}
use ai_tts.Playback.Control.{
  set_playback_rate, pause, interrupt, arm_resume_when_input_idle, resume,
}
use ai_tts.Playback.Transport.{
  skip, next_segment, previous_segment, restart_current, retire_playback, shutdown,
}

pub data Step : Type 0 where
  plans pauses interrupts arms resumes skips nexts previous restarts clears stops shuts_down : Step
  sets_rate : ℕ → Step
  ends answers : Step
  fails : String → Step
  advances : ℕ → Step
  stores : (Store → Store) → Step
  streams : List String → Step

-- The task that waited for the sink goes on.
unfoldable pub answer : Watcher → Player → Player
answer absent p = p
answer watching p = (watch p).1
answer watching_outro p = watch_outro p

-- A step is as its `meanwhile` is; a call that raises leaves what it has written.
unfoldable pub after : (Player → Player) → Step → Player → Player
after w plans p = (plan w p).1
after w pauses p = (pause w p).1
after w interrupts p = (interrupt w p).1
after w arms p = arm_resume_when_input_idle p
after w resumes p = (resume p).1
after w skips p = (skip w p).1
after w nexts p = (next_segment w p).1
after w previous p = (previous_segment w p).1
after w restarts p = (restart_current w p).1
after w clears p = (clear_preempted p).1
after w stops p = (retire_playback w p).1
after w shuts_down p = (shutdown w p).1
after w (sets_rate rate) p = (set_playback_rate rate p).1
after w ends p = record p { sink = finish_current p.sink }
after w answers p = if p.sink.active then p else answer p.watcher p
after w (fails message) p = record p { sink = fail_current message p.sink }
after w (advances position) p = record p { sink = advance_to position p.sink }
after w (stores f) p = record p { store = f p.store }
after w (streams live) p = record p { streams = live }

unfoldable pub run : (Player → Player) → List Step → Player → Player
run w [] p = p
run w (s ∷ ss) p = run w ss (after w s p)
