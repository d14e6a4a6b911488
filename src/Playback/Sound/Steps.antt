-- ===== src/Playback/Sound/Steps.antt =====
-- Whatever happens to the controller of src/aitts/playback.py, no clip is started over another.
use ai_tts.Common.{◌≡◌, true, false, String, List, [], ◌∷◌, arith, if_either}
use ai_tts.Playback.{
  Player, Watcher, absent, watching, watching_outro, finish_current, fail_current, advance_to,
}
use ai_tts.Playback.Control.{pause, arm_resume_when_input_idle}
use ai_tts.Playback.Step.{
  Step, plans, pauses, interrupts, arms, resumes, skips, nexts, previous, restarts, clears, stops,
  shuts_down, sets_rate, ends, answers, fails, advances, stores, streams, answer, after, run,
}
use ai_tts.Playback.Sound.{IsSound}
use ai_tts.Playback.Sound.Device.{IsCalm}
use ai_tts.Playback.Sound.Plan.{plan-Sound}
use ai_tts.Playback.Sound.Control.{
  set_playback_rate-Sound, hold-Sound, interrupt-Sound, resume-Sound,
}
use ai_tts.Playback.Sound.Transport.{
  skip-Sound, next_segment-Sound, previous_segment-Sound, restart_current-Sound,
  retire_playback-Sound, shutdown-Sound,
}
use ai_tts.Playback.Sound.Watch.{watch-IsSound, watch_outro-IsSound, clear_preempted-Sound}

answer-IsSound :
    (w : Watcher) (p : Player) → IsSound p → p.sink.active ≡ false → IsSound (answer w p)
unfolding answer
answer-IsSound absent p v e = v
answer-IsSound watching p v e = watch-IsSound p v e
answer-IsSound watching_outro p v e = watch_outro-IsSound p v e

ends-IsSound : (p : Player) → IsSound p → IsSound (record p { sink = finish_current p.sink })
unfolding IsSound finish_current
ends-IsSound p v =
    if_either (λ k. IsSound (record p { sink = k })) p.sink.active _ _
      (λ h. (λ a. absurd (ground arith), v.1, v.2)) (λ h. v)

fails-IsSound :
    (message : String) (p : Player)
    → IsSound p
    → IsSound (record p { sink = fail_current message p.sink })
unfolding IsSound fail_current
fails-IsSound message p v =
    if_either (λ k. IsSound (record p { sink = k })) p.sink.active _ _
      (λ h. (λ a. absurd (ground arith), v.1, v.2)) (λ h. v)

module _ (w : Player → Player) (calm : IsCalm w) where
  -- Every step keeps an active sink marked and the count of overlaps at 0, and lets the closing cue play
  -- only where no interrupted clip waits to return, if the tasks that run while the device is being
  -- released do so too, start no clip on a marked device and leave the current clip alone.
  pub after-IsSound : (s : Step) (p : Player) → IsSound p → IsSound (after w s p)
  unfolding after pause IsSound arm_resume_when_input_idle advance_to
  after-IsSound plans p v = (plan-Sound w calm).at p v
  after-IsSound pauses p v = (hold-Sound w calm true).at p v
  after-IsSound interrupts p v = (interrupt-Sound w calm).at p v
  after-IsSound arms p v = v
  after-IsSound resumes p v = resume-Sound.at p v
  after-IsSound skips p v = (skip-Sound w calm).at p v
  after-IsSound nexts p v = (next_segment-Sound w calm).at p v
  after-IsSound previous p v = (previous_segment-Sound w calm).at p v
  after-IsSound restarts p v = (restart_current-Sound w calm).at p v
  after-IsSound clears p v = clear_preempted-Sound.at p v
  after-IsSound stops p v = (retire_playback-Sound w calm).at p v
  after-IsSound shuts_down p v = (shutdown-Sound w calm).at p v
  after-IsSound (sets_rate rate) p v = (set_playback_rate-Sound rate).at p v
  after-IsSound ends p v = ends-IsSound p v
  after-IsSound answers p v =
      if_either IsSound p.sink.active _ _ (λ h. v) (λ h. answer-IsSound p.watcher p v h)
  after-IsSound (fails message) p v = fails-IsSound message p v
  after-IsSound (advances position) p v = v
  after-IsSound (stores f) p v = v
  after-IsSound (streams live) p v = v

  run-IsSound : (ss : List Step) (p : Player) → IsSound p → IsSound (run w ss p)
  unfolding run
  run-IsSound [] p v = v
  run-IsSound (s ∷ ss) p v = run-IsSound ss (after w s p) (after-IsSound s p v)

  -- From a state in which an active sink is marked, no overlap has been counted, and no interrupted clip
  -- waits while the closing cue plays, no sequence of steps starts a clip while another one is active.
  pub overlaps-run : (ss : List Step) (p : Player) → IsSound p → (run w ss p).sink.overlaps ≡ 0
  unfolding IsSound
  overlaps-run ss p v = (run-IsSound ss p v).1
