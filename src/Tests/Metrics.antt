-- ===== src/Tests/Metrics.antt =====
-- The theorems about the recorder at concrete observations: one utterance played, one still queued.
use ai_tts.Common.{◌≡◌, refl, true, List, [], ◌∷◌, arith}
use ai_tts.Model.{queued, synthesizing, ready, played}
use ai_tts.Metrics.{
  append_sample, thousandfold, observe, observe_queued, observe_settled, forget, is_tracked,
}
use ai_tts.Metrics.Settled.{Seen, recorded, unsettled, is_tracked-unsettled}
use ai_tts.Metrics.Waits.{observe-synthesis_wait}
use ai_tts.Common.Int.{pos, ◌-ℤ◌}
use ai_tts.Tests.Data.{clip}

abbrev two_seen : List Seen
two_seen =
    record { now = 9; utterance = clip "a" played 1 }
    ∷ record { now = 5; utterance = clip "b" queued 2 }
    ∷ []

is_tracked-unsettled_example : unsettled "b" two_seen ≡ true
unfolding is_tracked observe observe_queued observe_settled forget
is_tracked-unsettled_example = is_tracked-unsettled two_seen "b" refl

abbrev waiting : List Seen
waiting =
    record { now = 7; utterance = clip "a" synthesizing 1 }
    ∷ record { now = 5; utterance = clip "b" queued 2 }
    ∷ record { now = 4; utterance = clip "a" queued 1 }
    ∷ []

observe-synthesis_wait_example :
    let before = recorded waiting in
    let after = observe 9 (clip "a" ready 1) before in
    (after.synthesis_wait
      ≡ append_sample
          (thousandfold (pos 9 -ℤ pos (clip "a" ready 1).submitted_at))
          before.synthesis_wait)
    × (after.playback_wait ≡ before.playback_wait)
observe-synthesis_wait_example =
    observe-synthesis_wait waiting 9 (clip "a" ready 1) refl
      ((λ h. refl), ((λ h. absurd (ground arith)), ((λ h. refl), tt)))
