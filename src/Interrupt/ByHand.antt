-- ===== src/Interrupt/ByHand.antt =====
-- What the watcher of src/aitts/input_interrupt.py leaves to the listener, and what it keeps.
use ai_tts.Common.{
  ◌≡◌, refl, ap, ◌∙◌, Bool, true, false, ◌&&◌, Option, none, List, [], ◌∷◌, if_either,
}
use ai_tts.Floor.{observe}
use ai_tts.Playback.{Player}
use ai_tts.Playback.Control.{interrupt}
use ai_tts.Interrupt.{
  InputInterruptPolicy, InputInterruptWatcher, announce_interrupted, interrupt_for_listener,
  resume_if_armed, is_quiet, poll, turn, run,
}

-- Nothing has been done to playback, and nothing announced.
record Leaves (l m : InputInterruptWatcher) : Type 0 where
  player_same : m.player ≡ l.player
  announced_same : m.announced ≡ l.announced

alike : (l seen m : InputInterruptWatcher) → Leaves seen m → Leaves l seen → Leaves l m
alike l seen m h k = record {
  player_same = h.player_same ∙ k.player_same;
  announced_same = h.announced_same ∙ k.announced_same;
}

module _ (meanwhile : Player → Player) (policy : InputInterruptPolicy) where
  interrupt-Leaves :
      (l : InputInterruptWatcher)
      → l.player.held ≡ true
      → Leaves l (interrupt_for_listener meanwhile policy l)
  unfolding interrupt_for_listener interrupt announce_interrupted
  interrupt-Leaves l h = simp h (record { player_same = refl; announced_same = refl })

  resume-Leaves :
      (l : InputInterruptWatcher)
      → l.player.resume_when_input_idle_armed ≡ false
      → Leaves l (resume_if_armed l)
  unfolding resume_if_armed
  resume-Leaves l h = simp h (record { player_same = refl; announced_same = refl })

  turn-Leaves :
      (r : Option Bool) (l : InputInterruptWatcher)
      → l.player.held ≡ true
      → l.player.resume_when_input_idle_armed ≡ false
      → Leaves l (turn meanwhile policy r l)
  unfolding turn poll
  turn-Leaves r l h a =
      let idle = record l { detector = (observe none l.detector).1 } in
      let seen = record l { detector = (observe r idle.detector).1 } in
      if_either (Leaves l) ((observe r idle.detector).0 && policy.input_interrupt_enabled) _ _
        (λ e.
          alike l seen _ (interrupt-Leaves seen h)
            (record { player_same = refl; announced_same = refl }))
        (λ e.
          if_either (Leaves l) (is_quiet r) _ _
            (λ q.
              alike l seen _ (resume-Leaves seen a)
                (record { player_same = refl; announced_same = refl }))
            (λ q. record { player_same = refl; announced_same = refl }))

  -- A hold that the listener has set by hand, with no resume armed, is left as it is, whatever the
  -- microphone reads: playback stays as it was, and nothing is announced.
  pub by_hand-run :
      (rs : List (Option Bool)) (l : InputInterruptWatcher)
      → l.player.held ≡ true
      → l.player.resume_when_input_idle_armed ≡ false
      → ((run meanwhile policy rs l).player ≡ l.player)
        × ((run meanwhile policy rs l).announced ≡ l.announced)
  unfolding run
  by_hand-run [] l h a = (refl, refl)
  by_hand-run (r ∷ rs) l h a =
      let one = turn-Leaves r l h a in
      let next = turn meanwhile policy r l in
      let rest =
        by_hand-run rs next (ap (λ (p : Player). p.held) one.player_same ∙ h)
          (ap (λ (p : Player). p.resume_when_input_idle_armed) one.player_same ∙ a) in
      (rest.0 ∙ one.player_same, rest.1 ∙ one.announced_same)
