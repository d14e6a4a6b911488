-- ===== src/Interrupt/Spells.antt =====
-- How often the watcher of src/aitts/input_interrupt.py interrupts, told from the readings alone.
use ai_tts.Common.{
  ℕ, suc, ◌+◌, ◌≤◌, ◌≡◌, refl, ◌∙◌, ap, Bool, true, false, ◌&&◌, Option, none, List, [], ◌∷◌, ◌++◌,
  arith, Bool-cases, inl, inr, if◌then◌else◌, if_either,
}
use ai_tts.Common.Table.{count_where}
use ai_tts.Store.{Result, ok, raised}
use ai_tts.Floor.{observe, replay}
use ai_tts.Floor.Edge.{edge, observe-edge}
use ai_tts.Playback.{Player}
use ai_tts.Playback.Control.{interrupt, resume}
use ai_tts.Interrupt.{
  InputInterruptPolicy, InputInterruptWatcher, Announcement, playback_interrupted, playback_resumed,
  announce_interrupted, interrupt_for_listener, announce_resumed, resume_if_armed, is_quiet, poll,
  turn, run,
}

abbrev is_interruption : Announcement → Bool
is_interruption (playback_interrupted armed) = true
is_interruption playback_resumed = false

abbrev pub interruptions : InputInterruptWatcher → ℕ
interruptions l = count_where is_interruption l.announced

-- The readings, the first of them first, at which the floor changes hands; `seen` came before, and
-- each poll is preceded by a turn without an answer.
abbrev pub spells : ℕ → List (Option Bool) → List (Option Bool) → ℕ
spells n [] seen = 0
spells n (r ∷ rs) seen =
    let rest = spells n rs (r ∷ none ∷ seen) in if edge n (r ∷ none ∷ seen) then suc rest else rest

count-append :
    (xs ys : List Announcement)
    → count_where is_interruption (xs ++ ys)
      ≡ count_where is_interruption xs + count_where is_interruption ys
count-append [] ys = omega arith
count-append (x ∷ xs) ys = ground (arith, count-append xs ys)

-- At most `k` more interruptions are announced, and the detector is left alone.
record Adds (k : ℕ) (l m : InputInterruptWatcher) : Type 0 where
  few : interruptions m ≤ interruptions l + k
  detector_same : m.detector ≡ l.detector

announce_interrupted-Adds :
    (policy : InputInterruptPolicy) (r : Result Bool × Player) (l : InputInterruptWatcher)
    → Adds 1 l (announce_interrupted policy r l)
unfolding announce_interrupted
announce_interrupted-Adds policy (ok true, p) l = record {
  few = rw (count-append l.announced _) (omega arith);
  detector_same = refl;
}
announce_interrupted-Adds policy (ok false, p) l = record {
  few = omega arith;
  detector_same = refl;
}
announce_interrupted-Adds policy (raised e, p) l = record {
  few = omega arith;
  detector_same = refl;
}

announce_resumed-Adds :
    (r : Result (Unit {0}) × Player) (l : InputInterruptWatcher) → Adds 0 l (announce_resumed r l)
unfolding announce_resumed
announce_resumed-Adds (ok x, p) l = record {
  few = rw (count-append l.announced _) (omega arith);
  detector_same = refl;
}
announce_resumed-Adds (raised e, p) l = record { few = omega arith; detector_same = refl }

none-Adds : (l : InputInterruptWatcher) → Adds 0 l l
none-Adds l = record { few = omega arith; detector_same = refl }

resume_if_armed-Adds : (l : InputInterruptWatcher) → Adds 0 l (resume_if_armed l)
unfolding resume_if_armed
resume_if_armed-Adds l =
    if_either (Adds 0 l) l.player.resume_when_input_idle_armed _ _
      (λ h. announce_resumed-Adds (resume l.player) l) (λ h. none-Adds l)

module _ (meanwhile : Player → Player) (policy : InputInterruptPolicy) where
  -- The interruptions that a reading may bring, by what the detector says of it.
  abbrev allowed : Bool → ℕ
  allowed fires = if fires && policy.input_interrupt_enabled then 1 else 0

  turn-Adds :
      (r : Option Bool) (l : InputInterruptWatcher)
      → let d = observe r (observe none l.detector).1 in
        Adds (allowed d.0) (record l { detector = d.1 }) (turn meanwhile policy r l)
  unfolding turn poll interrupt_for_listener
  turn-Adds r l =
      let d = observe r (observe none l.detector).1 in
      let seen = record l { detector = d.1 } in
      elim (Bool-cases (d.0 && policy.input_interrupt_enabled)) [
        | inl fires ↦
            simp fires (announce_interrupted-Adds policy (interrupt meanwhile l.player) seen)
        | inr rests ↦ simp rests (
            if_either (Adds 0 seen) (is_quiet r) _ _ (λ q. resume_if_armed-Adds seen)
              (λ q. none-Adds seen))
      ]

  -- The watcher interrupts at most once for each spell of capturing that begins while it watches,
  -- which is `n` hot readings in a row after a cold one, unanswered ones aside; and never, if the
  -- policy does not enable it. The conditions are that at least one confirmation is asked for and that
  -- the detector has seen some readings before.
  pub interruptions-spells :
      (n : ℕ) (rs seen : List (Option Bool)) (l : InputInterruptWatcher)
      → 1 ≤ n
      → l.detector ≡ replay n seen
      → interruptions (run meanwhile policy rs l)
        ≤ interruptions l + (if policy.input_interrupt_enabled then spells n rs seen else 0)
  unfolding run
  interruptions-spells n [] seen l h e = omega arith
  interruptions-spells n (r ∷ rs) seen l h e =
      let next = turn meanwhile policy r l in
      let one = turn-Adds r l in
      let fires = ap (λ d. (observe r (observe none d).1).0) e ∙ observe-edge n r (none ∷ seen) h in
      let after = one.detector_same ∙ ap (λ d. (observe r (observe none d).1).1) e in
      let rest = interruptions-spells n rs (r ∷ none ∷ seen) next h after in
      let few = rw fires at one.few in ground arith
