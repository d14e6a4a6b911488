-- ===== src/Floor/Edge.antt =====
-- The readings at which the detector of src/aitts/application/input_activity.py fires, told from the
-- readings alone. Sequences of readings have the last reading first.
use ai_tts.Common.{
  ℕ, suc, ◌+◌, ◌≤◌, ◌≡◌, refl, min, Bool, true, false, ◌&&◌, Option, none, some, List, [], ◌∷◌,
  arith, Bool-cases, inl, inr, ltb, leb, ◌==◌, if◌then◌else◌,
}
use ai_tts.Floor.{Detector, observe, observe_hot, replay}

-- How many hot readings came last, unanswered ones aside.
abbrev pub hot_readings : List (Option Bool) → ℕ
hot_readings [] = 0
hot_readings (none ∷ rs) = hot_readings rs
hot_readings (some false ∷ rs) = 0
hot_readings (some true ∷ rs) = suc (hot_readings rs)

abbrev pub seen_cold : List (Option Bool) → Bool
seen_cold [] = false
seen_cold (none ∷ rs) = seen_cold rs
seen_cold (some false ∷ rs) = true
seen_cold (some true ∷ rs) = seen_cold rs

-- The floor changes hands: the last reading is the `n`-th hot one in a row after a cold one.
abbrev pub edge : ℕ → List (Option Bool) → Bool
edge n (some true ∷ rs) = suc (hot_readings rs) == n && seen_cold rs
edge n _ = false

abbrev hot_after : ℕ → ℕ → Bool → Option Bool
hot_after n k cold = if leb n k then some true else if cold then some false else none

record Agrees (n : ℕ) (d : Detector) (rs : List (Option Bool)) : Type 0 where
  confirmations_ok : d.confirmations ≡ n
  streak_ok : d.streak ≡ min (hot_readings rs) n
  hot_ok : d.hot ≡ hot_after n (hot_readings rs) (seen_cold rs)

observe-Agrees :
    (n : ℕ) (d : Detector) (r : Option Bool) (rs : List (Option Bool))
    → 1 ≤ n
    → Agrees n d rs
    → Agrees n (observe r d).1 (r ∷ rs)
unfolding observe observe_hot
observe-Agrees n d none rs h a = record {
  confirmations_ok = a.confirmations_ok;
  streak_ok = a.streak_ok;
  hot_ok = a.hot_ok;
}
observe-Agrees n d (some false) rs h a = record {
  confirmations_ok = a.confirmations_ok;
  streak_ok = omega arith;
  hot_ok = ground arith;
}
observe-Agrees n d (some true) rs h a =
    let t : min (d.streak + 1) d.confirmations ≡ min (suc (hot_readings rs)) n =
      omega (arith, a.streak_ok, a.confirmations_ok) in
    elim (Bool-cases (ltb (suc (hot_readings rs)) n)) [
      | inl few ↦
          let m : min (suc (hot_readings rs)) n ≡ suc (hot_readings rs) = ground arith in
          rw (t, a.confirmations_ok, m, few)
            (record {
              confirmations_ok = refl;
              streak_ok = omega arith;
              hot_ok = ground (arith, a.hot_ok);
            })
      | inr many ↦
          let m : min (suc (hot_readings rs)) n ≡ n = ground arith in
          let full : ltb n n ≡ false = ground arith in
          rw (t, a.confirmations_ok, m, full)
            (record { confirmations_ok = refl; streak_ok = omega arith; hot_ok = ground arith })
    ]

replay-Agrees : (n : ℕ) (rs : List (Option Bool)) → 1 ≤ n → Agrees n (replay n rs) rs
replay-Agrees n [] h = record {
  confirmations_ok = refl;
  streak_ok = omega arith;
  hot_ok = ground arith;
}
replay-Agrees n (r ∷ rs) h = observe-Agrees n (replay n rs) r rs h (replay-Agrees n rs h)

Agrees-edge :
    (n : ℕ) (d : Detector) (r : Option Bool) (rs : List (Option Bool))
    → 1 ≤ n
    → Agrees n d rs
    → (observe r d).0 ≡ edge n (r ∷ rs)
unfolding observe observe_hot
Agrees-edge n d none rs h a = refl
Agrees-edge n d (some false) rs h a = refl
Agrees-edge n d (some true) rs h a =
    let t : min (d.streak + 1) d.confirmations ≡ min (suc (hot_readings rs)) n =
      omega (arith, a.streak_ok, a.confirmations_ok) in
    elim (Bool-cases (ltb (suc (hot_readings rs)) n)) [
      | inl few ↦
          let m : min (suc (hot_readings rs)) n ≡ suc (hot_readings rs) = ground arith in
          rw (t, a.confirmations_ok, m, few) (ground arith)
      | inr many ↦
          let m : min (suc (hot_readings rs)) n ≡ n = ground arith in
          let full : ltb n n ≡ false = ground arith in
          rw (t, a.confirmations_ok, m, full, a.hot_ok) (ground arith)
    ]

-- After any readings, the next reading is an interrupt exactly if it is hot, the hot readings since
-- the last cold one, unanswered readings aside, are with it as many as the detector asks for, and a
-- cold reading has been seen: one interrupt for each spell of capturing, none for a spell that
-- began before the first cold reading. At least one confirmation is asked for.
pub observe-edge :
    (n : ℕ) (r : Option Bool) (rs : List (Option Bool))
    → 1 ≤ n
    → (observe r (replay n rs)).0 ≡ edge n (r ∷ rs)
observe-edge n r rs h = Agrees-edge n (replay n rs) r rs h (replay-Agrees n rs h)
