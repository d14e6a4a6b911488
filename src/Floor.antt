-- ===== src/Floor.antt =====
-- src/aitts/application/input_activity.py: the listener's voice takes the floor. The detector reduces
-- readings of the input device to interrupts; its object is a record that each reading replaces.
pub mod Edge
use ai_tts.Common.{
  ℕ, suc, zero, ◌+◌, ◌≤◌, ◌≡◌, refl, min, Bool, true, false, ◌&&◌, not, Option, none, some, List,
  [], ◌∷◌, ◌++◌, arith, Bool-cases, inl, inr, is_some, ltb, leb, ◌==◌, if◌then◌else◌,
}
use ai_tts.Store.{Result, ok, raised, value_error}

-- `InputInterruptDetector`; `hot` is none until a reading has been acted on.
pub record Detector : Type 0 where
  pub confirmations : ℕ
  pub hot : Option Bool
  pub streak : ℕ
  pub readable : Bool

abbrev pub default_confirmations : ℕ
default_confirmations = 2

unfoldable pub new_detector : ℕ → Result Detector
new_detector n =
    if ltb n 1
    then raised value_error
    else ok (record { confirmations = n; hot = none; streak = 0; readable = false })

abbrev pub reading_available : Detector → Bool
reading_available d = d.readable

abbrev pub is_cold : Option Bool → Bool
is_cold (some false) = true
is_cold _ = false

unfoldable pub input_is_hot : Detector → Bool
input_is_hot d = elim d.hot [ none ↦ false | some b ↦ b ]

-- A hot reading.
unfoldable pub observe_hot : Detector → Bool × Detector
observe_hot d =
    let streak = min (d.streak + 1) d.confirmations in
    if ltb streak d.confirmations
    then (false, record d { readable = true; streak = streak })
    else (is_cold d.hot, record d { readable = true; streak = streak; hot = some true })

unfoldable pub observe : Option Bool → Detector → Bool × Detector
observe none d = (false, record d { readable = false })
observe (some false) d = (false, record d { readable = true; hot = some false; streak = 0 })
observe (some true) d = observe_hot d

-- The detector after a sequence of readings, of which the last comes first.
abbrev pub replay : ℕ → List (Option Bool) → Detector
replay n [] = record { confirmations = n; hot = none; streak = 0; readable = false }
replay n (r ∷ rs) = (observe r (replay n rs)).1
