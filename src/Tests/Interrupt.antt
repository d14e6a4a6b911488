-- ===== src/Tests/Interrupt.antt =====
-- The theorems about the watcher of the input device at readings of a listener who speaks twice.
use ai_tts.Common.{
  ◌≤◌, ◌+◌, if◌then◌else◌, arith, ◌≡◌, refl, true, false, Bool, Option, none, some, List, [], ◌∷◌,
}
use ai_tts.Playback.{Player}
use ai_tts.Interrupt.{InputInterruptPolicy, InputInterruptWatcher, run}
use ai_tts.Interrupt.ByHand.{by_hand-run}
use ai_tts.Interrupt.Spells.{interruptions, spells, interruptions-spells}
use ai_tts.Tests.Playback.{faster, held_player, speaking_player}

abbrev when_idle : InputInterruptPolicy
when_idle = record { input_interrupt_enabled = true; input_interrupt_resume = "when_idle" }

abbrev watching_over : Player → InputInterruptWatcher
watching_over p = record {
  detector = record { confirmations = 2; hot = none; streak = 0; readable = false };
  player = p;
  announced = [];
}

abbrev readings : List (Option Bool)
readings =
    some false ∷ some true ∷ some true ∷ none ∷ some true ∷ some false ∷ some true ∷ some true ∷ []

by_hand-run_example :
    ((run faster when_idle readings (watching_over held_player)).player ≡ held_player)
    × ((run faster when_idle readings (watching_over held_player)).announced ≡ [])
by_hand-run_example = by_hand-run faster when_idle readings (watching_over held_player) refl refl

interruptions-spells_example :
    interruptions (run faster when_idle readings (watching_over speaking_player))
    ≤ interruptions (watching_over speaking_player)
      + (if when_idle.input_interrupt_enabled then spells 2 readings [] else 0)
interruptions-spells_example =
    interruptions-spells faster when_idle 2 readings [] (watching_over speaking_player)
      (omega arith) refl

-- The listener speaks twice.
spells_example : spells 2 readings [] ≡ 2
spells_example = refl
