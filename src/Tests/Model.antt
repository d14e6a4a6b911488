-- ===== src/Tests/Model.antt =====
-- The theorems about the state machine at concrete states.
use ai_tts.Common.{◌≡◌, true, false, ◌↔◌}
use ai_tts.Model.{State, failed, state_in, terminal, can_transition}
use ai_tts.Model.Machine.{terminal_iff_no_transition}

terminal_iff_no_transition_example :
    (state_in failed terminal ≡ true) ↔ ((t : State) → can_transition failed t ≡ false)
terminal_iff_no_transition_example = terminal_iff_no_transition failed
