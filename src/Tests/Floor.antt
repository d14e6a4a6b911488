-- ===== src/Tests/Floor.antt =====
-- The theorem about interrupts at concrete readings: a cold one, a hot one, none, and a hot one.
use ai_tts.Common.{◌≡◌, Bool, true, false, Option, none, some, List, [], ◌∷◌, arith}
use ai_tts.Floor.{observe, replay}
use ai_tts.Floor.Edge.{edge, observe-edge}

abbrev readings : List (Option Bool)
readings = none ∷ some true ∷ some false ∷ []

observe-edge_example : (observe (some true) (replay 2 readings)).0 ≡ edge 2 (some true ∷ readings)
observe-edge_example = observe-edge 2 (some true) readings (omega arith)
