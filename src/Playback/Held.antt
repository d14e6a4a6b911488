-- ===== src/Playback/Held.antt =====
-- What the hold of src/aitts/playback.py promises.
use ai_tts.Common.{
  ◌≡◌, refl, true, not, ◌&&◌, Option, none, some, arith, is_none, is_some, if_either,
}
use ai_tts.Model.{Utterance, playing, state_is, is_terminal}
use ai_tts.Playback.{Player, current}
use ai_tts.Playback.Act.{Play, ◌>>◌}
use ai_tts.Playback.Device.{clear_current}
use ai_tts.Playback.Plan.{plan_preemption, go_idle, continue_found, plan_rest, plan}

-- The sink and the store are as they were.
abbrev Rests : Player → Play (Unit {0}) → Type 0
Rests p m = ((m p).1.sink ≡ p.sink) × ((m p).1.store ≡ p.store)

continue_found-Rests :
    (u : Option Utterance) (p : Player) → p.held ≡ true → Rests p (continue_found u)
unfolding continue_found clear_current go_idle
continue_found-Rests none p h = (refl, refl)
continue_found-Rests (some u) p h =
    if_either (Rests p) (is_terminal u) _ _ (λ e. (refl, refl))
      (λ e.
        if_either (Rests p) (not p.held && state_is u.state playing) _ _
          (λ k. absurd (ground (arith, k, h))) (λ k. (refl, refl)))

plan_rest-Rests : (p : Player) → p.held ≡ true → Rests p plan_rest
unfolding plan_rest go_idle
plan_rest-Rests p h =
    if_either (Rests p) (is_none p.current_id && not p.held && not p.sink_active) _ _
      (λ k. absurd (ground (arith, k, h)))
      (λ k.
        if_either (Rests p) (is_some p.current_id && not p.sink_active) _ _
          (λ l. continue_found-Rests (current p) p h) (λ l. (refl, refl)))

-- While playback is held, a turn of the plan leaves the sink and the store as they were.
pub held-plan :
    (meanwhile : Player → Player) (p : Player)
    → p.held ≡ true
    → ((plan meanwhile p).1.sink ≡ p.sink) × ((plan meanwhile p).1.store ≡ p.store)
unfolding plan plan_preemption
held-plan meanwhile p h =
    if_either (λ (m : Play (Unit {0})). Rests p (m >> plan_rest)) p.held _ _
      (λ k. plan_rest-Rests p h) (λ k. absurd (ground (arith, k, h)))
