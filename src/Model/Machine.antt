-- ===== src/Model/Machine.antt =====
-- The state machine of src/aitts/model.py as a relation, and what a life of an utterance looks like.
use ai_tts.Common.{ℕ, ◌≤◌, ◌≡◌, refl, true, false, arith, ◌↔◌}
use ai_tts.Model.{
  State, submitted, queued, synthesizing, ready, playing, paused, played, skipped, cancelled,
  failed, state_in, terminal, can_transition,
}

-- A state is terminal exactly if the transition table permits no transition out of it.
pub terminal_iff_no_transition :
    (s : State) → (state_in s terminal ≡ true) ↔ ((t : State) → can_transition s t ≡ false)
unfolding can_transition
terminal_iff_no_transition submitted = (λ h. ground arith, λ h. ground (arith, h queued))
terminal_iff_no_transition queued = (λ h. ground arith, λ h. ground (arith, h synthesizing))
terminal_iff_no_transition synthesizing = (λ h. ground arith, λ h. ground (arith, h ready))
terminal_iff_no_transition ready = (λ h. ground arith, λ h. ground (arith, h playing))
terminal_iff_no_transition playing = (λ h. ground arith, λ h. ground (arith, h paused))
terminal_iff_no_transition paused = (λ h. ground arith, λ h. ground (arith, h playing))
terminal_iff_no_transition played = (λ h t. refl, λ h. refl)
terminal_iff_no_transition skipped = (λ h t. refl, λ h. refl)
terminal_iff_no_transition cancelled = (λ h t. refl, λ h. refl)
terminal_iff_no_transition failed = (λ h t. refl, λ h. refl)

-- A sequence of permitted transitions.
pub data Reach (s : State) : State → Type 0 where
  here : Reach s s
  next : (t u : State) → Reach s t → can_transition t u ≡ true → Reach s u

-- The stages of a life: waiting for audio, audio ready, being heard, closed.
abbrev pub rank : State → ℕ
rank submitted = 0
rank queued = 1
rank synthesizing = 1
rank ready = 2
rank playing = 3
rank paused = 3
rank _ = 4

step-rank : (t u : State) → can_transition t u ≡ true → rank t ≤ rank u
unfolding can_transition
step-rank t u h = ground arith

-- Along any sequence of permitted transitions the stage of an utterance never falls, where the
-- stages are: submitted; queued or synthesizing; ready; playing or paused; terminal.
pub Reach-rank : {s t : State} → Reach s t → rank s ≤ rank t
Reach-rank here = omega arith
Reach-rank (next t u r h) = omega (arith, Reach-rank r, step-rank t u h)
