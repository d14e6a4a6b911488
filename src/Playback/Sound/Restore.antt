-- ===== src/Playback/Sound/Restore.antt =====
-- The return of interrupted clips in src/aitts/playback.py keeps the device sound and leaves none waiting.
use ai_tts.Common.{
  ℕ, ◌≡◌, refl, Bool, true, false, Option, none, some, List, [], ◌∷◌, String, arith, is_none,
  Bool-cases, inl, inr, if_either,
}
use ai_tts.Model.{Utterance, paused, state_is}
use ai_tts.Store.{Result, ok, raised}
use ai_tts.Store.Reads.{get}
use ai_tts.Playback.{Player}
use ai_tts.Playback.Act.{Play, modify, continue}
use ai_tts.Playback.Device.{start_saved, clear_current}
use ai_tts.Playback.Plan.{
  push_suspended, return_to, restore_next, restore_from, restore_preempted, restore_if_free,
}
use ai_tts.Playback.Sound.{IsFree, IsSound, free-IsSound, unmarked-IsFree, Holds, modify-Free}
use ai_tts.Playback.Sound.Device.{Taken, Takes, bind-Takes, taking_then, start_saved-Takes}

pub clear_current-Free : Holds IsFree IsFree (modify clear_current)
unfolding clear_current
clear_current-Free = modify-Free clear_current (λ p. refl) (λ p. refl) (λ p. refl)

pub push-Free :
    (id : String) (i : Option ℕ) (b : Bool) → Holds IsFree IsFree (modify (push_suspended id i b))
unfolding push_suspended
push-Free id i b = modify-Free (push_suspended id i b) (λ p. refl) (λ p. refl) (λ p. refl)

-- The device is sound, and once nothing holds, restoring has left no clip waiting without another one.
abbrev pub Planned : Result (Unit {0}) × Player → Type 0
Planned (ok x, q) = IsSound q × (q.held ≡ false → q.current_id ≡ none → q.preempted_stack ≡ [])
Planned (raised e, q) = IsSound q

pub Taken-Planned : (r : Result (Unit {0}) × Player) → Taken r → Planned r
Taken-Planned (ok x, q) (h, e) = (h, λ free c. absurd (ground (arith, e, c)))
Taken-Planned (raised e, q) h = h

pub Planned-IsSound : (r : Result (Unit {0}) × Player) → Planned r → IsSound r.1
Planned-IsSound (ok x, q) h = h.0
Planned-IsSound (raised e, q) h = h

pub return_to-Takes : (u : Utterance) (i : Option ℕ) → Takes (return_to u i)
unfolding IsFree IsSound return_to
return_to-Takes u i =
    bind-Takes (modify (λ p. record p { speaker_returning = true })) _ (record { at = λ p v. v })
      (λ t.
        taking_then (start_saved u i) (λ p. record p { speaker_returning = false }) (λ p v. v)
          (λ p. refl) (start_saved-Takes u i))

pub restore_next-Planned :
    (u : Option Utterance) (i : Option ℕ) (rest : Play (Unit {0})) (q : Player)
    → IsFree q
    → Planned (rest q)
    → Planned (restore_next u i rest q)
unfolding restore_next
restore_next-Planned none i rest q v h = h
restore_next-Planned (some u) i rest q v h =
    if_either (λ (m : Play (Unit {0})). Planned (m q)) (state_is u.state paused) _ _
      (λ e. Taken-Planned (return_to u i q) ((return_to-Takes u i).at q v)) (λ e. h)

pub restore_from-Planned :
    (saved : List (String × Option ℕ)) (p : Player)
    → IsFree p
    → p.preempted_stack ≡ saved
    → Planned (restore_from saved p)
unfolding IsFree restore_from
restore_from-Planned [] p v e = (free-IsSound p v, λ free c. e)
restore_from-Planned ((id, i) ∷ saved) p v e =
    let q = record p { preempted_stack = saved } in
    restore_next-Planned (get id p.store) i (restore_from saved) q v
      (restore_from-Planned saved q v refl)

pub restore_if_free-Planned : (p : Player) → IsFree p → Planned (restore_if_free p)
unfolding restore_if_free restore_preempted
restore_if_free-Planned p v =
    if_either (λ (m : Play (Unit {0})). Planned (m p)) (is_none p.current_id) _ _
      (λ h. restore_from-Planned p.preempted_stack p v refl)
      (λ h. (free-IsSound p v, λ free c. absurd (ground (arith, h, c))))

-- While the closing cue plays there is nothing to restore.
pub restore_nothing :
    (saved : List (String × Option ℕ)) (p : Player)
    → IsSound p
    → p.preempted_stack ≡ saved
    → p.preempted_stack ≡ []
    → Planned (restore_from saved p)
unfolding restore_from
restore_nothing [] p v e h = (v, λ free c. h)
restore_nothing (x ∷ saved) p v e h = absurd (ground (arith, e, h))

pub absent_id : (x : Option String) → is_none x ≡ true → x ≡ none
absent_id none h = refl
absent_id (some id) h = absurd (ground arith)

pub restore_sound-Planned : (p : Player) → IsSound p → Planned (restore_if_free p)
unfolding restore_if_free restore_preempted IsSound
restore_sound-Planned p v =
    if_either (λ (m : Play (Unit {0})). Planned (m p)) (is_none p.current_id) _ _
      (λ h. elim (Bool-cases p.sink_active) [
        | inl active ↦
            restore_nothing p.preempted_stack p v refl (v.2 active (absent_id p.current_id h))
        | inr idle ↦ restore_from-Planned p.preempted_stack p (unmarked-IsFree p v idle) refl
      ])
      (λ h. (v, λ free c. absurd (ground (arith, h, c))))

pub then_restore :
    (r : Result (Unit {0}) × Player) → Taken r → Planned (continue r (λ x. restore_if_free))
then_restore (ok x, q) (h, e) = restore_sound-Planned q h
then_restore (raised e, q) h = h
