-- ===== src/Metrics/Waits.antt =====
-- The wait for synthesis that the recorder of src/aitts/application/metrics.py takes.
use ai_tts.Common.{
  ℕ, ◌≡◌, refl, Bool, true, false, not, ◌||◌, String, some, List, [], ◌∷◌, ◌++◌, All, all, arith,
  Bool-cases, inl, inr, is_some, text_eq, eq_iff, ◌==◌,
}
use ai_tts.Common.Int.{pos, ◌-ℤ◌}
use ai_tts.Common.Table.{find}
use ai_tts.Model.{Utterance, ready}
use ai_tts.Metrics.{
  Mark, Recorder, append_sample, add_wait, thousandfold, is_mark, value_at, set_default, pop_key,
  forget, observe, observe_queued, observe_synthesizing, observe_ready, observe_playing,
  observe_settled,
}
use ai_tts.Metrics.Settled.{Seen, recorded, branches}

-- The marks of `id` all have the value `t`.
abbrev dated : String → ℕ → List Mark → Bool
dated id t ms = all (λ m. not (text_eq m.key id) || m.value == t) ms

dated-append :
    (id j : String) (t v : ℕ) (ms : List Mark)
    → dated id t ms ≡ true
    → (text_eq id j ≡ true → v ≡ t)
    → dated id t (ms ++ record { key = j; value = v } ∷ []) ≡ true
dated-append id j t v [] d h = ground (arith, h, eq_iff id j, eq_iff j id)
dated-append id j t v (m ∷ ms) d h = ground (arith, dated-append id j t v ms)

dated-set_default :
    (id j : String) (t v : ℕ) (ms : List Mark)
    → dated id t ms ≡ true
    → (text_eq id j ≡ true → v ≡ t)
    → dated id t (set_default j v ms) ≡ true
dated-set_default id j t v ms d h = elim (Bool-cases (is_some (find (is_mark j) ms))) [
  | inl old ↦ rw old d
  | inr new ↦ rw new (dated-append id j t v ms d h)
]

dated-pop_key :
    (id j : String) (t : ℕ) (ms : List Mark)
    → dated id t ms ≡ true
    → dated id t (pop_key j ms) ≡ true
dated-pop_key id j t [] d = refl
dated-pop_key id j t (m ∷ ms) d = ground (arith, dated-pop_key id j t ms)

dated-find :
    (id : String) (t : ℕ) (ms : List Mark)
    → dated id t ms ≡ true
    → value_at id (set_default id t ms) ≡ some t
dated-find id t ms d = elim (Bool-cases (is_some (find (is_mark id) ms))) [
  | inl old ↦ rw old (found ms d old)
  | inr new ↦ rw new (added ms new)
]
  where
    found :
        (ms : List Mark)
        → dated id t ms ≡ true
        → is_some (find (is_mark id) ms) ≡ true
        → value_at id ms ≡ some t
    found [] d h = absurd (ground arith)
    found (m ∷ ms) d h = ground (arith, found ms)

    added :
        (ms : List Mark)
        → is_some (find (is_mark id) ms) ≡ false
        → value_at id (ms ++ record { key = id; value = t } ∷ []) ≡ some t
    added [] h = ground (arith, eq_iff id id)
    added (m ∷ ms) h = ground (arith, added ms)

-- The observations of `id` all tell that it was submitted at `t`.
abbrev pub SubmittedAt : String → ℕ → List Seen → Type 0
SubmittedAt id t os = All (λ o. text_eq id o.utterance.id ≡ true → o.utterance.submitted_at ≡ t) os

observe-dated :
    (now : ℕ) (u : Utterance) (r : Recorder) (id : String) (t : ℕ)
    → dated id t r.queued_at ≡ true
    → (text_eq id u.id ≡ true → u.submitted_at ≡ t)
    → dated id t (observe now u r).queued_at ≡ true
unfolding observe_queued observe_synthesizing observe_ready observe_playing observe_settled forget
observe-dated now u r id t d h =
    let set = dated-set_default id u.id t u.submitted_at r.queued_at d h in
    branches (λ x. dated id t x.queued_at ≡ true) now u r set set set d
      (dated-pop_key id u.id t r.queued_at d) d

recorded-dated :
    (os : List Seen) (id : String) (t : ℕ)
    → SubmittedAt id t os
    → dated id t (recorded os).queued_at ≡ true
recorded-dated [] id t h = refl
recorded-dated (o ∷ os) id t h =
    observe-dated o.now o.utterance (recorded os) id t (recorded-dated os id t h.1) h.0

-- Whatever has been observed before, an utterance that becomes ready adds to the waits for synthesis
-- the milliseconds since it was submitted, as the latest sample, and nothing to the waits for
-- playback. The condition is that all earlier observations of it tell the same time of submission.
pub observe-synthesis_wait :
    (os : List Seen) (now : ℕ) (u : Utterance)
    → u.state ≡ ready
    → SubmittedAt u.id u.submitted_at os
    → let before = recorded os in
      let after = observe now u before in
      (after.synthesis_wait
        ≡ append_sample (thousandfold (pos now -ℤ pos u.submitted_at)) before.synthesis_wait)
      × (after.playback_wait ≡ before.playback_wait)
unfolding observe observe_ready add_wait
observe-synthesis_wait os now u st h =
    let e =
      dated-find u.id u.submitted_at (recorded os).queued_at
        (recorded-dated os u.id u.submitted_at h) in
    simp (st, e) (refl, refl)
