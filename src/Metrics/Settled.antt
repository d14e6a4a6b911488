-- ===== src/Metrics/Settled.antt =====
-- The recorder of src/aitts/application/metrics.py holds nothing of a settled utterance.
use ai_tts.Common.{
  ℕ, ◌≡◌, refl, Bool, true, false, not, String, List, [], ◌∷◌, ◌++◌, arith, Bool-cases, inl, inr,
  is_some, text_eq, eq_iff, if◌then◌else◌,
}
use ai_tts.Common.Table.{find, update_where}
use ai_tts.Model.{
  Utterance, State, queued, synthesizing, ready, playing, state_is, state_in, terminal,
}
use ai_tts.Metrics.{
  Mark, Recorder, new_recorder, is_mark, set_default, set_value, pop_key, forget, observe,
  observe_queued, observe_synthesizing, observe_ready, observe_playing, observe_settled, is_tracked,
}

abbrev has : String → List Mark → Bool
has id ms = is_some (find (is_mark id) ms)

module _ (id j : String) (other : text_eq j id ≡ false) where
  append_other :
      (t : ℕ) (ms : List Mark) → has j (ms ++ record { key = id; value = t } ∷ []) ≡ has j ms
  append_other t [] = ground (arith, eq_iff id j, eq_iff j id)
  append_other t (m ∷ ms) = ground (arith, append_other t ms)

  update_other :
      (t : ℕ) (ms : List Mark)
      → has j (update_where (is_mark id) (λ m. record m { value = t }) ms) ≡ has j ms
  update_other t [] = refl
  update_other t (m ∷ ms) = ground (arith, update_other t ms)

  set_default_other : (t : ℕ) (ms : List Mark) → has j (set_default id t ms) ≡ has j ms
  set_default_other t ms = elim (Bool-cases (has id ms)) [
    | inl old ↦ rw old
    | inr new ↦ rw new (append_other t ms)
  ]

  set_value_other : (t : ℕ) (ms : List Mark) → has j (set_value id t ms) ≡ has j ms
  set_value_other t ms = elim (Bool-cases (has id ms)) [
    | inl old ↦ rw old (update_other t ms)
    | inr new ↦ rw new (append_other t ms)
  ]

  pop_key_other : (ms : List Mark) → has j (pop_key id ms) ≡ has j ms
  pop_key_other [] = refl
  pop_key_other (m ∷ ms) =
      ground (arith, pop_key_other ms, eq_iff m.key j, eq_iff m.key id, eq_iff j id)

pop_key_same : (id : String) (ms : List Mark) → has id (pop_key id ms) ≡ false
pop_key_same id [] = refl
pop_key_same id (m ∷ ms) = ground (arith, pop_key_same id ms)

-- What every branch of `observe` gives holds of what it returns.
pub branches :
    (P : Recorder → Type 0) (now : ℕ) (u : Utterance) (r : Recorder)
    → P (observe_queued u r)
    → P (observe_synthesizing now u r)
    → P (observe_ready now u r)
    → P (observe_playing now u r)
    → P (observe_settled u r)
    → P r
    → P (observe now u r)
unfolding observe
branches P now u r a b c d e f = choose (state_is u.state queued) a (
    choose (state_is u.state synthesizing) b (
      choose (state_is u.state ready) c
        (choose (state_is u.state playing) d (choose (state_in u.state terminal) e f))))
  where
    choose : (b : Bool) {x y : Recorder} → P x → P y → P (if b then x else y)
    choose true h k = h
    choose false h k = k

observe-other :
    (now : ℕ) (u : Utterance) (r : Recorder) (j : String)
    → text_eq j u.id ≡ false
    → is_tracked j (observe now u r) ≡ is_tracked j r
unfolding observe_queued observe_synthesizing observe_ready observe_playing observe_settled forget
    is_tracked
observe-other now u r j h =
    let set_q = set_default_other u.id j h u.submitted_at r.queued_at in
    let set_s = set_default_other u.id j h now r.synthesis_started_at in
    let set_r = set_value_other u.id j h now r.ready_at in
    let pop_q = pop_key_other u.id j h r.queued_at in
    let pop_r = pop_key_other u.id j h r.ready_at in
    let pop_s = pop_key_other u.id j h r.synthesis_started_at in
    branches (λ x. is_tracked j x ≡ is_tracked j r) now u r (rw set_q) (rw (set_q, set_s))
      (rw (set_q, set_r, pop_s)) (rw pop_r) (rw (pop_q, pop_r, pop_s)) refl

settled_state :
    (s : State)
    → state_in s terminal ≡ true
    → (state_is s queued ≡ false)
      × (state_is s synthesizing ≡ false)
      × (state_is s ready ≡ false)
      × (state_is s playing ≡ false)
settled_state s h = ground arith

observe-settled :
    (now : ℕ) (u : Utterance) (r : Recorder)
    → state_in u.state terminal ≡ true
    → is_tracked u.id (observe now u r) ≡ false
unfolding observe observe_settled forget is_tracked
observe-settled now u r h =
    let (a, b, c, d) = settled_state u.state h in
    rw (a, b, c, d, h)
      (rw (
        pop_key_same u.id r.queued_at,
        pop_key_same u.id r.ready_at,
        pop_key_same u.id r.synthesis_started_at,
      ))

-- An observed transition: the clock's reading and the utterance after it.
pub record Seen : Type 0 where
  pub now : ℕ
  pub utterance : Utterance

-- The recorder after a sequence of observations, of which the last comes first.
abbrev pub recorded : List Seen → Recorder
recorded [] = new_recorder
recorded (o ∷ os) = observe o.now o.utterance (recorded os)

-- The utterance has been observed, and not in a terminal state the last time.
abbrev pub unsettled : String → List Seen → Bool
unsettled id [] = false
unsettled id (o ∷ os) =
    if text_eq id o.utterance.id then not (state_in o.utterance.state terminal) else unsettled id os

untracked_first : (id : String) → is_tracked id new_recorder ≡ false
unfolding is_tracked
untracked_first id = refl

-- After any sequence of observations only utterances are tracked that have been observed and whose
-- last observed state is not terminal, so nothing is kept of an utterance that has settled.
pub is_tracked-unsettled :
    (os : List Seen) (id : String) → is_tracked id (recorded os) ≡ true → unsettled id os ≡ true
is_tracked-unsettled [] id h = let f = untracked_first id in cc
is_tracked-unsettled (o ∷ os) id h = elim (Bool-cases (text_eq id o.utterance.id)) [
  | inl same ↦ elim (Bool-cases (state_in o.utterance.state terminal)) [
    | inl settled ↦
        let e : id ≡ o.utterance.id = (eq_iff id o.utterance.id).0 same in
        let f = observe-settled o.now o.utterance (recorded os) settled in cc
    | inr live ↦ rw (same, live)
  ]
  | inr other ↦
      let e = observe-other o.now o.utterance (recorded os) id other in
      rw other (is_tracked-unsettled os id cc)
]
