-- ===== src/Store/Promote.antt =====
-- `move_to_head` of src/aitts/store.py brings an utterance to the front of the plan.
use ai_tts.Common.{
  ◌≡◌, refl, ap, ◌∙◌, inl, inr, Bool, true, false, map, mem_text, distinct, String, none, some,
  List, [], ◌∷◌, arith, All, Bool-cases, eq_iff,
}
use ai_tts.Common.Int.{ℤ, ◌<ℤ◌}
use ai_tts.Common.Table.{
  find, select_where, sort_by, update_where, updated, find-update_where, find_holds,
}
use ai_tts.Common.Sorting.{In, Leads, sort_by-lead, In-select_where}
use ai_tts.Model.{Utterance, state_in}
use ai_tts.Store.{Store, ok}
use ai_tts.Store.Reads.{
  has_id, get, by_order_key, by_states, pending_states, next_pending, head_order_key,
}
use ai_tts.Store.Transition.{write_utterances}
use ai_tts.Store.Queue.{set_order_key, move_to_head}
use ai_tts.Store.Lasting.{IsKeyed}
use ai_tts.Store.Order.{is_open, head_order_key-below}

no_row :
    (id : String) (us : List Utterance) (u : Utterance)
    → mem_text id (map (λ x. x.id) us) ≡ false
    → All (λ x. has_id id x ≡ true → x ≡ u) us
no_row id [] u m = tt
no_row id (x ∷ us) u m =
    (λ h. ground (arith, eq_iff id x.id, eq_iff x.id id), no_row id us u (ground arith))

-- Where identifiers are distinct, the row that is found is the only one with its identifier.
only_row :
    (id : String) (us : List Utterance) (u : Utterance)
    → distinct (map (λ x. x.id) us) ≡ true
    → find (has_id id) us ≡ some u
    → All (λ x. has_id id x ≡ true → x ≡ u) us
only_row id [] u d e = tt
only_row id (x ∷ us) u d e = elim (Bool-cases (has_id id x)) [
  | inl hit ↦ (λ _. ground arith, no_row id us u (ground (arith, eq_iff x.id id)))
  | inr miss ↦ (λ h. cc, only_row id us u (ground arith) (ground arith))
]

selected_open :
    (p : Utterance → Bool) (P : Utterance → Type 0) (us : List Utterance)
    → All P (select_where p us)
    → All (λ x. p x ≡ true → P x) us
selected_open p P [] h = tt
selected_open p P (x ∷ us) h = elim (Bool-cases (p x)) [
  | inl chosen ↦
      let both : All P (x ∷ select_where p us) = rw chosen at h in
      (λ _. both.0, selected_open p P us both.1)
  | inr passed ↦
      let rest : All P (select_where p us) = rw passed at h in (λ c. cc, selected_open p P us rest)
]

abbrev pend : Utterance → Bool
pend u = state_in u.state pending_states

module _ (id : String) (k : ℤ) (u : Utterance) where
  abbrev moved : Utterance
  moved = set_order_key k u

  row-Leads :
      (x : Utterance)
      → (has_id id x ≡ true → x ≡ u)
      → (is_open x ≡ true → k <ℤ x.order_key)
      → pend (updated (has_id id) (set_order_key k) x) ≡ true
      → Leads by_order_key moved (updated (has_id id) (set_order_key k) x)
  row-Leads x h b c = elim (Bool-cases (has_id id x)) [
    | inl hit ↦ rw hit (inl (ap (set_order_key k) (h hit)))
    | inr miss ↦
        let chosen : pend x ≡ true = rw miss at c in
        let below : k <ℤ x.order_key = b (ground arith) in
        rw miss (inr (ground arith, ground arith))
  ]

  lead_rows :
      (us : List Utterance)
      → All (λ x. has_id id x ≡ true → x ≡ u) us
      → All (λ x. is_open x ≡ true → k <ℤ x.order_key) us
      → All
          (Leads by_order_key moved)
          (select_where pend (update_where (has_id id) (set_order_key k) us))
  lead_rows [] h b = tt
  lead_rows (x ∷ us) h b = elim (Bool-cases (pend (updated (has_id id) (set_order_key k) x))) [
    | inl chosen ↦ rw chosen (row-Leads x h.0 b.0 chosen, lead_rows us h.1 b.1)
    | inr passed ↦ rw passed (lead_rows us h.1 b.1)
  ]

find-In :
    (p : Utterance → Bool) (us : List Utterance) {u : Utterance} → find p us ≡ some u → In u us
find-In p [] e = cc
find-In p (x ∷ us) {u} e = elim (Bool-cases (p x)) [
  | inl hit ↦ inl (ground arith)
  | inr miss ↦ inr (find-In p us (ground arith))
]

by_order_key_refl : (u : Utterance) → by_order_key u u ≡ true
by_order_key_refl u = ground arith

module _ (id : String) (s : Store) (u : Utterance) (e : get id s ≡ some u) where
  abbrev front : Utterance
  front = set_order_key (head_order_key s) u

  abbrev rows : List Utterance
  rows = update_where (has_id id) (set_order_key (head_order_key s)) s.utterances

  found_row : find (has_id id) rows ≡ some front
  unfolding get
  found_row =
      find-update_where (has_id id) (has_id id) (set_order_key (head_order_key s)) s.utterances
        (λ x. refl)
      ∙ rw (e, find_holds (has_id id) s.utterances {x = u} e)

  move_to_head_lem : move_to_head id s ≡ (ok front, record s { utterances = rows })
  unfolding move_to_head write_utterances get
  move_to_head_lem = rw (e, found_row)

  first_row :
      IsKeyed s
      → state_in u.state pending_states ≡ true
      → (rest : List Utterance) × (sort_by by_order_key (select_where pend rows) ≡ front ∷ rest)
  unfolding get
  first_row d c =
      sort_by-lead by_order_key front (select_where pend rows) (by_order_key_refl front)
        (In-select_where pend front rows (find-In (has_id id) rows found_row) c)
        (lead_rows id (head_order_key s) u s.utterances (only_row id s.utterances u d e) (
          selected_open is_open (λ x. head_order_key s <ℤ x.order_key) s.utterances
            (head_order_key-below s)))

-- Moving an utterance that is pending to the head, where identifiers are distinct, returns it
-- changed in its order key alone, and makes it the next utterance to be played.
pub move_to_head-next_pending :
    (id : String) (s : Store) (u : Utterance)
    → IsKeyed s
    → get id s ≡ some u
    → state_in u.state pending_states ≡ true
    → (v : Utterance) × ((move_to_head id s).0 ≡ ok v)
      × (v ≡ set_order_key v.order_key u)
      × (next_pending none (move_to_head id s).1 ≡ some v)
unfolding next_pending by_states
move_to_head-next_pending id s u d e c = (
  front id s u e,
  ap (λ r. r.0) (move_to_head_lem id s u e),
  refl,
  ap (λ r. next_pending none r.1) (move_to_head_lem id s u e) ∙ rw (first_row id s u e d c).1,
)
