-- ===== src/Common/Sorting.antt =====
-- Laws of `sort_by` for the queues: where a new least or greatest row goes, and which row is first.
use ai_tts.Common.{
  ◌≡◌, refl, ◌⊎◌, inl, inr, Bool, true, false, List, [], ◌∷◌, ◌++◌, arith, All, Bool-cases,
}
use ai_tts.Common.Table.{insert_by, sort_by, select_where}

-- `x` is one of the rows.
abbrev pub In : {A : Type 0} → A → List A → Type 0
In x [] = ⊥
In x (y ∷ ys) = (y ≡ x) ⊎ In x ys

module _ {A : Type 0} (le : A → A → Bool) where
  insert_by-last :
      (x v : A) (ys : List A)
      → le x v ≡ true
      → insert_by le x (ys ++ v ∷ []) ≡ insert_by le x ys ++ v ∷ []
  insert_by-last x v [] h = rw h
  insert_by-last x v (y ∷ ys) h = ground (arith, insert_by-last x v ys h)

  -- A row that no row exceeds goes to the end.
  pub sort_by-last :
      (v : A) (xs : List A)
      → All (λ x. le x v ≡ true) xs
      → sort_by le (xs ++ v ∷ []) ≡ sort_by le xs ++ v ∷ []
  sort_by-last v [] h = refl
  sort_by-last v (x ∷ xs) h = rw (sort_by-last v xs h.1) (insert_by-last x v (sort_by le xs) h.0)

  -- A row below all others goes to the front.
  pub sort_by-first :
      (v : A) (xs : List A)
      → All (λ x. le x v ≡ false) xs
      → sort_by le (xs ++ v ∷ []) ≡ v ∷ sort_by le xs
  sort_by-first v [] h = refl
  sort_by-first v (x ∷ xs) h = rw (sort_by-first v xs h.1, h.0)

  All-insert_by :
      (P : A → Type 0) (x : A) (xs : List A) → P x → All P xs → All P (insert_by le x xs)
  All-insert_by P x [] p h = (p, tt)
  All-insert_by P x (y ∷ ys) p h = elim (Bool-cases (le x y)) [
    | inl before ↦ rw before (p, h)
    | inr behind ↦ rw behind (h.0, All-insert_by P x ys p h.1)
  ]

  pub All-sort_by : (P : A → Type 0) (xs : List A) → All P xs → All P (sort_by le xs)
  All-sort_by P [] h = tt
  All-sort_by P (x ∷ xs) h = All-insert_by P x (sort_by le xs) h.0 (All-sort_by P xs h.1)

  -- `x` comes before `y`, and not the other way round; or they are one row.
  abbrev pub Leads : A → A → Type 0
  Leads x y = (y ≡ x) ⊎ ((le x y ≡ true) × (le y x ≡ false))

  insert_by-lead :
      (x : A) (ys : List A) → le x x ≡ true → All (Leads x) ys → insert_by le x ys ≡ x ∷ ys
  insert_by-lead x [] r h = refl
  insert_by-lead x (y ∷ ys) r (inl e, h) = rw (e, r)
  insert_by-lead x (y ∷ ys) r (inr e, h) = rw e.0

  -- A row that leads all others is the first.
  pub sort_by-lead :
      (x : A) (xs : List A)
      → le x x ≡ true
      → In x xs
      → All (Leads x) xs
      → (rest : List A) × (sort_by le xs ≡ x ∷ rest)
  sort_by-lead x [] r i h = absurd i
  sort_by-lead x (y ∷ ys) r (inl e) h =
      (sort_by le ys, rw (e, insert_by-lead x (sort_by le ys) r (All-sort_by (Leads x) ys h.1)))
  sort_by-lead x (y ∷ ys) r (inr i) (inl e, h) =
      let (rest, p) = sort_by-lead x ys r i h in (x ∷ rest, rw (p, e, r))
  sort_by-lead x (y ∷ ys) r (inr i) (inr e, h) =
      let (rest, p) = sort_by-lead x ys r i h in (insert_by le y rest, rw (p, e.1))

module _ {A : Type 0} (p : A → Bool) where
  pub All-select_where : (P : A → Type 0) (xs : List A) → All P xs → All P (select_where p xs)
  All-select_where P [] h = tt
  All-select_where P (x ∷ xs) h = elim (Bool-cases (p x)) [
    | inl chosen ↦ rw chosen (h.0, All-select_where P xs h.1)
    | inr passed ↦ rw passed (All-select_where P xs h.1)
  ]

  pub select_where-last :
      (xs : List A) (v : A)
      → p v ≡ true
      → select_where p (xs ++ v ∷ []) ≡ select_where p xs ++ v ∷ []
  select_where-last [] v h = rw h
  select_where-last (x ∷ xs) v h = ground (arith, select_where-last xs v h)

  pub In-select_where : (x : A) (xs : List A) → In x xs → p x ≡ true → In x (select_where p xs)
  In-select_where x [] i h = i
  In-select_where x (y ∷ ys) (inl e) h = rw (e, h) (inl refl)
  In-select_where x (y ∷ ys) (inr i) h = elim (Bool-cases (p y)) [
    | inl chosen ↦ rw chosen (inr (In-select_where x ys i h))
    | inr passed ↦ rw passed (In-select_where x ys i h)
  ]

  -- Every selected row passes the test.
  pub select_where-holds : (xs : List A) → All (λ x. p x ≡ true) (select_where p xs)
  select_where-holds [] = tt
  select_where-holds (x ∷ xs) = elim (Bool-cases (p x)) [
    | inl chosen ↦ rw chosen (chosen, select_where-holds xs)
    | inr passed ↦ rw passed (select_where-holds xs)
  ]

-- A stronger test selects some of the rows that a weaker one selects.
pub All-select_where_sub :
    {A : Type 0} (p q : A → Bool) (P : A → Type 0) (xs : List A)
    → ((x : A) → q x ≡ true → p x ≡ true)
    → All P (select_where p xs)
    → All P (select_where q xs)
All-select_where_sub p q P [] sub h = tt
All-select_where_sub p q P (x ∷ xs) sub h = elim (Bool-cases (q x)) [
  | inl chosen ↦
      let both : All P (x ∷ select_where p xs) = rw (sub x chosen) at h in
      rw chosen (both.0, All-select_where_sub p q P xs sub both.1)
  | inr passed ↦ rw passed (All-select_where_sub p q P xs sub (weaker (p x) refl h))
]
  where
    weaker : (b : Bool) → p x ≡ b → All P (select_where p (x ∷ xs)) → All P (select_where p xs)
    weaker true e k = let both : All P (x ∷ select_where p xs) = rw e at k in both.1
    weaker false e k = rw e at k
