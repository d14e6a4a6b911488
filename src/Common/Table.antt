-- ===== src/Common/Table.antt =====
-- What the program's SQL statements do to the rows of a table: SELECT, UPDATE and DELETE with a
-- WHERE test, and ORDER BY an integer column. Rows that compare equal keep the table's order.
use ai_tts.Common.{
  ℕ, suc, ◌≡◌, refl, Bool, true, false, List, [], ◌∷◌, Option, none, some, arith, if◌then◌else◌,
  length,
}

module _ {ℓ} {A : Type ℓ} where
  abbrev pub find : (A → Bool) → List A → Option A
  find p [] = none
  find p (x ∷ xs) = if p x then some x else find p xs

  abbrev pub select_where : (A → Bool) → List A → List A
  select_where p [] = []
  select_where p (x ∷ xs) = let rest = select_where p xs in if p x then x ∷ rest else rest

  abbrev pub update_where : (A → Bool) → (A → A) → List A → List A
  update_where p f [] = []
  update_where p f (x ∷ xs) = (if p x then f x else x) ∷ update_where p f xs

  abbrev pub delete_where : (A → Bool) → List A → List A
  delete_where p [] = []
  delete_where p (x ∷ xs) = let rest = delete_where p xs in if p x then rest else x ∷ rest

  -- `cursor.rowcount` of an UPDATE or DELETE.
  abbrev pub count_where : (A → Bool) → List A → ℕ
  count_where p [] = 0
  count_where p (x ∷ xs) = let rest = count_where p xs in if p x then suc rest else rest

  abbrev pub insert_by : (A → A → Bool) → A → List A → List A
  insert_by le x [] = x ∷ []
  insert_by le x (y ∷ ys) = let rest = insert_by le x ys in if le x y then x ∷ y ∷ ys else y ∷ rest

  -- ORDER BY.
  abbrev pub sort_by : (A → A → Bool) → List A → List A
  sort_by le [] = []
  sort_by le (x ∷ xs) = insert_by le x (sort_by le xs)

  -- What an UPDATE makes of one row.
  abbrev pub updated : (A → Bool) → (A → A) → A → A
  updated p f x = if p x then f x else x

  abbrev pub map_option {κ} : {B : Type κ} → (A → B) → Option A → Option B
  map_option f none = none
  map_option f (some x) = some (f x)

  -- An UPDATE that leaves the key alone changes just the row that is found.
  pub find-update_where :
      (key p : A → Bool) (f : A → A) (xs : List A)
      → ((x : A) → key (f x) ≡ key x)
      → find key (update_where p f xs) ≡ map_option (updated p f) (find key xs)
  find-update_where key p f [] same = refl
  find-update_where key p f (x ∷ xs) same =
      ground (arith, same x, find-update_where key p f xs same)

  -- A DELETE that spares the row that is found.
  pub find-delete_where_spared :
      (key p : A → Bool) (xs : List A) {x : A}
      → find key xs ≡ some x
      → p x ≡ false
      → find key (delete_where p xs) ≡ some x
  find-delete_where_spared key p [] e h = e
  find-delete_where_spared key p (y ∷ ys) {x} e h =
      ground (arith, find-delete_where_spared key p ys {x = x})

  pub find_holds : (p : A → Bool) (xs : List A) {x : A} → find p xs ≡ some x → p x ≡ true
  find_holds p [] e = ground arith
  find_holds p (y ∷ ys) {x} e = ground (arith, find_holds p ys {x = x})

  pub length-insert_by :
      (le : A → A → Bool) (x : A) (xs : List A) → length (insert_by le x xs) ≡ suc (length xs)
  length-insert_by le x [] = refl
  length-insert_by le x (y ∷ ys) = ground (arith, length-insert_by le x ys)
