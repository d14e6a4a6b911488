-- ===== src/Segments/Positions.antt =====
-- Words up to a position of a text of src/aitts/segmentation.py, and what stands at each match of
-- `_WORD`.
use Prim.Native.Char.{Char, code}
use ai_tts.Common.{
  ℕ, zero, suc, ◌+◌, ◌≤◌, ◌<◌, ◌≡◌, refl, Bool, true, false, String, none, some, List, [], ◌∷◌,
  length, leb, leb→le, arith, Bool-cases, inl, inr,
}
use ai_tts.Segments.{is_word, words, word_count}
use ai_tts.Segments.Bounded.{
  text_take, text_drop, text_slice, Match, matches_from, matches, nth_match,
}

-- Whether the character before position `n` is one of a word.
abbrev pub inside_at : Bool → ℕ → String → Bool
inside_at b zero s = b
inside_at b (suc n) String.[] = b
inside_at b (suc n) (String.◌∷◌ c s) = inside_at (is_word (code c)) n s

pub words_split :
    (b : Bool) (n : ℕ) (s : String)
    → words b s ≡ words b (text_take n s) + words (inside_at b n s) (text_drop n s)
words_split b zero s = omega arith
words_split b (suc n) String.[] = refl
words_split b (suc n) (String.◌∷◌ c s) = elim (Bool-cases (is_word (code c))) [
  | inl word ↦ rw word (ground (arith, words_split true n s))
  | inr apart ↦ rw apart (words_split false n s)
]

take-take : (a b : ℕ) (s : String) → a ≤ b → text_take a (text_take b s) ≡ text_take a s
take-take zero b s h = refl
take-take (suc a) zero s h = absurd (omega arith)
take-take (suc a) (suc b) String.[] h = refl
take-take (suc a) (suc b) (String.◌∷◌ c s) h = rw (take-take a b s (omega arith))

inside_at-take :
    (t : Bool) (a b : ℕ) (s : String) → a ≤ b → inside_at t a (text_take b s) ≡ inside_at t a s
inside_at-take t zero b s h = refl
inside_at-take t (suc a) zero s h = absurd (omega arith)
inside_at-take t (suc a) (suc b) String.[] h = refl
inside_at-take t (suc a) (suc b) (String.◌∷◌ c s) h =
    inside_at-take (is_word (code c)) a b s (omega arith)

-- `k` words end before position `n`, and no word is cut there.
abbrev pub Before : String → ℕ → ℕ → Type 0
Before s k n = (words false (text_take n s) ≡ k) × (inside_at false n s ≡ false)

pub Before-rest :
    (s : String) (k n : ℕ) → Before s k n → word_count s ≡ k + word_count (text_drop n s)
Before-rest s k n (e, i) =
    let split : word_count s ≡ words false (text_take n s) + word_count (text_drop n s) =
      rw i at (words_split false n s) in
    omega (arith, split, e)

pub slice_words :
    (s : String) (a b : ℕ)
    → a ≤ b
    → inside_at false a s ≡ false
    → words false (text_take b s) ≡ words false (text_take a s) + word_count (text_slice a b s)
slice_words s a b le i =
    rw (take-take a b s le, inside_at-take false a b s le, i) at
      (words_split false a (text_take b s))

pub Before-slice :
    (s : String) (j k a b : ℕ)
    → Before s j a
    → Before s k b
    → j < k
    → j + word_count (text_slice a b s) ≡ k
Before-slice s j k a b (e, i) (f, o) h = elim (Bool-cases (leb a b)) [
  | inl within ↦ omega (arith, slice_words s a b (leb→le a b within) i, e, f)
  | inr beyond ↦ absurd (omega (arith, slice_words s b a (ground (arith, beyond)) o, e, f))
]

-- A match that is begun outside of a word, or the one after the match that is begun.
abbrev Stands : ℕ → ℕ → String → Match → Bool → Type 0
Stands i k s m b =
    (n : ℕ) × (m.start ≡ i + n) × (words b (text_take n s) ≡ k) × (inside_at b n s ≡ false)

abbrev Found : ℕ → ℕ → String → Match → Type 0
Found i k s m =
    (nth_match k (matches_from i none s) ≡ some m → Stands i k s m false)
    × ((b : ℕ) → nth_match (suc k) (matches_from i (some b) s) ≡ some m → Stands i k s m true)

match_begun :
    (i b : ℕ) (s : String) {m : Match}
    → nth_match 0 (matches_from i (some b) s) ≡ some m
    → m.start ≡ b
match_begun i b String.[] h = ground (arith, h)
match_begun i b (String.◌∷◌ c s) {m} h = elim (Bool-cases (is_word (code c))) [
  | inl word ↦ match_begun (suc i) b s (rw word at h)
  | inr apart ↦
      let here : nth_match 0 (record { start = b; end = i } ∷ matches_from (suc i) none s)
          ≡ some m =
        rw apart at h in
      ground (arith, here)
]

apart_later :
    (b : Bool) (c : Char) (i k : ℕ) (s : String) (m : Match)
    → is_word (code c) ≡ false
    → Stands (suc i) k s m false
    → Stands i k (String.◌∷◌ c s) m b
apart_later b c i k s m w (n, e, f, g) = (suc n, omega (arith, e), rw w f, rw w g)

word_later :
    (c : Char) (i k : ℕ) (s : String) (m : Match)
    → is_word (code c) ≡ true
    → Stands (suc i) k s m true
    → Stands i (suc k) (String.◌∷◌ c s) m false × Stands i k (String.◌∷◌ c s) m true
word_later c i k s m w (n, e, f, g) = (
  (suc n, omega (arith, e), rw w (ground (arith, f)), rw w g),
  (suc n, omega (arith, e), rw w f, rw w g),
)

matches_from-Found : (i k : ℕ) (s : String) (m : Match) → Found i k s m
matches_from-Found i k String.[] m = (λ h. absurd (ground arith), λ b h. absurd (ground arith))
matches_from-Found i zero (String.◌∷◌ c s) m =
    let rest = matches_from-Found (suc i) zero s m in
    elim (Bool-cases (is_word (code c))) [
      | inl word ↦ rw word (
        λ h. (0, omega (arith, match_begun (suc i) i s h), refl, refl),
        λ b h. (word_later c i zero s m word (rest.1 b h)).1,
      )
      | inr apart ↦ rw apart (
        λ h. apart_later false c i zero s m apart (rest.0 h),
        λ b h. apart_later true c i zero s m apart (rest.0 h),
      )
    ]
matches_from-Found i (suc k) (String.◌∷◌ c s) m =
    let rest = matches_from-Found (suc i) (suc k) s m in
    let before = matches_from-Found (suc i) k s m in
    elim (Bool-cases (is_word (code c))) [
      | inl word ↦ rw word (
        λ h. (word_later c i k s m word (before.1 i h)).0,
        λ b h. (word_later c i (suc k) s m word (rest.1 b h)).1,
      )
      | inr apart ↦ rw apart (
        λ h. apart_later false c i (suc k) s m apart (rest.0 h),
        λ b h. apart_later true c i (suc k) s m apart (rest.0 h),
      )
    ]

-- The match at index `k` starts where `k` words have ended.
pub match-Before :
    (s : String) (k : ℕ) (m : Match) → nth_match k (matches s) ≡ some m → Before s k m.start
match-Before s k m h =
    let (n, e, f, g) = (matches_from-Found 0 k s m).0 h in
    let same : m.start ≡ n = omega (arith, e) in rw same (f, g)

length-matches_from :
    (i : ℕ) (s : String)
    → (length (matches_from i none s) ≡ words false s)
      × ((b : ℕ) → length (matches_from i (some b) s) ≡ suc (words true s))
length-matches_from i String.[] = (refl, λ b. refl)
length-matches_from i (String.◌∷◌ c s) =
    let (outside, inside) = length-matches_from (suc i) s in
    elim (Bool-cases (is_word (code c))) [
      | inl word ↦ rw word (inside i, inside)
      | inr apart ↦ rw apart (outside, λ b. ground (arith, outside))
    ]

pub length-matches : (s : String) → length (matches s) ≡ word_count s
length-matches s = (length-matches_from 0 s).0

pub nth_match-some :
    (k : ℕ) (ms : List Match) → k < length ms → (m : Match) × (nth_match k ms ≡ some m)
nth_match-some k [] h = absurd (omega arith)
nth_match-some zero (m ∷ ms) h = (m, refl)
nth_match-some (suc k) (m ∷ ms) h = nth_match-some k ms (omega arith)
