-- ===== src/Segments/Words.antt =====
-- Words are neither lost nor joined by splitting a text of src/aitts/segmentation.py.
use Prim.Native.Char.{Char, code}
use ai_tts.Common.{
  ℕ, zero, suc, ◌+◌, ◌-◌, ◌≤◌, ◌≡◌, refl, ◌∙◌, sym, Bool, true, false, ◌&&◌, ◌||◌, not, String,
  Option, none, some, List, [], ◌∷◌, arith, Bool-cases, inl, inr, leb, ◌==◌, text_eq, eq_iff,
  is_space, if◌then◌else◌,
}
use native.Mathlib.Nat.{add_comm}
use ai_tts.Segments.{
  is_word, words, word_count, line_break, longer, blank_line, paragraph_break, after_return, attach,
  one_less, cut, split_from, strip_left, strip_right, strip, stripped_parts, paragraphs,
}

-- The words of a list of pieces of a text, the first of which begins inside a word or not.
abbrev pub total_words : List String → ℕ
total_words [] = 0
total_words (p ∷ ps) = word_count p + total_words ps

abbrev pieces_words : Bool → List String → ℕ
pieces_words b [] = 0
pieces_words b (p ∷ ps) = words b p + total_words ps

-- The first `n` characters are no word characters.
abbrev no_words : ℕ → String → Bool
no_words zero s = true
no_words (suc n) String.[] = true
no_words (suc n) (String.◌∷◌ c s) = not (is_word (code c)) && no_words n s

abbrev passed_over : Option ℕ → String → Bool
passed_over none s = true
passed_over (some n) s = leb 1 n && no_words n s

line_break-passed : (s : String) → passed_over (line_break s) s ≡ true
line_break-passed String.[] = refl
line_break-passed (String.◌∷◌ c String.[]) = ground arith
line_break-passed (String.◌∷◌ c (String.◌∷◌ d s)) = elim (Bool-cases (code c == 10)) [
  | inl line ↦ rw line (ground arith)
  | inr other ↦ elim (Bool-cases (code c == 13 && code d == 10)) [
    | inl both ↦ rw (other, both) (ground arith)
    | inr neither ↦ rw (other, neither)
  ]
]

longer-passed :
    (c : Char) (s : String) (o : Option ℕ)
    → is_word (code c) ≡ false
    → passed_over o s ≡ true
    → passed_over (longer 1 o) (String.◌∷◌ c s) ≡ true
longer-passed c s none w h = refl
longer-passed c s (some n) w h = rw (add_comm 1 n) (ground arith)

longer_two-passed :
    (c d : Char) (s : String) (o : Option ℕ)
    → is_word (code c) ≡ false
    → is_word (code d) ≡ false
    → passed_over o s ≡ true
    → passed_over (longer 2 o) (String.◌∷◌ c (String.◌∷◌ d s)) ≡ true
longer_two-passed c d s none w v h = refl
longer_two-passed c d s (some n) w v h = rw (add_comm 2 n) (ground arith)

blank_line-passed : (s : String) → passed_over (blank_line s) s ≡ true
blank_line-passed String.[] = refl
blank_line-passed (String.◌∷◌ c s) = elim (Bool-cases (code c == 32 || code c == 9)) [
  | inl blank ↦ rw blank (longer-passed c s (blank_line s) (ground arith) (blank_line-passed s))
  | inr solid ↦ rw solid (line_break-passed (String.◌∷◌ c s))
]

after_return-passed :
    (c : Char) (s : String)
    → is_word (code c) ≡ false
    → passed_over (after_return s) (String.◌∷◌ c s) ≡ true
after_return-passed c String.[] w = refl
after_return-passed c (String.◌∷◌ d t) w = elim (Bool-cases (code d == 10)) [
  | inl line ↦
      rw line (longer_two-passed c d t (blank_line t) w (ground arith) (blank_line-passed t))
  | inr other ↦ rw other
]

paragraph_break-passed : (s : String) → passed_over (paragraph_break s) s ≡ true
unfolding paragraph_break
paragraph_break-passed String.[] = refl
paragraph_break-passed (String.◌∷◌ c s) = elim (Bool-cases (code c == 10)) [
  | inl line ↦ rw line (longer-passed c s (blank_line s) (ground arith) (blank_line-passed s))
  | inr other ↦ elim (Bool-cases (code c == 13)) [
    | inl return ↦ rw (other, return) (after_return-passed c s (ground arith))
    | inr solid ↦ rw (other, solid)
  ]
]

attach-words :
    (b : Bool) (c : Char) (ps : List String)
    → pieces_words b (attach c ps) ≡ (
        if is_word (code c)
        then (if b then pieces_words true ps else suc (pieces_words true ps))
        else pieces_words false ps)
attach-words b c [] = ground arith
attach-words b c (p ∷ ps) = ground arith

cut-words :
    (b : Bool) (c : Char) (s : String) (o : Option ℕ) (ps : List String) (f : ℕ → List String)
    → passed_over o (String.◌∷◌ c s) ≡ true
    → ((a : Bool) → pieces_words a ps ≡ words a s)
    → ((n : ℕ) → no_words (one_less n) s ≡ true → total_words (f n) ≡ words false s)
    → pieces_words b (cut c o ps f) ≡ words b (String.◌∷◌ c s)
cut-words b c s none ps f h k g = rw (attach-words b c ps, k true, k false) refl
cut-words b c s (some zero) ps f h k g = absurd (ground arith)
cut-words b c s (some (suc n)) ps f h k g = rw (g (suc n) (ground arith)) (ground arith)

abbrev start : ℕ → Bool → Bool
start zero b = b
start (suc k) b = false

start-false : (k : ℕ) → start k false ≡ false
start-false zero = refl
start-false (suc k) = refl

pieces_total : (ps : List String) → pieces_words false ps ≡ total_words ps
pieces_total [] = refl
pieces_total (p ∷ ps) = refl

split_from-words :
    (b : Bool) (k : ℕ) (s : String)
    → no_words k s ≡ true
    → pieces_words (start k b) (split_from k s) ≡ words (start k b) s
unfolding split_from
split_from-words b k String.[] h = refl
split_from-words b zero (String.◌∷◌ c s) h =
    cut-words b c s (paragraph_break (String.◌∷◌ c s)) (split_from 0 s)
      (λ n. split_from (one_less n) s) (paragraph_break-passed (String.◌∷◌ c s))
      (λ a. split_from-words a 0 s refl)
      (λ n h.
        sym (pieces_total (split_from (one_less n) s))
        ∙ rw (start-false (one_less n)) at (split_from-words false (one_less n) s h))
split_from-words b (suc k) (String.◌∷◌ c s) h =
    let solid : is_word (code c) ≡ false = ground arith in
    rw solid (rw (start-false k) at (split_from-words false k s (ground arith)))

space_apart : (c : ℕ) → is_space c ≡ true → is_word c ≡ false
unfolding ai_tts.Common.Text.is_space
space_apart c h = ground arith

strip_left-words : (s : String) → word_count (strip_left s) ≡ word_count s
strip_left-words String.[] = refl
strip_left-words (String.◌∷◌ c s) = elim (Bool-cases (is_space (code c))) [
  | inl space ↦ rw (space, space_apart (code c) space) (strip_left-words s)
  | inr solid ↦ rw solid
]

strip_right-words : (b : Bool) (s : String) → words b (strip_right s) ≡ words b s
strip_right-words b String.[] = refl
strip_right-words b (String.◌∷◌ c s) =
    let inner = strip_right-words true s in
    let outer = strip_right-words false s in
    elim (Bool-cases (is_space (code c))) [
      | inl space ↦ elim (Bool-cases (text_eq (strip_right s) "")) [
        | inl gone ↦
            let e : strip_right s ≡ "" = (eq_iff (strip_right s) "").0 gone in
            rw (space, gone, space_apart (code c) space) (rw e at outer)
        | inr left ↦ rw (space, left, space_apart (code c) space) outer
      ]
      | inr solid ↦ rw (solid, inner, outer)
    ]

pub strip-words : (s : String) → word_count (strip s) ≡ word_count s
strip-words s = strip_right-words false (strip_left s) ∙ strip_left-words s

stripped_parts-words : (ps : List String) → total_words (stripped_parts ps) ≡ total_words ps
stripped_parts-words [] = refl
stripped_parts-words (p ∷ ps) =
    let rest = stripped_parts-words ps in
    let same = strip-words p in
    elim (Bool-cases (text_eq (strip p) "")) [
      | inl blank ↦
          let e : strip p ≡ "" = (eq_iff (strip p) "").0 blank in
          let none_left : 0 ≡ word_count p = rw e at same in
          rw blank (rest ∙ omega (arith, none_left))
      | inr kept ↦ rw (kept, same, rest)
    ]

-- The paragraphs of a text hold as many words as the text.
pub paragraphs-words : (text : String) → total_words (paragraphs text) ≡ word_count text
unfolding paragraphs
paragraphs-words text =
    stripped_parts-words (split_from 0 text)
    ∙ sym (pieces_total (split_from 0 text))
    ∙ split_from-words false 0 text refl
