-- ===== src/Segments/Joined.antt =====
-- Joining the paragraphs and cutting the sections of a text in src/aitts/segmentation.py loses no word.
use Prim.Native.Char.{code}
use Prim.Native.String.{◌++◌}
use text.Mathlib.TextLemmas.{nil-append, cons-append}
use ai_tts.Common.{
  ℕ, suc, ◌+◌, ◌≤◌, ◌≡◌, refl, sym, ap, ◌∙◌, Bool, true, false, ◌&&◌, String, some, List, [], ◌∷◌,
  arith, All, All-map, Bool-cases, ltb, text_eq, eq_iff, is_empty, inl, inr, ◌==◌, if_either,
}
use ai_tts.Segments.{is_word, words, word_count, join, strip, paragraphs, paragraph_segments}
use ai_tts.Segments.Words.{total_words, strip-words, paragraphs-words}
use ai_tts.Segments.Lossless.{paragraph_segments-join}
use ai_tts.Segments.Bounded.{text_take, text_drop}
use ai_tts.Segments.Positions.{inside_at, words_split, slice_words}
use ai_tts.Segments.Sections.{heads, heading_starts, text_slices, with_lead, structural_sections}

line-append : (b : Bool) (q : String) → words b ("\n" ++ q) ≡ word_count q
line-append b q = ap (words b) (cons-append "\n" "" q ∙ ap (String.◌∷◌ "\n") (nil-append q))

break-append : (b : Bool) (q : String) → words b ("\n\n" ++ q) ≡ word_count q
break-append b q = ap (words b) (cons-append "\n" "\n" q) ∙ line-append false q

words-append : (b : Bool) (p q : String) → words b (p ++ "\n\n" ++ q) ≡ words b p + word_count q
words-append b String.[] q =
    let start : words b ("" ++ "\n\n" ++ q) ≡ word_count q =
      ap (words b) (nil-append ("\n\n" ++ q)) ∙ break-append b q in
    omega (arith, start)
words-append b (String.◌∷◌ c p) q =
    let step = ap (words b) (cons-append c p ("\n\n" ++ q)) in
    let inner = words-append true p q in
    let outer = words-append false p q in
    step ∙ elim (Bool-cases (is_word (code c))) [
      | inl word ↦ rw word (ground (arith, inner))
      | inr apart ↦ rw apart outer
    ]

join-words : (ps : List String) → word_count (join ps) ≡ total_words ps
join-words [] = refl
join-words (p ∷ []) = omega arith
join-words (p ∷ q ∷ ps) =
    words-append false p (join (q ∷ ps)) ∙ ap (λ n. word_count p + n) (join-words (q ∷ ps))

pub paragraph_segments-words :
    (text : String)
    → (segments : List String) × (paragraph_segments text ≡ some segments)
      × (total_words segments ≡ word_count text)
paragraph_segments-words text =
    let (segments, e, same) = paragraph_segments-join text in
    (
      segments,
      e,
      elim same [
        | inl whole ↦ rw whole (omega arith)
        | inr joined ↦
            sym (join-words segments)
            ∙ ap word_count joined
            ∙ join-words (paragraphs text)
            ∙ paragraphs-words text
      ],
    )

-- Starts in rising order from `lo` on.
abbrev Rising : ℕ → List ℕ → Type 0
Rising lo [] = Unit
Rising lo (a ∷ starts) = (lo ≤ a) × Rising a starts

lower-Rising : (lo a : ℕ) (starts : List ℕ) → lo ≤ a → Rising a starts → Rising lo starts
lower-Rising lo a [] h r = tt
lower-Rising lo a (b ∷ starts) h (le, r) = (omega arith, r)

text_slices-words :
    (t : String) (a : ℕ) (starts : List ℕ)
    → inside_at false a t ≡ false
    → Rising a starts
    → All (λ b. inside_at false b t ≡ false) starts
    → words false (text_take a t) + total_words (text_slices t (a ∷ starts)) ≡ word_count t
text_slices-words t a [] i r h =
    let split : word_count t ≡ words false (text_take a t) + word_count (text_drop a t) =
      rw i at (words_split false a t) in
    omega (arith, split)
text_slices-words t a (b ∷ starts) i (le, r) (o, h) =
    omega (arith, slice_words t a b le i, text_slices-words t b starts o r h)

-- A position at a distance from `i`, not inside of a word of what follows there.
abbrev Apart : ℕ → Bool → String → ℕ → Type 0
Apart i b s a = (n : ℕ) × (a ≡ i + n) × (inside_at b n s ≡ false)

heading_starts-Apart :
    (i : ℕ) (b fresh : Bool) (s : String)
    → (fresh ≡ true → b ≡ false)
    → All (Apart i b s) (heading_starts i fresh s)
heading_starts-Apart i b fresh String.[] h = tt
heading_starts-Apart i b fresh (String.◌∷◌ c s) h =
    let later : All (Apart i b (String.◌∷◌ c s)) (heading_starts (suc i) (code c == 10) s) =
      All-map (Apart (suc i) (is_word (code c)) s) (Apart i b (String.◌∷◌ c s))
        (heading_starts (suc i) (code c == 10) s) (λ a (n, e, o). (suc n, omega (arith, e), o))
        (heading_starts-Apart (suc i) (is_word (code c)) (code c == 10) s
          (λ line. ground (arith, line))) in
    if_either (All (Apart i b (String.◌∷◌ c s))) (fresh && heads 3 (String.◌∷◌ c s))
      (i ∷ heading_starts (suc i) (code c == 10) s) (heading_starts (suc i) (code c == 10) s)
      (λ e. ((0, omega arith, h (ground (arith, e))), later)) (λ e. later)

heading_starts-Rising : (i : ℕ) (fresh : Bool) (s : String) → Rising i (heading_starts i fresh s)
heading_starts-Rising i fresh String.[] = tt
heading_starts-Rising i fresh (String.◌∷◌ c s) =
    let rest = heading_starts (suc i) (code c == 10) s in
    let later : Rising i rest =
      lower-Rising i (suc i) rest (omega arith) (heading_starts-Rising (suc i) (code c == 10) s) in
    if_either (Rising i) (fresh && heads 3 (String.◌∷◌ c s)) (i ∷ rest) rest
      (λ e. (omega arith, later)) (λ e. later)

with_lead-words :
    (t : String) (starts : List ℕ)
    → Rising 0 starts
    → All (λ b. inside_at false b t ≡ false) starts
    → is_empty starts ≡ false
    → total_words (text_slices t (with_lead t starts)) ≡ word_count t
with_lead-words t [] r h e = absurd (ground arith)
with_lead-words t (a ∷ starts) (le, r) (o, h) e =
    let all = text_slices-words t a starts o r h in
    let same = strip-words (text_take a t) in
    elim (Bool-cases (ltb 0 a)) [
      | inr first ↦
          let zero_start : a ≡ 0 = ground (arith, first) in
          let none_left : words false (text_take a t) ≡ 0 = rw zero_start refl in
          rw first (omega (arith, all, none_left))
      | inl behind ↦ elim (Bool-cases (text_eq (strip (text_take a t)) "")) [
        | inl blank ↦
            let gone = (eq_iff (strip (text_take a t)) "").0 blank in
            let none_left : 0 ≡ word_count (text_take a t) = rw gone at same in
            rw (behind, blank) (omega (arith, all, none_left))
        | inr lead ↦
            rw (behind, lead)
              (omega (arith, text_slices-words t 0 (a ∷ starts) refl (omega arith, r) (o, h)))
      ]
    ]

pub structural_sections-words :
    (text : String) → total_words (structural_sections text) ≡ word_count text
unfolding structural_sections
structural_sections-words text =
    let starts = heading_starts 0 true text in
    elim (Bool-cases (is_empty starts)) [
      | inl plain ↦ rw plain (omega arith)
      | inr headed ↦ rw headed (
          with_lead-words text starts (heading_starts-Rising 0 true text)
            (All-map (Apart 0 false text) (λ b. inside_at false b text ≡ false) starts
              (λ b (n, e, o). let same : b ≡ n = omega (arith, e) in rw same o)
              (heading_starts-Apart 0 false true text (λ e. refl)))
            headed)
    ]
