-- ===== src/Segments/Whole.antt =====
-- What `segment_text` and `_structural_sections` of src/aitts/segmentation.py keep of a whole text.
use mathlib.Core.List.{◌++◌ as append}
use ai_tts.Common.{
  ℕ, ◌+◌, ◌≤◌, ◌<◌, ◌≡◌, refl, ap, ◌∙◌, not, String, Option, some, List, [], ◌∷◌, arith, All,
  Bool-cases, leb, text_eq, eq_iff, inl, inr,
}
use ai_tts.Common.Table.{select_where}
use ai_tts.Common.Sorting.{All-select_where}
use ai_tts.Segments.{word_count, paragraph_segments}
use ai_tts.Segments.Words.{total_words}
use ai_tts.Segments.Bounded.{max_segment_words, target_segment_words, bounded_segments}
use ai_tts.Segments.Bounds.{bounded_segments-total}
use ai_tts.Segments.Sections.{
  structural_sections, gather, gather_some, kept, or_whole, segment_text,
}
use ai_tts.Segments.Joined.{paragraph_segments-words, structural_sections-words}

-- A list of segments that fit, with as many words as `n`.
abbrev Fitting : ℕ → Option (List String) → Type 0
Fitting n result =
    (segments : List String) × (result ≡ some segments)
    × All (λ g. word_count g ≤ max_segment_words) segments
    × (total_words segments ≡ n)

total_words-append :
    (xs ys : List String) → total_words (append xs ys) ≡ total_words xs + total_words ys
total_words-append [] ys = omega arith
total_words-append (x ∷ xs) ys = omega (arith, total_words-append xs ys)

pub All-append :
    {A : Type 0} (P : A → Type 0) (xs ys : List A) → All P xs → All P ys → All P (append xs ys)
All-append P [] ys h k = k
All-append P (x ∷ xs) ys h k = (h.0, All-append P xs ys h.1 k)

gather-Fitting :
    (f : String → Option (List String)) (xs : List String)
    → ((x : String) → Fitting (word_count x) (f x))
    → Fitting (total_words xs) (gather f xs)
gather-Fitting f [] h = ([], refl, tt, refl)
gather-Fitting f (x ∷ xs) h =
    let (gs, e, fits, total) = h x in
    let (rest, r, others, sum) = gather-Fitting f xs h in
    (
      append gs rest,
      rw (e, r) refl,
      All-append (λ g. word_count g ≤ max_segment_words) gs rest fits others,
      omega (arith, total_words-append gs rest, total, sum),
    )

kept-words :
    (xs : List String) → total_words (select_where (λ s. not (text_eq s "")) xs) ≡ total_words xs
kept-words [] = refl
kept-words (x ∷ xs) = elim (Bool-cases (text_eq x "")) [
  | inl blank ↦
      let e = (eq_iff x "").0 blank in
      let none_left : word_count x ≡ 0 = rw e refl in
      rw blank (omega (arith, none_left, kept-words xs))
  | inr full ↦ rw full (ap (λ n. word_count x + n) (kept-words xs))
]

kept-Fitting : (n : ℕ) (o : Option (List String)) → Fitting n o → Fitting n (kept o)
kept-Fitting n o (gs, e, fits, total) = (
  select_where (λ s. not (text_eq s "")) gs,
  rw e refl,
  All-select_where (λ s. not (text_eq s "")) (λ g. word_count g ≤ max_segment_words) gs fits,
  kept-words gs ∙ total,
)

few_words : (n : ℕ) (xs : List String) → total_words xs ≤ n → All (λ g. word_count g ≤ n) xs
few_words n [] h = tt
few_words n (x ∷ xs) h = (omega arith, few_words n xs (omega arith))

or_whole-Fitting :
    (text : String) (o : Option (List String))
    → target_segment_words < word_count text
    → Fitting (word_count text) o
    → Fitting (word_count text) (or_whole text o)
or_whole-Fitting text o h ([], e, fits, total) = absurd (omega arith)
or_whole-Fitting text o h (g ∷ gs, e, fits, total) = (g ∷ gs, rw e refl, fits, total)

section-Fitting :
    (section : String)
    → Fitting
        (word_count section)
        (gather_some (λ paragraph. kept (bounded_segments paragraph)) (paragraph_segments section))
section-Fitting section =
    let (ps, e, total) = paragraph_segments-words section in
    let all =
      gather-Fitting (λ paragraph. kept (bounded_segments paragraph)) ps
        (λ p. kept-Fitting (word_count p) (bounded_segments p) (bounded_segments-total p)) in
    rw e (rw total at all)

-- `segment_text` ends without an exception on every text: it gives segments of at most 220 words,
-- and together they have as many words as the text.
pub segment_text-total :
    (text : String)
    → (segments : List String) × (segment_text text ≡ some segments)
      × All (λ g. word_count g ≤ max_segment_words) segments
      × (total_words segments ≡ word_count text)
unfolding segment_text
segment_text-total text = elim (Bool-cases (leb (word_count text) target_segment_words)) [
  | inl short ↦
      let (gs, e, total) = paragraph_segments-words text in
      rw short (gs, e, few_words max_segment_words gs (ground (arith, short, total)), total)
  | inr long ↦
      let f : String → Option (List String) = λ section.
        gather_some (λ paragraph. kept (bounded_segments paragraph)) (paragraph_segments section) in
      let all = gather-Fitting f (structural_sections text) section-Fitting in
      rw long (
        or_whole-Fitting text (gather f (structural_sections text)) (ground (arith, long))
          (rw (structural_sections-words text) at all))
]
