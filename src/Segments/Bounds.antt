-- ===== src/Segments/Bounds.antt =====
-- What `_bounded_segments` and `_choose_final_word` of src/aitts/segmentation.py promise: the loop
-- ends, and its segments are bounded.
use ai_tts.Common.{
  ℕ, zero, suc, ◌+◌, ◌-◌, ◌≤◌, ◌<◌, ◌≡◌, refl, Bool, ◌&&◌, ◌||◌, String, Option, none, some, List,
  [], ◌∷◌, length, arith, All, leb, ltb, text_eq, eq_iff, Bool-cases, if_either, inl, inr, min,
  ◌==◌,
}
use ai_tts.Segments.{word_count, strip}
use ai_tts.Segments.Words.{total_words, strip-words}
use ai_tts.Segments.Bounded.{
  target_segment_words, max_segment_words, min_boundary_words, text_drop, text_slice, Match,
  matches, nth_match, closer, distance, is_boundary, nearest_boundary, breaks_paragraph,
  breaks_sentence, or_index, choose_final_word, prepend, cut_at, bounded_from, bounded_segments,
}
use ai_tts.Segments.Positions.{
  Before, Before-rest, Before-slice, match-Before, length-matches, nth_match-some,
}

-- An index, if there is one, is at least `lo` and less than `hi`.
abbrev Within : ℕ → ℕ → Option ℕ → Type 0
Within lo hi none = Unit
Within lo hi (some i) = (lo ≤ i) × (i < hi)

closer-Within :
    (target lo hi a : ℕ) (o : Option ℕ)
    → lo ≤ a
    → a < hi
    → Within lo hi o
    → Within lo hi (closer target a o)
closer-Within target lo hi a none h k w = (h, k)
closer-Within target lo hi a (some b) h k w =
    if_either (Within lo hi)
      (ltb (distance b target) (distance a target)
        || (distance a target == distance b target && ltb b a))
      (some b) (some a) (λ e. w) (λ e. (h, k))

widen-Within : (lo hi : ℕ) (o : Option ℕ) → Within (suc lo) hi o → Within lo hi o
widen-Within lo hi none w = tt
widen-Within lo hi (some i) w = (omega (arith, w), w.1)

nearest_boundary-Within :
    (section : String) (ms : List Match) (target : ℕ) (p : String → Bool) (index n : ℕ)
    → Within index (index + n) (nearest_boundary section ms target p index n)
nearest_boundary-Within section ms target p index zero = tt
nearest_boundary-Within section ms target p index (suc n) =
    let rest = nearest_boundary section ms target p (suc index) n in
    let shift : suc index + n ≡ index + suc n = omega arith in
    let later : Within (suc index) (index + suc n) rest =
      rw shift at (nearest_boundary-Within section ms target p (suc index) n) in
    let wide : Within index (index + suc n) rest = widen-Within index (index + suc n) rest later in
    if_either (Within index (index + suc n)) (is_boundary section ms p index)
      (closer target index rest) rest
      (λ e. closer-Within target index (index + suc n) index rest (omega arith) (omega arith) wide)
      (λ e. wide)

or_index-Within :
    (lo hi : ℕ) (o : Option ℕ) (d : ℕ)
    → Within lo hi o
    → lo ≤ d
    → d < hi
    → (lo ≤ or_index o d) × (or_index o d < hi)
or_index-Within lo hi none d w h k = (h, k)
or_index-Within lo hi (some i) d w h k = w

chosen-within :
    (section : String) (ms : List Match) (target minimum n : ℕ)
    → minimum ≤ target
    → target < minimum + n
    → let paragraph = nearest_boundary section ms target breaks_paragraph minimum n in
      let sentence = nearest_boundary section ms target breaks_sentence minimum n in
      let final_word = or_index paragraph (or_index sentence target) in
      (minimum ≤ final_word) × (final_word < minimum + n)
chosen-within section ms target minimum n h k =
    let paragraph = nearest_boundary section ms target breaks_paragraph minimum n in
    let sentence = nearest_boundary section ms target breaks_sentence minimum n in
    let (a, b) =
      or_index-Within minimum (minimum + n) sentence target
        (nearest_boundary-Within section ms target breaks_sentence minimum n) h k in
    or_index-Within minimum (minimum + n) paragraph (or_index sentence target)
      (nearest_boundary-Within section ms target breaks_paragraph minimum n) a b

-- When more than 220 words remain, a segment takes at least 90 of them and at most 220.
pub choose_final_word-within :
    (section : String) (ms : List Match) (first_word : ℕ)
    → max_segment_words < length ms - first_word
    → (first_word + min_boundary_words ≤ choose_final_word section ms first_word)
      × (choose_final_word section ms first_word ≤ first_word + max_segment_words)
unfolding choose_final_word
choose_final_word-within section ms first_word h =
    let target = min (first_word + target_segment_words) (length ms) in
    let maximum = min (first_word + max_segment_words) (length ms) in
    let minimum = min (first_word + min_boundary_words) target in
    let (a, b) =
      chosen-within section ms target minimum (suc maximum - minimum) (omega arith) (omega arith) in
    (omega (arith, a), omega (arith, b))

-- The segments of what is left of a section when `passed` words of it are gone.
abbrev Bounded : ℕ → ℕ → Option (List String) → Type 0
Bounded passed all result =
    (segments : List String) × (result ≡ some segments)
    × All (λ g. word_count g ≤ max_segment_words) segments
    × (passed + total_words segments ≡ all)

prepend-Bounded :
    (g : String) (passed k all : ℕ) (o : Option (List String))
    → word_count g ≤ max_segment_words
    → passed + word_count g ≡ k
    → Bounded k all o
    → Bounded passed all (prepend g o)
prepend-Bounded g passed k all o h e (gs, r, bounds, total) =
    (g ∷ gs, rw r refl, (h, bounds), omega (arith, e, total))

-- One segment is cut off at a later word, and the rest of the section is segmented from there.
cut_at-Bounded :
    (section : String) (j k a : ℕ) (go : ℕ → Option (List String))
    → Before section j a
    → j < k
    → k ≤ j + max_segment_words
    → k < word_count section
    → ((b : ℕ) → Before section k b → Bounded k (word_count section) (go b))
    → Bounded j (word_count section) (cut_at section a (nth_match k (matches section)) go)
cut_at-Bounded section j k a go at h bound inside further =
    let n = length-matches section in
    let (m, e) = nth_match-some k (matches section) (omega (arith, n)) in
    let there = match-Before section k m e in
    let cut = Before-slice section j k a m.start at there h in
    let same = strip-words (text_slice a m.start section) in
    rw e (
      prepend-Bounded (strip (text_slice a m.start section)) j k (word_count section) (go m.start)
        (omega (arith, cut, same)) (omega (arith, cut, same)) (further m.start there))

bounded_from-Bounded :
    (fuel : ℕ) (section : String) (first_word first_character : ℕ)
    → Before section first_word first_character
    → word_count section < first_word + fuel
    → Bounded first_word (word_count section) (bounded_from fuel section first_word first_character)
unfolding bounded_from
bounded_from-Bounded zero section first_word first_character at enough =
    absurd (omega (arith, Before-rest section first_word first_character at))
bounded_from-Bounded (suc fuel) section first_word first_character at enough =
    let ms = matches section in
    let n = length-matches section in
    let rest = Before-rest section first_word first_character at in
    let final_word = choose_final_word section ms first_word in
    elim (Bool-cases (ltb first_word (length ms))) [
      | inr over ↦ rw over ([], refl, tt, ground (arith, over, n, rest))
      | inl more ↦ elim (Bool-cases (leb (length ms - first_word) max_segment_words)) [
        | inl last ↦
            let text = text_drop first_character section in
            let same = strip-words text in
            rw (more, last)
              (
                strip text ∷ [],
                refl,
                (ground (arith, last, n, rest, same), tt),
                omega (arith, rest, same),
              )
        | inr many ↦
            let left : max_segment_words < length ms - first_word = ground (arith, many) in
            let (low, high) = choose_final_word-within section ms first_word left in
            rw (more, many)
              (cut_at-Bounded section first_word final_word first_character
                (λ character. bounded_from fuel section final_word character) at
                (omega (arith, low)) high (omega (arith, left, high, n))
                (λ b there.
                  bounded_from-Bounded fuel section final_word b there (omega (arith, low))))
      ]
    ]

-- `_bounded_segments` ends without an error on every section: no segment has more than 220 words,
-- and together they have as many words as the section.
pub bounded_segments-total :
    (section : String)
    → (segments : List String) × (bounded_segments section ≡ some segments)
      × All (λ g. word_count g ≤ max_segment_words) segments
      × (total_words segments ≡ word_count section)
unfolding bounded_segments
bounded_segments-total section =
    let n = length-matches section in
    let same = strip-words section in
    elim (Bool-cases (leb (length (matches section)) target_segment_words)) [
      | inl short ↦ elim (Bool-cases (text_eq (strip section) "")) [
        | inl blank ↦
            let e = (eq_iff (strip section) "").0 blank in
            let none_left : 0 ≡ word_count section = rw e at same in
            rw (short, blank) ([], refl, tt, none_left)
        | inr kept ↦
            rw (short, kept)
              (strip section ∷ [], refl, (ground (arith, short, n, same), tt), omega (arith, same))
      ]
      | inr long ↦
          let (gs, e, bounds, total) =
            bounded_from-Bounded (suc (length (matches section))) section 0 0 (refl, refl)
              (omega (arith, n)) in
          rw (long, e) (gs, refl, bounds, omega (arith, total))
    ]
