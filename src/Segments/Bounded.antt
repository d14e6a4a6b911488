-- ===== src/Segments/Bounded.antt =====
-- The bounded segments of a long section in src/aitts/segmentation.py: `_bounded_segments`,
-- `_choose_final_word` and `_nearest_boundary`. An index that is out of range is an IndexError, and so
-- the result none; the loop runs on fuel, and none is also what it gives if the fuel runs out.
use Prim.Native.Char.{code}
use ai_tts.Common.{
  ℕ, zero, suc, ◌+◌, ◌-◌, min, Bool, false, ◌&&◌, ◌||◌, not, String, Option, none, some, List, [],
  ◌∷◌, length, is_some, is_space, text_eq, leb, ltb, ◌==◌, if◌then◌else◌,
}
use ai_tts.Segments.{is_word, paragraph_break, strip}

abbrev pub target_segment_words : ℕ
target_segment_words = 180

abbrev pub max_segment_words : ℕ
max_segment_words = 220

abbrev pub min_boundary_words : ℕ
min_boundary_words = 90

-- `text[:n]`, `text[n:]` and `text[a:b]`.
abbrev pub text_take : ℕ → String → String
text_take zero s = ""
text_take (suc n) String.[] = ""
text_take (suc n) (String.◌∷◌ c s) = String.◌∷◌ c (text_take n s)

abbrev pub text_drop : ℕ → String → String
text_drop zero s = s
text_drop (suc n) String.[] = ""
text_drop (suc n) (String.◌∷◌ c s) = text_drop n s

abbrev pub text_slice : ℕ → ℕ → String → String
text_slice a b s = text_drop a (text_take b s)

pub record Match : Type 0 where
  pub start : ℕ
  pub end : ℕ

-- `_WORD.finditer`, from the character at `i` on; `begun` is where the word began that it stands in.
abbrev pub matches_from : ℕ → Option ℕ → String → List Match
matches_from i none String.[] = []
matches_from i (some b) String.[] = record { start = b; end = i } ∷ []
matches_from i none (String.◌∷◌ c s) =
    let inside = matches_from (suc i) (some i) s in
    let outside = matches_from (suc i) none s in if is_word (code c) then inside else outside
matches_from i (some b) (String.◌∷◌ c s) =
    let inside = matches_from (suc i) (some b) s in
    let outside = matches_from (suc i) none s in
    if is_word (code c) then inside else record { start = b; end = i } ∷ outside

abbrev pub matches : String → List Match
matches s = matches_from 0 none s

abbrev pub nth_match : ℕ → List Match → Option Match
nth_match n [] = none
nth_match zero (m ∷ ms) = some m
nth_match (suc n) (m ∷ ms) = nth_match n ms

-- `pattern.search`, for a pattern that tells whether it matches at the head of a text.
abbrev pub searches : (String → Bool) → String → Bool
searches p String.[] = p ""
searches p (String.◌∷◌ c s) = p (String.◌∷◌ c s) || searches p s

abbrev pub breaks_paragraph : String → Bool
breaks_paragraph s = is_some (paragraph_break s)

-- `[\]\)\"']*\s`.
abbrev pub closes_sentence : String → Bool
closes_sentence String.[] = false
closes_sentence (String.◌∷◌ c s) =
    let rest = closes_sentence s in
    if code c == b']' || code c == b')' || code c == b'"' || code c == b'\''
    then rest
    else is_space (code c)

-- `[.!?](?:[\]\)\"']*)\s`.
abbrev pub breaks_sentence : String → Bool
breaks_sentence String.[] = false
breaks_sentence (String.◌∷◌ c s) =
    (code c == b'.' || code c == b'!' || code c == b'?') && closes_sentence s

-- What stands between the word before `index` and the word at `index`.
abbrev pub gap_between : String → Option Match → Option Match → Option String
gap_between section (some before) (some after) = some (text_slice before.end after.start section)
gap_between section none after = none
gap_between section (some before) none = none

abbrev pub is_break : (String → Bool) → Option String → Bool
is_break p none = false
is_break p (some gap) = searches p gap

abbrev pub is_boundary : String → List Match → (String → Bool) → ℕ → Bool
is_boundary section ms p index =
    ltb index (length ms)
    && is_break p (gap_between section (nth_match (index - 1) ms) (nth_match index ms))

abbrev pub distance : ℕ → ℕ → ℕ
distance a b = (a - b) + (b - a)

-- `min` by the key `(abs(index - target), index)`.
abbrev pub closer : ℕ → ℕ → Option ℕ → Option ℕ
closer target a none = some a
closer target a (some b) =
    if ltb (distance b target) (distance a target)
      || (distance a target == distance b target && ltb b a)
    then some b
    else some a

-- `_nearest_boundary` over the `n` indices from `index` on.
abbrev pub nearest_boundary : String → List Match → ℕ → (String → Bool) → ℕ → ℕ → Option ℕ
nearest_boundary section ms target p index zero = none
nearest_boundary section ms target p index (suc n) =
    let rest = nearest_boundary section ms target p (suc index) n in
    if is_boundary section ms p index then closer target index rest else rest

abbrev pub or_index : Option ℕ → ℕ → ℕ
or_index none default = default
or_index (some i) default = i

unfoldable pub choose_final_word : String → List Match → ℕ → ℕ
choose_final_word section ms first_word =
    let target = min (first_word + target_segment_words) (length ms) in
    let maximum = min (first_word + max_segment_words) (length ms) in
    let minimum = min (first_word + min_boundary_words) target in
    let n = suc maximum - minimum in
    let paragraph = nearest_boundary section ms target breaks_paragraph minimum n in
    let sentence = nearest_boundary section ms target breaks_sentence minimum n in
    or_index paragraph (or_index sentence target)

-- The loop of `_bounded_segments`, with what it appends to the result.
abbrev pub prepend : String → Option (List String) → Option (List String)
prepend g none = none
prepend g (some gs) = some (g ∷ gs)

abbrev pub cut_at : String → ℕ → Option Match → (ℕ → Option (List String)) → Option (List String)
cut_at section first_character none go = none
cut_at section first_character (some m) go =
    prepend (strip (text_slice first_character m.start section)) (go m.start)

unfoldable pub bounded_from : ℕ → String → ℕ → ℕ → Option (List String)
bounded_from zero section first_word first_character = none
bounded_from (suc fuel) section first_word first_character =
    let ms = matches section in
    let final_word = choose_final_word section ms first_word in
    let next =
      cut_at section first_character (nth_match final_word ms)
        (λ character. bounded_from fuel section final_word character) in
    if not (ltb first_word (length ms))
    then some []
    else if leb (length ms - first_word) max_segment_words
    then some (strip (text_drop first_character section) ∷ [])
    else next

unfoldable pub bounded_segments : String → Option (List String)
bounded_segments section =
    let n = length (matches section) in
    let stripped = strip section in
    if leb n target_segment_words
    then some (if text_eq stripped "" then [] else stripped ∷ [])
    else bounded_from (suc n) section 0 0
