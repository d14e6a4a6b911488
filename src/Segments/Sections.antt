-- ===== src/Segments/Sections.antt =====
-- The sections of a long text and the segments of a whole text in src/aitts/segmentation.py:
-- `_structural_sections` and `segment_text`. The regular expression of a heading is a scanner.
use Prim.Native.Char.{Char, code}
use ai_tts.Common.{
  ℕ, zero, suc, Bool, true, false, ◌&&◌, ◌||◌, not, String, Option, none, some, List, [], ◌∷◌,
  is_empty, leb, ltb, text_eq, ◌==◌, if◌then◌else◌,
}
use mathlib.Core.List.{◌++◌}
use ai_tts.Common.Table.{select_where}
use ai_tts.Segments.{word_count, strip, paragraph_segments}
use ai_tts.Segments.Bounded.{
  target_segment_words, text_take, text_drop, text_slice, bounded_segments,
}

-- `[ \t]`.
abbrev pub is_blank_char : Char → Bool
is_blank_char c = code c == 32 || code c == 9

-- `#{0,n}[ \t]`.
abbrev pub ends_heading : ℕ → String → Bool
ends_heading n String.[] = false
ends_heading zero (String.◌∷◌ c s) = is_blank_char c
ends_heading (suc n) (String.◌∷◌ c s) = is_blank_char c || (code c == b'#' && ends_heading n s)

-- `[ \t]{0,n}#{1,6}[ \t]`.
abbrev pub heads : ℕ → String → Bool
heads n String.[] = false
heads zero (String.◌∷◌ c s) = code c == b'#' && ends_heading 5 s
heads (suc n) (String.◌∷◌ c s) =
    (code c == b'#' && ends_heading 5 s) || (is_blank_char c && heads n s)

-- Where `_MARKDOWN_HEADING` matches, from the character at `i` on; `fresh` tells that a line begins.
abbrev pub heading_starts : ℕ → Bool → String → List ℕ
heading_starts i fresh String.[] = []
heading_starts i fresh (String.◌∷◌ c s) =
    let rest = heading_starts (suc i) (code c == 10) s in
    if fresh && heads 3 (String.◌∷◌ c s) then i ∷ rest else rest

-- `text[start:end]` for each start and the next one, or the end of the text.
abbrev pub text_slices : String → List ℕ → List String
text_slices text [] = []
text_slices text (a ∷ []) = text_drop a text ∷ []
text_slices text (a ∷ b ∷ starts) = text_slice a b text ∷ text_slices text (b ∷ starts)

abbrev pub with_lead : String → List ℕ → List ℕ
with_lead text [] = []
with_lead text (a ∷ starts) =
    if ltb 0 a && not (text_eq (strip (text_take a text)) "") then 0 ∷ a ∷ starts else a ∷ starts

unfoldable pub structural_sections : String → List String
structural_sections text =
    let starts = heading_starts 0 true text in
    if is_empty starts then text ∷ [] else text_slices text (with_lead text starts)

-- The nested loops of a generator, each of which may fail.
abbrev pub both_lists : Option (List String) → Option (List String) → Option (List String)
both_lists none rest = none
both_lists (some xs) none = none
both_lists (some xs) (some ys) = some (xs ++ ys)

abbrev pub gather : (String → Option (List String)) → List String → Option (List String)
gather f [] = some []
gather f (x ∷ xs) = both_lists (f x) (gather f xs)

abbrev pub gather_some :
    (String → Option (List String)) → Option (List String) → Option (List String)
gather_some f none = none
gather_some f (some xs) = gather f xs

-- `if segment`.
abbrev pub kept : Option (List String) → Option (List String)
kept none = none
kept (some xs) = some (select_where (λ s. not (text_eq s "")) xs)

abbrev pub or_whole : String → Option (List String) → Option (List String)
or_whole text none = none
or_whole text (some xs) = some (if is_empty xs then text ∷ [] else xs)

unfoldable pub segment_text : String → Option (List String)
segment_text text =
    let long =
      gather
        (λ section.
          gather_some (λ paragraph. kept (bounded_segments paragraph)) (paragraph_segments section))
        (structural_sections text) in
    if leb (word_count text) target_segment_words
    then paragraph_segments text
    else or_whole text long
