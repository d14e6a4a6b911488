-- ===== src/Segments/Prepare.antt =====
-- `prepare_speech_segments` of src/aitts/segmentation.py, with the front matter that it drops.
use Prim.Native.Char.{Char, code}
use Prim.Native.String.{◌++◌}
use mathlib.Core.List.{◌++◌ as append}
use ai_tts.Common.{
  ℕ, ◌≤◌, ◌≡◌, refl, Bool, true, false, not, ◌&&◌, ◌||◌, String, Option, none, some, List, [], ◌∷◌,
  All, leb, mem_text, text_eq, Bool-cases, inl, inr, ◌==◌, if◌then◌else◌,
}
use ai_tts.Common.Table.{select_where}
use ai_tts.Common.Sorting.{All-select_where}
use ai_tts.Model.{ContentFormat}
use ai_tts.Segments.{word_count, attach, strip}
use ai_tts.Segments.Bounded.{max_segment_words}
use ai_tts.Segments.Sections.{gather, segment_text}
use ai_tts.Segments.Whole.{All-append, segment_text-total}
use ai_tts.Segments.Spoken.{heads_with, clean_spoken_text}
use ai_tts.Segments.Blocks.{Nodes, is_plain_text_tree, audible}
use ai_tts.Segments.Markdown.{sections_of, segment_body}

-- The characters at which `str.splitlines` ends a line.
abbrev pub is_line_end : ℕ → Bool
is_line_end c =
    (leb 10 c && leb c 13) || (leb 28 c && leb c 30) || c == 0x85 || c == 0x2028 || c == 0x2029

-- `text.splitlines(keepends=True)`; a carriage return and a line feed are one end.
abbrev pub split_lines : String → List String
split_lines String.[] = []
split_lines (String.◌∷◌ c s) =
    let rest = split_lines s in
    if is_line_end (code c) && not (code c == 13 && heads_with (λ d. d == 10) s)
    then String.◌∷◌ c "" ∷ rest
    else attach c rest

-- `text.lstrip(chars)`, for a test of the characters.
abbrev pub strip_leading : (ℕ → Bool) → String → String
strip_leading p String.[] = ""
strip_leading p (String.◌∷◌ c s) =
    let rest = strip_leading p s in if p (code c) then rest else String.◌∷◌ c s

abbrev pub concat : List String → String
concat [] = ""
concat (l ∷ ls) = l ++ concat ls

-- The loop over the lines after the first fence.
abbrev pub after_fence : String → List String → String
after_fence text [] = text
after_fence text (l ∷ ls) =
    let rest = after_fence text ls in
    if mem_text (strip l) ("---" ∷ "..." ∷ [])
    then strip_leading (λ c. c == 13 || c == 10) (concat ls)
    else rest

abbrev pub drop_fence : String → List String → String
drop_fence text [] = text
drop_fence text (l ∷ ls) =
    if text_eq (strip (strip_leading (λ c. c == 0xfeff) l)) "---" then after_fence text ls else text

unfoldable pub without_front_matter : String → String
without_front_matter text = drop_fence text (split_lines text)

abbrev pub is_plain_format : Option ContentFormat → Bool
is_plain_format none = false
is_plain_format (some ContentFormat.plain_text) = true
is_plain_format (some ContentFormat.markdown) = false

unfoldable pub prepare_speech_segments :
    (Char → Bool) → (String → Nodes) → String → Option ContentFormat → Option (List String)
prepare_speech_segments is_alpha parse text content_format =
    if is_plain_format content_format
    then segment_text text
    else segment_body is_alpha parse (without_front_matter text)

-- A list of segments that fit.
abbrev Fits : Option (List String) → Type 0
Fits result =
    (segments : List String) × (result ≡ some segments)
    × All (λ g. word_count g ≤ max_segment_words) segments

segment_text-Fits : (text : String) → Fits (segment_text text)
segment_text-Fits text = let (gs, e, fits, _) = segment_text-total text in (gs, e, fits)

audible-Fits : (o : Option (List String)) → Fits o → Fits (audible o)
audible-Fits o (gs, e, fits) = (
  select_where (λ s. not (text_eq (strip s) "")) gs,
  rw e refl,
  All-select_where (λ s. not (text_eq (strip s) "")) (λ g. word_count g ≤ max_segment_words) gs
      fits,
)

gather-Fits :
    (f : String → Option (List String)) (xs : List String)
    → ((x : String) → Fits (f x))
    → Fits (gather f xs)
gather-Fits f [] h = ([], refl, tt)
gather-Fits f (x ∷ xs) h =
    let (gs, e, fits) = h x in
    let (rest, r, others) = gather-Fits f xs h in
    (
      append gs rest,
      rw (e, r) refl,
      All-append (λ g. word_count g ≤ max_segment_words) gs rest fits others,
    )

segment_body-Fits :
    (is_alpha : Char → Bool) (parse : String → Nodes) (body : String)
    → Fits (segment_body is_alpha parse body)
segment_body-Fits is_alpha parse body = elim (Bool-cases (is_plain_text_tree (parse body))) [
  | inl plain ↦ rw plain (segment_text-Fits (clean_spoken_text is_alpha body))
  | inr rich ↦ rw rich (
      gather-Fits (λ s. audible (segment_text s)) (sections_of is_alpha (parse body))
        (λ s. audible-Fits (segment_text s) (segment_text-Fits s)))
]

-- Whatever tree the parser gives and whatever the format is, a submission is prepared without an
-- exception, and no segment of it has more than 220 words.
pub prepare_speech_segments-total :
    (is_alpha : Char → Bool) (parse : String → Nodes) (text : String)
    (content_format : Option ContentFormat)
    → (segments : List String) × (prepare_speech_segments is_alpha parse text content_format
        ≡ some segments)
      × All (λ g. word_count g ≤ max_segment_words) segments
unfolding prepare_speech_segments
prepare_speech_segments-total is_alpha parse text content_format =
    elim (Bool-cases (is_plain_format content_format)) [
      | inl plain ↦ rw plain (segment_text-Fits text)
      | inr marked ↦ rw marked (segment_body-Fits is_alpha parse (without_front_matter text))
    ]
