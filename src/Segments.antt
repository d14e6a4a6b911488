-- ===== src/Segments.antt =====
-- src/aitts/segmentation.py: the paragraphs of a text and the segments that they are grouped into.
-- The regular expressions are scanners over the characters; the text itself is a `String`.
pub mod Words
pub mod Lossless
pub mod Bounded
pub mod Positions
pub mod Bounds
pub mod Sections
pub mod Joined
pub mod Whole
pub mod Spoken
pub mod Blocks
pub mod Markdown
pub mod Prepare
use Prim.Native.Char.{Char, code}
use Prim.Native.String.{◌++◌}
use ai_tts.Common.{
  ℕ, zero, suc, ◌+◌, Bool, true, false, ◌&&◌, ◌||◌, not, String, Option, none, some, List, [], ◌∷◌,
  map, length, is_empty, is_space, leb, ltb, text_eq, ◌==◌, if◌then◌else◌,
}
use mathlib.Core.List.{◌++◌ as append}
use ai_tts.Common.Table.{select_where}

abbrev pub paragraph_document_min_words : ℕ
paragraph_document_min_words = 60

abbrev pub paragraph_segment_min_words : ℕ
paragraph_segment_min_words = 20

-- `[A-Za-z0-9]`.
abbrev pub is_word : ℕ → Bool
is_word c = (leb b'0' c && leb c b'9') || (leb b'A' c && leb c b'Z') || (leb b'a' c && leb c b'z')

-- The matches of `[A-Za-z0-9]+` in a text; `inside` tells that the character before was in one.
abbrev pub words : Bool → String → ℕ
words inside String.[] = 0
words inside (String.◌∷◌ c s) =
    let after = words true s in
    let apart = words false s in
    if is_word (code c) then (if inside then after else suc after) else apart

abbrev pub word_count : String → ℕ
word_count s = words false s

-- The length of a match of `\r?\n` at the head of a text.
abbrev pub line_break : String → Option ℕ
line_break (String.◌∷◌ c (String.◌∷◌ d s)) =
    if code c == 10 then some 1 else if code c == 13 && code d == 10 then some 2 else none
line_break (String.◌∷◌ c String.[]) = if code c == 10 then some 1 else none
line_break String.[] = none

abbrev pub longer : ℕ → Option ℕ → Option ℕ
longer k none = none
longer k (some n) = some (k + n)

-- The length of a match of `[ \t]*\r?\n`.
abbrev pub blank_line : String → Option ℕ
blank_line String.[] = none
blank_line (String.◌∷◌ c s) =
    let rest = blank_line s in
    if code c == 32 || code c == 9 then longer 1 rest else line_break (String.◌∷◌ c s)

abbrev pub after_return : String → Option ℕ
after_return (String.◌∷◌ d t) = if code d == 10 then longer 2 (blank_line t) else none
after_return String.[] = none

-- The length of a match of `\r?\n[ \t]*\r?\n`.
unfoldable pub paragraph_break : String → Option ℕ
paragraph_break String.[] = none
paragraph_break (String.◌∷◌ c s) =
    if code c == 10 then longer 1 (blank_line s) else if code c == 13 then after_return s else none

abbrev pub attach : Char → List String → List String
attach c [] = String.◌∷◌ c String.[] ∷ []
attach c (p ∷ ps) = String.◌∷◌ c p ∷ ps

abbrev pub one_less : ℕ → ℕ
one_less zero = zero
one_less (suc n) = n

-- A character at which no match begins joins the piece; a match of `n` characters ends it.
abbrev pub cut : Char → Option ℕ → List String → (ℕ → List String) → List String
cut c none apart after = attach c apart
cut c (some n) apart after = "" ∷ after n

-- `_PARAGRAPH_BREAK.split(text)`; `skip` characters of a match remain to be passed over.
unfoldable pub split_from : ℕ → String → List String
split_from skip String.[] = "" ∷ []
split_from (suc k) (String.◌∷◌ c s) = split_from k s
split_from zero (String.◌∷◌ c s) =
    cut c (paragraph_break (String.◌∷◌ c s)) (split_from 0 s) (λ n. split_from (one_less n) s)

-- `str.strip()`.
abbrev pub strip_left : String → String
strip_left String.[] = ""
strip_left (String.◌∷◌ c s) =
    let rest = strip_left s in if is_space (code c) then rest else String.◌∷◌ c s

abbrev pub strip_right : String → String
strip_right String.[] = ""
strip_right (String.◌∷◌ c s) =
    let rest = strip_right s in
    if is_space (code c) && text_eq rest "" then "" else String.◌∷◌ c rest

abbrev pub strip : String → String
strip s = strip_right (strip_left s)

-- `[part.strip() for part in parts if part.strip()]`.
abbrev pub stripped_parts : List String → List String
stripped_parts [] = []
stripped_parts (p ∷ ps) =
    let rest = stripped_parts ps in let t = strip p in if text_eq t "" then rest else t ∷ rest

unfoldable pub paragraphs : String → List String
unfolding split_from
paragraphs text = stripped_parts (split_from 0 text)

-- `"\n\n".join(parts)`.
abbrev pub join : List String → String
join [] = ""
join (p ∷ []) = p
join (p ∷ q ∷ ps) = p ++ "\n\n" ++ join (q ∷ ps)

pub record Grouping : Type 0 where
  pub result : List String
  pub pending : List String
  pub pending_words : ℕ

-- The body of the loop over the paragraphs.
unfoldable pub add_paragraph : String → Grouping → Grouping
add_paragraph p g =
    let pending = append g.pending (p ∷ []) in
    let n = g.pending_words + word_count p in
    if leb paragraph_segment_min_words n
    then record { result = append g.result (join pending ∷ []); pending = []; pending_words = 0 }
    else record g { pending = pending; pending_words = n }

abbrev pub group : List String → Grouping → Grouping
group [] g = g
group (p ∷ ps) g = group ps (add_paragraph p g)

-- `result[-1] += more`, an IndexError on an empty list.
abbrev pub extend_last : String → List String → Option (List String)
extend_last more [] = none
extend_last more (r ∷ []) = some ((r ++ more) ∷ [])
extend_last more (r ∷ s ∷ rs) = elim (extend_last more (s ∷ rs)) [
  | none ↦ none
  | some ts ↦ some (r ∷ ts)
]

unfoldable pub close_group : Grouping → Option (List String)
close_group g =
    if is_empty g.pending then some g.result else extend_last ("\n\n" ++ join g.pending) g.result

abbrev pub no_groups : Grouping
no_groups = record { result = []; pending = []; pending_words = 0 }

abbrev pub several : String → Option (List String) → Option (List String)
several text none = none
several text (some rs) = some (if ltb 1 (length rs) then rs else text ∷ [])

-- `_paragraph_segments`, none of an IndexError.
unfoldable pub paragraph_segments : String → Option (List String)
paragraph_segments text =
    if ltb (word_count text) paragraph_document_min_words
    then some (text ∷ [])
    else if leb (length (paragraphs text)) 1
    then some (text ∷ [])
    else several text (close_group (group (paragraphs text) no_groups))
