-- ===== src/Segments/Spoken.antt =====
-- The words of Markdown that are spoken, in src/aitts/segmentation.py: the pieces of text, without the
-- tree. `str.isalpha` of one character is an argument.
use Prim.Native.Char.{Char, code}
use Prim.Native.String.{◌++◌}
use ai_tts.Common.{
  ℕ, zero, suc, ◌+◌, Bool, true, false, ◌&&◌, ◌||◌, String, Option, none, some, is_space, text_eq,
  leb, ◌==◌, if◌then◌else◌,
}
use ai_tts.Segments.{one_less, strip}
use ai_tts.Segments.Bounded.{text_take, text_drop}
use ai_tts.Segments.Sections.{is_blank_char}

abbrev pub text_length : String → ℕ
text_length String.[] = 0
text_length (String.◌∷◌ c s) = suc (text_length s)

abbrev pub any_char : (Char → Bool) → String → Bool
any_char p String.[] = false
any_char p (String.◌∷◌ c s) = p c || any_char p s

-- The number of characters at the head that pass a test.
abbrev pub run_of : (Char → Bool) → String → ℕ
run_of p String.[] = 0
run_of p (String.◌∷◌ c s) = let rest = run_of p s in if p c then suc rest else 0

abbrev pub is_star : Char → Bool
is_star c = code c == b'*'

-- `[^*]*` before a star.
abbrev pub until_star : String → Option String
until_star String.[] = none
until_star (String.◌∷◌ c s) =
    let rest = until_star s in if is_star c then some "" else before c rest
  where
    before : Char → Option String → Option String
    before c none = none
    before c (some s) = some (String.◌∷◌ c s)

-- `[.,!?;:]`.
abbrev pub is_mark : ℕ → Bool
is_mark c = c == b'.' || c == b',' || c == b'!' || c == b'?' || c == b';' || c == b':'

abbrev pub heads_with : (ℕ → Bool) → String → Bool
heads_with p String.[] = false
heads_with p (String.◌∷◌ c s) = p (code c)

-- `(?=$|[\s.,!?;:)\]])`.
abbrev pub may_follow : String → Bool
may_follow s = text_eq s "" || heads_with (λ c. is_space c || is_mark c || c == b')' || c == b']') s

-- `(?:[ \t]+(?=[.,!?;:]))?`.
abbrev pub blanks_before_mark : String → ℕ
blanks_before_mark s =
    let n = run_of is_blank_char s in if heads_with is_mark (text_drop n s) then n else 0

-- What stands between stars, and the length of the whole match of `_FORMATTING_STARS`.
abbrev pub closed : ℕ → String → String → Option (String × ℕ)
closed opening body after =
    let closing = run_of is_star after in
    let tail = text_drop closing after in
    let blanks = blanks_before_mark tail in
    if may_follow (text_drop blanks tail)
    then some (strip body, opening + text_length body + closing + blanks)
    else none

abbrev pub formatted : String → Option (String × ℕ)
formatted s =
    let opening = run_of is_star s in
    let rest = text_drop opening s in
    if leb 1 opening then with_body opening rest (until_star rest) else none
  where
    with_body : ℕ → String → Option String → Option (String × ℕ)
    with_body opening rest none = none
    with_body opening rest (some body) = closed opening body (text_drop (text_length body) rest)

-- The function that `_clean_spoken_text` passes to `sub`; `s` begins with the match.
abbrev pub replacement : (Char → Bool) → String → String × ℕ → String
replacement is_alpha s (body, n) = if any_char is_alpha body then body else text_take n s

-- `apart` tells that no character that is no space stands before; `skip` characters of a match remain.
abbrev pub clean_from : (Char → Bool) → ℕ → Bool → String → String
clean_from is_alpha skip apart String.[] = ""
clean_from is_alpha (suc skip) apart (String.◌∷◌ c s) =
    clean_from is_alpha skip (is_space (code c)) s
clean_from is_alpha zero apart (String.◌∷◌ c s) =
    replaced (if apart then formatted (String.◌∷◌ c s) else none)
      (String.◌∷◌ c (clean_from is_alpha 0 (is_space (code c)) s))
      (λ n. clean_from is_alpha (one_less n) (is_space (code c)) s)
  where
    replaced : Option (String × ℕ) → String → (ℕ → String) → String
    replaced none plain after = plain
    replaced (some (body, n)) plain after =
        replacement is_alpha (String.◌∷◌ c s) (body, n) ++ after n

unfoldable pub clean_spoken_text : (Char → Bool) → String → String
clean_spoken_text is_alpha text = clean_from is_alpha 0 true text

-- `re.sub(r"\s+", " ", text)`.
abbrev pub collapse : Bool → String → String
collapse spaced String.[] = ""
collapse spaced (String.◌∷◌ c s) =
    let after = collapse true s in
    let word = collapse false s in
    if is_space (code c) then (if spaced then after else " " ++ after) else String.◌∷◌ c word

abbrev pub is_terminal_mark : ℕ → Bool
is_terminal_mark c = c == b'.' || c == b'!' || c == b'?' || c == b':' || c == b';'

-- `text.endswith(_TERMINAL_PUNCTUATION)`.
abbrev pub ends_terminal : String → Bool
ends_terminal String.[] = false
ends_terminal (String.◌∷◌ c s) =
    let rest = ends_terminal s in if text_eq s "" then is_terminal_mark (code c) else rest

unfoldable pub with_terminal_punctuation : String → String
with_terminal_punctuation text = if text_eq text "" || ends_terminal text then text else text ++ "."

-- `_TASK_MARKER.sub("", text)`.
unfoldable pub without_task_marker : String → String
without_task_marker (String.◌∷◌ a (String.◌∷◌ b (String.◌∷◌ c s))) =
    let n = run_of is_blank_char s in
    if code a == b'['
      && (code b == b' ' || code b == b'x' || code b == b'X')
      && code c == b']'
      && leb 1 n
    then text_drop n s
    else String.◌∷◌ a (String.◌∷◌ b (String.◌∷◌ c s))
without_task_marker s = s
