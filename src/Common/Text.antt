-- ===== src/Common/Text.antt =====
-- What the program uses of Python's `str` and `pathlib`: equality, whitespace, `PurePath.stem`,
-- and the decimal form of a number.
use Prim.Native.Nat.{ℕ, zero, suc, ◌/◌, ◌%◌}
use Prim.Native.Char.{code}
use Prim.Native.String.{String, ◌++◌}
use text.Mathlib.Text.{◌==◌ as str_eq}
use mathlib.Core.Path.{◌≡◌, refl}
use mathlib.Core.Bool.{Bool, true, false, not, ◌&&◌, ◌||◌}
use mathlib.Core.Option.{Option, none, some}
use ai_tts.Common.Tests.{leb, ltb, ◌==◌, if◌then◌else◌}

abbrev pub text_eq : String → String → Bool
text_eq a b = str_eq a b

abbrev pub option_eq : Option String → Option String → Bool
option_eq none none = true
option_eq none (some b) = false
option_eq (some a) none = false
option_eq (some a) (some b) = text_eq a b

abbrev pub is_none {ℓ} : {A : Type ℓ} → Option A → Bool
is_none none = true
is_none (some a) = false

abbrev pub is_some {ℓ} : {A : Type ℓ} → Option A → Bool
is_some o = not (is_none o)

-- `str.isspace` of one character.
unfoldable pub is_space : ℕ → Bool
is_space c =
    (leb 9 c && leb c 13)
    || (leb 28 c && leb c 32)
    || c == 0x85
    || c == 0xa0
    || c == 0x1680
    || (leb 0x2000 c && leb c 0x200a)
    || c == 0x2028
    || c == 0x2029
    || c == 0x202f
    || c == 0x205f
    || c == 0x3000

-- `not text.strip()`.
unfoldable pub is_blank : String → Bool
unfolding is_space
is_blank String.[] = true
is_blank (String.◌∷◌ c s) = is_space (code c) && is_blank s

-- The last component of a path, with empty and "." components dropped; `done` is the last
-- complete component, `part` the one being read.
path_name_from : String → String → String → String
path_name_from done part String.[] = keep part done
  where
    keep : String → String → String
    keep p d = if str_eq p "" || str_eq p "." then d else p
path_name_from done part (String.◌∷◌ c s) = elim (code c == b'/') [
  | true ↦ path_name_from (if str_eq part "" || str_eq part "." then done else part) "" s
  | false ↦ path_name_from done (part ++ String.◌∷◌ c String.[]) s
]

-- The text before the last dot, if that dot is neither the first nor the last character.
stem_from : String → String → Bool → String → String
stem_from best part first String.[] = if str_eq best "" then part else best
stem_from best part first (String.◌∷◌ c s) =
    stem_from (if code c == b'.' && not first && not (str_eq s "") then part else best)
      (part ++ String.◌∷◌ c String.[]) false s

-- `Path(path).stem`.
unfoldable pub path_stem : String → String
unfolding path_name_from stem_from
path_stem path = stem_from "" "" true (path_name_from "" "" path)

abbrev pub digit : ℕ → String
digit n =
    if n == 0
    then "0"
    else if n == 1
    then "1"
    else if n == 2
    then "2"
    else if n == 3
    then "3"
    else if n == 4
    then "4"
    else if n == 5
    then "5"
    else if n == 6
    then "6"
    else if n == 7
    then "7"
    else if n == 8
    then "8"
    else "9"

-- The decimal digits of `n` in front of `done`; a number has fewer digits than the fuel below.
unfoldable pub decimal_from : ℕ → ℕ → String → String
decimal_from zero n done = done
decimal_from (suc fuel) n done =
    let longer = digit (n % 10) ++ done in
    let rest = decimal_from fuel (n / 10) longer in if ltb n 10 then longer else rest

-- `str(n)`.
unfoldable pub decimal : ℕ → String
unfolding decimal_from
decimal n = decimal_from (suc n) n ""

-- `f"{n:04d}"`.
unfoldable pub format_04d : ℕ → String
unfolding decimal_from
format_04d n =
    (if ltb n 10 then "000" else if ltb n 100 then "00" else if ltb n 1000 then "0" else "")
    ++ decimal_from (suc n) n ""

format_04d_example : format_04d 27 ≡ "0027"
unfolding format_04d
format_04d_example = refl

path_stem_example : path_stem "/cache/audio/utt_1.seg.wav" ≡ "utt_1.seg"
unfolding path_stem
path_stem_example = refl

dot_file_example : path_stem "/cache/.wav/" ≡ ".wav"
unfolding path_stem
dot_file_example = refl
