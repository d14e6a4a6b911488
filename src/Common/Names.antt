-- ===== src/Common/Names.antt =====
-- Lists of texts without repetition, as the keys of a table are.
use ai_tts.Common.Lists.{any}
use ai_tts.Common.Text.{text_eq}
use Prim.Native.String.{String}
use mathlib.Core.Path.{◌≡◌, refl}
use mathlib.Core.Bool.{Bool, true, false, not, ◌&&◌, ◌||◌}
use mathlib.Core.List.{List, [], ◌∷◌, ◌++◌}
use native.Mathlib.Omega.{arith}
use text.Mathlib.TextEquality.{eq_iff}

abbrev pub mem_text : String → List String → Bool
mem_text id ids = any (text_eq id) ids

-- `len(ids) == len(set(ids))`.
abbrev pub distinct : List String → Bool
distinct [] = true
distinct (id ∷ ids) = not (mem_text id ids) && distinct ids

mem_text-append :
    (y : String) (xs ys : List String) → mem_text y (xs ++ ys) ≡ (mem_text y xs || mem_text y ys)
mem_text-append y [] ys = refl
mem_text-append y (x ∷ xs) ys = ground (arith, mem_text-append y xs ys)

-- A new name at the end keeps a list free of repetitions.
pub distinct-append :
    (xs : List String) (x : String)
    → distinct xs ≡ true
    → mem_text x xs ≡ false
    → distinct (xs ++ x ∷ []) ≡ true
distinct-append [] x d m = refl
distinct-append (y ∷ ys) x d m =
    ground (arith, distinct-append ys x, mem_text-append y ys (x ∷ []), eq_iff x y, eq_iff y x)
