-- ===== src/Settings/Digits.antt =====
-- The decimal form of a number is read back by `int`, as src/aitts/settings.py uses them.
use Prim.Native.Char.{Char, code}
use Prim.Native.String.{◌++◌}
use text.Mathlib.TextLemmas.{nil-append, cons-append}
use ai_tts.Common.{
  ℕ, zero, suc, ◌+◌, ◌*◌, ◌-◌, ◌/◌, ◌%◌, ◌≤◌, ◌<◌, ◌≡◌, refl, ap, ◌∙◌, sym, Bool, true, false, not,
  ◌&&◌, ◌||◌, ◌⊎◌, String, Option, none, some, arith, Bool-cases, inl, inr, leb, ltb, ◌==◌, decimal,
  is_space, text_eq, eq_iff, if◌then◌else◌,
}
use ai_tts.Common.Int.{pos}
use ai_tts.Common.Text.{digit, decimal_from}
use ai_tts.Segments.{strip_right, strip}
use ai_tts.Settings.{
  Json, is_digit, digits_from, non_negative, signed, int_of_text, parse_cache_limit,
}

-- Every character is a digit.
abbrev all_digits : String → Bool
all_digits String.[] = true
all_digits (String.◌∷◌ c s) = is_digit (code c) && all_digits s

digit_solid : (c : ℕ) → is_digit c ≡ true → is_space c ≡ false
unfolding ai_tts.Common.Text.is_space
digit_solid c h = ground (arith, h)

-- A text is one digit, that of `d`.
abbrev IsDigit : ℕ → String → Type 0
IsDigit d s = (c : Char) × (s ≡ String.◌∷◌ c "") × (code c ≡ d + 48)

digit-IsDigit : (d : ℕ) → d < 10 → IsDigit d (digit d)
digit-IsDigit zero h = ("0", refl, refl)
digit-IsDigit (suc zero) h = ("1", refl, refl)
digit-IsDigit (suc (suc zero)) h = ("2", refl, refl)
digit-IsDigit (suc (suc (suc zero))) h = ("3", refl, refl)
digit-IsDigit (suc (suc (suc (suc zero)))) h = ("4", refl, refl)
digit-IsDigit (suc (suc (suc (suc (suc zero))))) h = ("5", refl, refl)
digit-IsDigit (suc (suc (suc (suc (suc (suc zero)))))) h = ("6", refl, refl)
digit-IsDigit (suc (suc (suc (suc (suc (suc (suc zero))))))) h = ("7", refl, refl)
digit-IsDigit (suc (suc (suc (suc (suc (suc (suc (suc zero)))))))) h = ("8", refl, refl)
digit-IsDigit (suc (suc (suc (suc (suc (suc (suc (suc (suc zero))))))))) h = ("9", refl, refl)
digit-IsDigit (suc (suc (suc (suc (suc (suc (suc (suc (suc (suc d)))))))))) h = absurd (omega arith)

digit-append :
    (d : ℕ) (s : String)
    → IsDigit d (digit d)
    → (c : Char) × (digit d ++ s ≡ String.◌∷◌ c s) × (code c ≡ d + 48)
digit-append d s (c, e, k) =
    (c, ap (λ t. t ++ s) e ∙ cons-append c "" s ∙ ap (String.◌∷◌ c) (nil-append s), k)

-- A digit in front of a text is read first.
digits_from-digit :
    (acc d : ℕ) (after : Bool) (s : String)
    → d < 10
    → digits_from acc after (digit d ++ s) ≡ digits_from (acc * 10 + d) true s
digits_from-digit acc d after s h =
    let (c, e, k) = digit-append d s (digit-IsDigit d h) in
    let is : is_digit (code c) ≡ true = ground (arith, k) in
    let value : code c - b'0' ≡ d = omega (arith, k) in
    ap (digits_from acc after) e ∙ rw (is, value) refl

all_digits-digit :
    (d : ℕ) (s : String) → d < 10 → all_digits s ≡ true → all_digits (digit d ++ s) ≡ true
all_digits-digit d s h k =
    let (c, e, v) = digit-append d s (digit-IsDigit d h) in ap all_digits e ∙ ground (arith, v, k)

-- The digits of a number are read as the number.
digits_from-decimal_from :
    (fuel n : ℕ) (done : String)
    → n < fuel
    → (digits_from 0 false (decimal_from fuel n done) ≡ digits_from n true done)
      × (all_digits done ≡ true → all_digits (decimal_from fuel n done) ≡ true)
unfolding decimal_from
digits_from-decimal_from zero n done h = absurd (omega arith)
digits_from-decimal_from (suc fuel) n done h =
    let longer = digit (n % 10) ++ done in
    let last : n % 10 < 10 = omega arith in
    elim (Bool-cases (ltb n 10)) [
      | inl small ↦
          let one = digits_from-digit 0 (n % 10) false done last in
          let same : 0 * 10 + n % 10 ≡ n = ground (arith, small) in
          rw small (rw same at one, all_digits-digit (n % 10) done last)
      | inr large ↦
          let (value, digits) =
            digits_from-decimal_from fuel (n / 10) longer (ground (arith, large)) in
          let one = digits_from-digit (n / 10) (n % 10) true done last in
          let same : n / 10 * 10 + n % 10 ≡ n = omega arith in
          rw large (value ∙ (rw same at one), λ k. digits (all_digits-digit (n % 10) done last k))
    ]

all_digits-strip_right : (s : String) → all_digits s ≡ true → strip_right s ≡ s
all_digits-strip_right String.[] h = refl
all_digits-strip_right (String.◌∷◌ c s) h =
    let solid = digit_solid (code c) (ground (arith, h)) in
    rw (solid, all_digits-strip_right s (ground (arith, h))) refl

all_digits-strip : (s : String) → all_digits s ≡ true → strip s ≡ s
all_digits-strip String.[] h = refl
all_digits-strip (String.◌∷◌ c s) h =
    let solid = digit_solid (code c) (ground (arith, h)) in
    rw solid (all_digits-strip_right (String.◌∷◌ c s) h)

signed-all_digits :
    (s : String) (n : ℕ)
    → all_digits s ≡ true
    → digits_from 0 false s ≡ some n
    → signed s ≡ some (pos n)
signed-all_digits String.[] n h e = absurd (ground arith)
signed-all_digits (String.◌∷◌ c s) n h e =
    let no_minus : (code c == b'-') ≡ false = ground (arith, h) in
    let no_plus : (code c == b'+') ≡ false = ground (arith, h) in
    rw (no_minus, no_plus) (ap non_negative e)

-- The text of a number is a cache limit, and the limit is the number.
pub parse_cache_limit-decimal :
    (F : Type 0) (n : ℕ) → parse_cache_limit {F = F} (Json.text (decimal n)) ≡ some n
unfolding parse_cache_limit int_of_text ai_tts.Common.Text.decimal
parse_cache_limit-decimal F n =
    let (value, digits) = digits_from-decimal_from (suc n) n "" (omega arith) in
    let whole = all_digits-strip (decimal_from (suc n) n "") (digits refl) in
    let read = signed-all_digits (decimal_from (suc n) n "") n (digits refl) value in
    let same = (eq_iff (decimal_from (suc n) n "") (decimal_from (suc n) n "")).1 refl in
    simp (whole, read, same) refl
