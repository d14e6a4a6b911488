-- ===== src/Settings.antt =====
-- src/aitts/settings.py: what may be written to the settings table, and what writing means. The
-- live components that a write reaches are the environment, on a state `E` of the caller's choice;
-- Python's floats are a type `F` with the operations that the code uses.
pub mod Plan
pub mod Service
pub mod Digits
pub mod Kept
pub mod Refused
pub mod Languages
use Prim.Native.Char.{code}
use Prim.Native.String.{◌++◌}
use ai_tts.Common.{
  ℕ, zero, suc, ◌+◌, ◌-◌, ◌*◌, Bool, true, false, not, ◌&&◌, ◌||◌, String, Option, none, some, List,
  [], ◌∷◌, any, is_empty, is_some, leb, text_eq, mem_text, decimal, ◌==◌, if◌then◌else◌,
}
use ai_tts.Common.Int.{ℤ, pos, negsuc}
use ai_tts.Common.Table.{find, select_where}
use ai_tts.Store.{Store, Result, ok, raised, bad_request, value_error, overflow_error}
use ai_tts.Store.Exec.{Exec}
use ai_tts.Store.Registry.{get_setting, set_setting}
use ai_tts.Segments.{strip}
use ai_tts.Voices.{language_codes, automatic_voice_pool, stored_voice_languages}

-- What arrives over the socket; no setting looks into an object.
mutual
  pub data Json (F : Type 0) : Type 0 where
    null : Json F
    boolean : Bool → Json F
    integer : ℤ → Json F
    float : F → Json F
    text : String → Json F
    array : Items F → Json F
    object : Json F

  pub data Items (F : Type 0) : Type 0 where
    nil : Items F
    cons : Json F → Items F → Items F

-- `float(i)`, none of an OverflowError; `<=`, `==`, `str(x)`; `float(s)`, none of a ValueError; and
-- the literals, in hundredths.
pub record Floats (F : Type 0) : Type 0 where
  pub of_integer : ℤ → Option F
  pub at_most : F → F → Bool
  pub equal : F → F → Bool
  pub str : F → String
  pub of_text : String → Option F
  pub hundredths : ℕ → F

-- `SettingsEnvironment`. What changes the live components may also change the store, and raise.
pub record SettingsEnvironment (E F : Type 0) : Type 0 where
  pub engine_name : E → String
  pub engine_voices : String → E → Result (List String)
  pub available_voices : E → List String
  pub default_voice : E → String
  pub playback_rate : E → F
  pub select_engine : String → Store × E → Result (Unit {0}) × (Store × E)
  pub set_playback_rate : F → Store × E → Result (Unit {0}) × (Store × E)
  pub enforce_cache_limit : Store × E → Result (Unit {0}) × (Store × E)

abbrev pub is_digit : ℕ → Bool
is_digit c = leb b'0' c && leb c b'9'

-- The digits of a number, with single underscores between them; `after` tells that a digit stands
-- before. Digits of other scripts are left out.
abbrev pub digits_from : ℕ → Bool → String → Option ℕ
digits_from acc after String.[] = if after then some acc else none
digits_from acc after (String.◌∷◌ c s) =
    let next = digits_from (acc * 10 + (code c - b'0')) true s in
    let skip = digits_from acc false s in
    if is_digit (code c) then next else if code c == b'_' && after then skip else none

abbrev pub non_negative : Option ℕ → Option ℤ
non_negative none = none
non_negative (some n) = some (pos n)

abbrev pub negated : ℕ → ℤ
negated zero = pos 0
negated (suc n) = negsuc n

abbrev pub negative : Option ℕ → Option ℤ
negative none = none
negative (some n) = some (negated n)

abbrev pub signed : String → Option ℤ
signed String.[] = none
signed (String.◌∷◌ c s) =
    if code c == b'-'
    then negative (digits_from 0 false s)
    else if code c == b'+'
    then non_negative (digits_from 0 false s)
    else non_negative (digits_from 0 false (String.◌∷◌ c s))

-- `int(s)`, none of a ValueError; its limit of 4300 digits is left out.
unfoldable pub int_of_text : String → Option ℤ
int_of_text s = signed (strip s)

-- `str(i)`.
abbrev pub text_of_int : ℤ → String
text_of_int (pos n) = decimal n
text_of_int (negsuc n) = "-" ++ decimal (suc n)

abbrev pub not_below_zero : ℤ → Option ℕ
not_below_zero (pos n) = some n
not_below_zero (negsuc n) = none

abbrev pub exact : String → Option ℤ → Option ℕ
exact raw none = none
exact raw (some limit) =
    if not (text_eq (strip raw) (text_of_int limit)) then none else not_below_zero limit

unfoldable pub parse_cache_limit : {F : Type 0} → Json F → Option ℕ
parse_cache_limit (Json.integer limit) = not_below_zero limit
parse_cache_limit (Json.text raw) = exact raw (int_of_text raw)
parse_cache_limit (Json.boolean b) = none
parse_cache_limit Json.null = none
parse_cache_limit (Json.float x) = none
parse_cache_limit (Json.array xs) = none
parse_cache_limit Json.object = none

-- `_boolean`.
abbrev pub boolean_text : {F : Type 0} → Json F → Result String
boolean_text (Json.boolean true) = ok "true"
boolean_text (Json.boolean false) = ok "false"
boolean_text _ = raised bad_request

-- A number that is no bool, as a float.
abbrev pub number : {F : Type 0} → Floats F → Json F → Result (Option F)
number floats (Json.integer i) = elim (floats.of_integer i) [
  | none ↦ raised overflow_error
  | some x ↦ ok (some x)
]
number floats (Json.float x) = ok (some x)
number floats _ = ok none

abbrev pub checked : {F : Type 0} → (F → Bool) → Result (Option F) → Result (Option F)
checked p (raised e) = raised e
checked p (ok none) = ok none
checked p (ok (some x)) = ok (if p x then some x else none)

unfoldable pub parse_speed : {F : Type 0} → Floats F → Json F → Result (Option F)
parse_speed floats raw =
    checked
      (λ x. floats.at_most (floats.hundredths 50) x && floats.at_most x (floats.hundredths 200))
      (number floats raw)

abbrev pub playback_rates : List ℕ
playback_rates = 50 ∷ 75 ∷ 100 ∷ 150 ∷ 200 ∷ 300 ∷ []

unfoldable pub parse_playback_rate : {F : Type 0} → Floats F → Json F → Result (Option F)
parse_playback_rate floats raw =
    checked (λ x. any (λ n. floats.equal x (floats.hundredths n)) playback_rates)
      (number floats raw)
