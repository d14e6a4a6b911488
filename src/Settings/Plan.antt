-- ===== src/Settings/Plan.antt =====
-- The validators of src/aitts/settings.py, one for each setting, and `apply`: what a request plans.
use Prim.Native.String.{◌++◌}
use mathlib.Core.List.{◌++◌ as append}
use ai_tts.Common.{
  ℕ, Bool, true, false, not, ◌&&◌, ◌||◌, String, Option, none, some, List, [], ◌∷◌, is_empty,
  text_eq, mem_text, if◌then◌else◌,
}
use ai_tts.Common.Table.{select_where}
use ai_tts.Store.{Result, ok, raised, bad_request}
use ai_tts.Voices.{language_codes, automatic_voice_pool}
use ai_tts.Settings.{
  Json, Items, nil, cons, Floats, SettingsEnvironment, parse_cache_limit, boolean_text, parse_speed,
  parse_playback_rate,
}

-- What a write does once all of the request is validated.
pub data Effect (F : Type 0) : Type 0 where
  sets : String → String → Effect F
  writes_engine : String → Effect F
  writes_cache_limit : ℕ → Effect F
  sets_rate : F → Effect F

abbrev pub input_interrupt_resume_policies : List String
input_interrupt_resume_policies = "manual" ∷ "when_idle" ∷ []

abbrev pub is_code : {F : Type 0} → Json F → Bool
is_code (Json.text code) = mem_text code language_codes
is_code _ = false

abbrev pub all_codes : {F : Type 0} → Items F → Bool
all_codes nil = true
all_codes (cons x xs) = is_code x && all_codes xs

-- `code in value`.
abbrev pub names_code : {F : Type 0} → String → Items F → Bool
names_code code nil = false
names_code code (cons (Json.text t) xs) = text_eq code t || names_code code xs
names_code code (cons Json.null xs) = names_code code xs
names_code code (cons (Json.boolean b) xs) = names_code code xs
names_code code (cons (Json.integer i) xs) = names_code code xs
names_code code (cons (Json.float x) xs) = names_code code xs
names_code code (cons (Json.array ys) xs) = names_code code xs
names_code code (cons Json.object xs) = names_code code xs

abbrev pub has_items : {F : Type 0} → Items F → Bool
has_items nil = false
has_items (cons x xs) = true

-- `",".join(codes)`.
abbrev pub join_commas : List String → String
join_commas [] = ""
join_commas (c ∷ []) = c
join_commas (c ∷ d ∷ cs) = c ++ "," ++ join_commas (d ∷ cs)

abbrev pub plan_selected : {F : Type 0} → List String → List String → Result (Effect F)
plan_selected catalog selected =
    if is_empty (automatic_voice_pool catalog selected)
    then raised bad_request
    else ok (sets "voice_languages" (join_commas selected))

-- The codes of a request, in the order of `LANGUAGE_CODES`.
abbrev pub selection : {F : Type 0} → Items F → List String
selection codes = select_where (λ code. names_code code codes) language_codes

unfoldable pub plan_voice_languages : {F : Type 0} → Json F → List String → Result (Effect F)
plan_voice_languages (Json.array codes) catalog =
    if not (has_items codes) || not (all_codes codes)
    then raised bad_request
    else plan_selected catalog (selection codes)
plan_voice_languages _ catalog = raised bad_request

abbrev pub engine_plan : {F : Type 0} → String → Result (List String) → Result (Effect F)
engine_plan name (raised e) = raised e
engine_plan name (ok voices) = ok (writes_engine name)

unfoldable pub plan_engine :
    {E F : Type 0} → SettingsEnvironment E F → E → Json F → Result (Effect F)
plan_engine env live (Json.text name) = engine_plan name (env.engine_voices name live)
plan_engine env live _ = raised bad_request

-- A text of a list, or a bad request.
abbrev pub plan_member : {F : Type 0} → String → List String → Json F → Result (Effect F)
plan_member key members (Json.text t) =
    if mem_text t members then ok (sets key t) else raised bad_request
plan_member key members _ = raised bad_request

unfoldable pub plan_voice : {F : Type 0} → Json F → List String → Result (Effect F)
plan_voice value catalog = plan_member "voice" catalog value

unfoldable pub plan_input_interrupt_resume : {F : Type 0} → Json F → Result (Effect F)
plan_input_interrupt_resume value =
    plan_member "input_interrupt_resume" input_interrupt_resume_policies value

abbrev pub if_parsed : {A F : Type 0} → Result (Option A) → (A → Effect F) → Result (Effect F)
if_parsed (raised e) f = raised e
if_parsed (ok none) f = raised bad_request
if_parsed (ok (some x)) f = ok (f x)

unfoldable pub plan_speed : {F : Type 0} → Floats F → Json F → Result (Effect F)
plan_speed floats value = if_parsed (parse_speed floats value) (λ x. sets "speed" (floats.str x))

unfoldable pub plan_cache_limit : {F : Type 0} → Json F → Result (Effect F)
plan_cache_limit value = if_parsed (ok (parse_cache_limit value)) writes_cache_limit

unfoldable pub plan_playback_rate : {F : Type 0} → Floats F → Json F → Result (Effect F)
plan_playback_rate floats value = if_parsed (parse_playback_rate floats value) sets_rate

abbrev pub plan_text : {F : Type 0} → String → Result String → Result (Effect F)
plan_text key (raised e) = raised e
plan_text key (ok stored) = ok (sets key stored)

-- `_plan_captions_enabled` and the three like it.
unfoldable pub plan_boolean : {F : Type 0} → String → Json F → Result (Effect F)
plan_boolean key value = plan_text key (boolean_text value)

abbrev pub boolean_keys : List String
boolean_keys =
    "captions_enabled" ∷ "earcon_enabled" ∷ "ducking_enabled" ∷ "input_interrupt_enabled" ∷ []

-- `planners.get(key)`, called with the value; `catalog` is the one of the requested engine.
unfoldable pub plan :
    {E F : Type 0}
    → Floats F
    → SettingsEnvironment E F
    → E
    → List String
    → String
    → Json F
    → Result (Effect F)
plan floats env live catalog key value =
    if text_eq key "engine"
    then plan_engine env live value
    else if text_eq key "voice"
    then plan_voice value catalog
    else if text_eq key "voice_languages"
    then plan_voice_languages value catalog
    else if text_eq key "speed"
    then plan_speed floats value
    else if text_eq key "cache_max_bytes"
    then plan_cache_limit value
    else if text_eq key "playback_rate"
    then plan_playback_rate floats value
    else if mem_text key boolean_keys
    then plan_boolean key value
    else if text_eq key "input_interrupt_resume"
    then plan_input_interrupt_resume value
    else raised bad_request

abbrev pub added : {A : Type 0} → Result A → Result (List A) → Result (List A)
added (raised e) rest = raised e
added (ok x) (raised e) = raised e
added (ok x) (ok xs) = ok (x ∷ xs)

-- The loop over the updates: the first that is refused ends it.
abbrev pub plan_all :
    {F : Type 0}
    → (String → Json F → Result (Effect F))
    → List (String × Json F)
    → Result (List (Effect F))
plan_all p [] = ok []
plan_all p ((key, value) ∷ updates) = added (p key value) (plan_all p updates)

abbrev pub is_engine : {F : Type 0} → String × Json F → Bool
is_engine (key, value) = text_eq key "engine"

abbrev pub is_languages : {F : Type 0} → String × Json F → Bool
is_languages (key, value) = text_eq key "voice_languages"

-- `sorted(updates.items(), key=lambda item: item[0] != "engine")`.
abbrev pub engine_first : {F : Type 0} → List (String × Json F) → List (String × Json F)
engine_first updates =
    append (select_where is_engine updates) (select_where (λ u. not (is_engine u)) updates)
