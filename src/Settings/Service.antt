-- ===== src/Settings/Service.antt =====
-- `SettingsService` of src/aitts/settings.py: `apply`, `values` and the reads of one setting.
use ai_tts.Common.{
  ℕ, Bool, not, ◌&&◌, String, Option, none, some, List, [], ◌∷◌, any, is_empty, text_eq, mem_text,
  decimal, if◌then◌else◌,
}
use ai_tts.Store.{Store, Result, ok, raised, bad_request, value_error}
use ai_tts.Store.Registry.{get_setting, has_setting, set_setting}
use ai_tts.Voices.{automatic_voice_pool, stored_voice_languages}
use ai_tts.Cache.{default_cache_max_bytes}
use ai_tts.Settings.{Json, Floats, SettingsEnvironment, parse_cache_limit}
use ai_tts.Settings.Plan.{
  Effect, sets, writes_engine, writes_cache_limit, sets_rate, plan, plan_all, is_engine,
  is_languages, engine_first,
}

abbrev pub Act : Type 0 → Type 0
Act E = Store × E → Result (Unit {0}) × (Store × E)

abbrev pub write : {E : Type 0} → String → String → Act E
write key value (s, live) = let (r, t) = set_setting key value s in (r, (t, live))

abbrev pub and_then :
    {E : Type 0} → Act E → Result (Unit {0}) × (Store × E) → Result (Unit {0}) × (Store × E)
and_then f (ok _, w) = f w
and_then f (raised e, w) = (raised e, w)

-- `_write_engine`, `_write_cache_limit` and the other effects.
unfoldable pub perform : {E F : Type 0} → SettingsEnvironment E F → Effect F → Act E
perform env (sets key value) w = write key value w
perform env (writes_engine name) w = and_then (env.select_engine name) (write "engine" name w)
perform env (writes_cache_limit limit) w =
    and_then env.enforce_cache_limit (write "cache_max_bytes" (decimal limit) w)
perform env (sets_rate rate) w = env.set_playback_rate rate w

abbrev pub perform_all : {E F : Type 0} → SettingsEnvironment E F → List (Effect F) → Act E
perform_all env [] w = (ok tt, w)
perform_all env (e ∷ es) w = and_then (perform_all env es) (perform env e w)

abbrev pub value_of : {F : Type 0} → String → List (String × Json F) → Option (Json F)
value_of key [] = none
value_of key ((k, value) ∷ updates) = if text_eq k key then some value else value_of key updates

-- `updates.get("engine", self._environment.engine_name())`, which must be a text.
abbrev pub selected_engine : {F : Type 0} → String → Option (Json F) → Result String
selected_engine current none = ok current
selected_engine current (some (Json.text name)) = ok name
selected_engine current (some _) = raised bad_request

-- The languages stay, and must have voices in the engine that is selected.
abbrev pub leaves_no_voice : {F : Type 0} → Store → List String → List (String × Json F) → Bool
leaves_no_voice s catalog updates =
    any is_engine updates
    && not (any is_languages updates)
    && is_empty (
        automatic_voice_pool catalog
          (stored_voice_languages (get_setting "voice_languages" "en" s)))

abbrev pub perform_planned :
    {E F : Type 0} → SettingsEnvironment E F → Result (List (Effect F)) → Act E
perform_planned env (raised e) w = (raised e, w)
perform_planned env (ok effects) w = perform_all env effects w

abbrev pub apply_with :
    {E F : Type 0}
    → Floats F
    → SettingsEnvironment E F
    → List (String × Json F)
    → Result (List String)
    → Act E
apply_with floats env updates (raised e) w = (raised e, w)
apply_with floats env updates (ok catalog) (s, live) =
    if leaves_no_voice s catalog updates
    then (raised bad_request, (s, live))
    else perform_planned env (plan_all (plan floats env live catalog) (engine_first updates))
        (s, live)

abbrev pub apply_to :
    {E F : Type 0}
    → Floats F
    → SettingsEnvironment E F
    → List (String × Json F)
    → Result String
    → Act E
apply_to floats env updates (raised e) w = (raised e, w)
apply_to floats env updates (ok name) (s, live) =
    apply_with floats env updates (env.engine_voices name live) (s, live)

unfoldable pub apply :
    {E F : Type 0} → Floats F → SettingsEnvironment E F → List (String × Json F) → Act E
apply floats env updates (s, live) =
    apply_to floats env updates (selected_engine (env.engine_name live) (value_of "engine" updates))
      (s, live)

abbrev pub or_limit : Option ℕ → ℕ
or_limit none = default_cache_max_bytes
or_limit (some limit) = limit

unfoldable pub cache_limit : Store → ℕ
cache_limit s = or_limit (
    parse_cache_limit {F = Unit {0}}
      (Json.text (get_setting "cache_max_bytes" (decimal default_cache_max_bytes) s)))

abbrev pub is_on : String → String → Store → Bool
is_on key default s = text_eq (get_setting key default s) "true"

unfoldable pub captions_enabled : Store → Bool
captions_enabled s = is_on "captions_enabled" "false" s

unfoldable pub input_interrupt_enabled : Store → Bool
input_interrupt_enabled s = is_on "input_interrupt_enabled" "true" s

unfoldable pub input_interrupt_resume : Store → String
input_interrupt_resume s = get_setting "input_interrupt_resume" "when_idle" s

unfoldable pub speaking_voice : {E F : Type 0} → SettingsEnvironment E F → Store → E → String
speaking_voice env s live =
    let preferred = get_setting "voice" "" s in
    if mem_text preferred (env.available_voices live) then preferred else env.default_voice live

abbrev pub or_value_error : {A : Type 0} → Option A → Result A
or_value_error none = raised value_error
or_value_error (some x) = ok x

unfoldable pub speaking_speed : {F : Type 0} → Floats F → Store → Result F
speaking_speed floats s = or_value_error (floats.of_text (get_setting "speed" "1.0" s))

pub record Values (F : Type 0) : Type 0 where
  pub engine : String
  pub voice : String
  pub voice_languages : List String
  pub speed : F
  pub playback_rate : F
  pub cache_max_bytes : ℕ
  pub captions_enabled : Bool
  pub captions_enabled_configured : Bool
  pub earcon_enabled : Bool
  pub ducking_enabled : Bool
  pub input_interrupt_enabled : Bool
  pub input_interrupt_resume : String

abbrev pub values_at :
    {E F : Type 0} → SettingsEnvironment E F → Store → E → Result F → Result (Values F)
values_at env s live (raised e) = raised e
values_at env s live (ok speed) = ok (record {
  engine = env.engine_name live;
  voice = speaking_voice env s live;
  voice_languages = stored_voice_languages (get_setting "voice_languages" "en" s);
  speed = speed;
  playback_rate = env.playback_rate live;
  cache_max_bytes = cache_limit s;
  captions_enabled = captions_enabled s;
  captions_enabled_configured = has_setting "captions_enabled" s;
  earcon_enabled = is_on "earcon_enabled" "false" s;
  ducking_enabled = is_on "ducking_enabled" "false" s;
  input_interrupt_enabled = input_interrupt_enabled s;
  input_interrupt_resume = input_interrupt_resume s;
})

unfoldable pub values :
    {E F : Type 0} → Floats F → SettingsEnvironment E F → Store → E → Result (Values F)
values floats env s live = values_at env s live (speaking_speed floats s)
