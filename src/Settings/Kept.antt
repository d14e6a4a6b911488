-- ===== src/Settings/Kept.antt =====
-- What is read back of a setting that src/aitts/settings.py has written.
use mathlib.Core.List.{◌++◌ as append}
use ai_tts.Common.{
  ℕ, ◌≡◌, refl, ap, ◌∙◌, Bool, true, String, Option, none, some, List, [], ◌∷◌, eq_iff, decimal,
  Bool-cases, inl, inr, arith,
}
use ai_tts.Common.Int.{pos}
use ai_tts.Common.Table.{find, find_holds, updated, map_option, find-update_where}
use ai_tts.Store.{Store, Setting, Result, ok, raised}
use ai_tts.Store.Registry.{has_key, get_setting, set_setting, upsert_setting}
use ai_tts.Cache.{default_cache_max_bytes}
use ai_tts.Settings.{Json, Floats, SettingsEnvironment, parse_cache_limit}
use ai_tts.Settings.Plan.{plan, plan_cache_limit}
use ai_tts.Settings.Service.{and_then, perform, perform_all, apply, cache_limit}
use ai_tts.Settings.Digits.{parse_cache_limit-decimal}

find-appended :
    {A : Type 0} (p : A → Bool) (xs : List A) (x : A)
    → find p xs ≡ none
    → p x ≡ true
    → find p (append xs (x ∷ [])) ≡ some x
find-appended p [] x h k = rw k refl
find-appended p (y ∷ ys) x h k = elim (Bool-cases (p y)) [
  | inl here ↦ let found : some y ≡ none = rw here at h in absurd (ground (arith, found))
  | inr there ↦ rw there (find-appended p ys x (rw there at h) k)
]

abbrev value_in : String → Option Setting → String
value_in default none = default
value_in default (some row) = row.value

module _ (key value default : String) (rows : List Setting) where
  upserted_value :
      (o : Option Setting)
      → find (has_key key) rows ≡ o
      → value_in default (find (has_key key) (upsert_setting key value rows)) ≡ value
  upserted_value none e =
      let new : Setting = record { key = key; value = value } in
      simp e
        (ap (value_in default) (find-appended (has_key key) rows new e ((eq_iff key key).1 refl)))
  upserted_value (some row) e =
      let named = find_holds (has_key key) rows {x = row} e in
      let change : Setting → Setting = λ r. record r { value = value } in
      let found =
        find-update_where (has_key key) (has_key key) change rows (λ r. refl)
        ∙ ap (map_option (updated (has_key key) change)) e in
      let shown : value_in default (map_option (updated (has_key key) change) (some row)) ≡ value =
        rw named refl in
      simp e (ap (value_in default) found ∙ shown)

-- What is written under a key is read under it.
pub set_setting-get_setting :
    (key value default : String) (s : Store)
    → get_setting key default (set_setting key value s).1 ≡ value
unfolding set_setting get_setting
set_setting-get_setting key value default s =
    upserted_value key value default s.settings (find (has_key key) s.settings) refl

get_setting-same :
    (key default : String) (s t : Store)
    → t.settings ≡ s.settings
    → get_setting key default t ≡ get_setting key default s
unfolding get_setting
get_setting-same key default s t e = ap (λ rows. value_in default (find (has_key key) rows)) e

module _ {E F : Type 0} (floats : Floats F) (env : SettingsEnvironment E F) (n : ℕ) (s : Store)
    (live : E) where
  abbrev request : List (String × Json F)
  request = ("cache_max_bytes", Json.integer (pos n)) ∷ []

  nothing_after : (r : Result (Unit {0}) × (Store × E)) → (and_then (perform_all env []) r).1 ≡ r.1
  nothing_after (ok _, w) = refl
  nothing_after (raised e, w) = refl

  cache_limit-after :
      (t u : Store)
      → u.settings ≡ t.settings
      → get_setting "cache_max_bytes" (decimal default_cache_max_bytes) t ≡ decimal n
      → cache_limit u ≡ n
  unfolding cache_limit
  cache_limit-after t u same h =
      let key : String = "cache_max_bytes" in
      let read = get_setting-same key (decimal default_cache_max_bytes) t u same ∙ h in
      rw (read, parse_cache_limit-decimal (Unit {0}) n) refl

  -- A cache limit that is set is the cache limit that is read thereafter, if the engine in use is
  -- registered and if bringing the cache under its limit leaves the settings alone.
  pub apply-cache_limit :
      (catalog : List String)
      → env.engine_voices (env.engine_name live) live ≡ ok catalog
      → ((w : Store × E) → (env.enforce_cache_limit w).1.0.settings ≡ w.0.settings)
      → cache_limit (apply floats env request (s, live)).1.0 ≡ n
  unfolding apply cache_limit perform plan plan_cache_limit parse_cache_limit set_setting
  apply-cache_limit catalog registered leaves =
      let t = (set_setting "cache_max_bytes" (decimal n) s).1 in
      let same = nothing_after (env.enforce_cache_limit (t, live)) in
      simp (registered, same)
        (cache_limit-after t (env.enforce_cache_limit (t, live)).1.0 (leaves (t, live)) (
          set_setting-get_setting "cache_max_bytes" (decimal n) (decimal default_cache_max_bytes)
            s))
