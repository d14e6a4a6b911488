-- ===== src/Settings/Languages.antt =====
-- A selection of languages of src/aitts/settings.py is stored as a text, and read back.
use Prim.Native.Char.{Char, code}
use Prim.Native.String.{◌++◌}
use text.Mathlib.TextLemmas.{nil-append, cons-append, append-nil, append_assoc}
use ai_tts.Common.{
  ◌≡◌, refl, ap, ◌∙◌, sym, Bool, true, false, not, ◌&&◌, String, List, [], ◌∷◌, all, mem_text,
  text_eq, eq_iff, is_empty, Bool-cases, inl, inr, arith, ◌==◌,
}
use ai_tts.Common.Table.{select_where}
use ai_tts.Common.Sorting.{In, In-select_where}
use ai_tts.Store.{Store, ok}
use ai_tts.Store.Registry.{get_setting, set_setting}
use ai_tts.Voices.{language_codes, automatic_voice_pool, split_commas, stored_voice_languages}
use ai_tts.Settings.{Json, Items, nil, cons, Floats, SettingsEnvironment}
use ai_tts.Settings.Plan.{
  all_codes, names_code, selection, has_items, join_commas, plan, plan_voice_languages,
}
use ai_tts.Settings.Service.{perform, apply}
use ai_tts.Settings.Kept.{set_setting-get_setting}

abbrev comma_free : String → Bool
comma_free String.[] = true
comma_free (String.◌∷◌ c s) = not (code c == b',') && comma_free s

moved :
    (part : String) (c : Char) (s : String)
    → (part ++ String.◌∷◌ c "") ++ s ≡ part ++ String.◌∷◌ c s
moved part c s =
    append_assoc part (String.◌∷◌ c "") s
    ∙ ap (λ t. part ++ t) (cons-append c "" s ∙ ap (String.◌∷◌ c) (nil-append s))

split_commas-comma_free :
    (part x : String) → comma_free x ≡ true → split_commas part x ≡ (part ++ x) ∷ []
unfolding split_commas
split_commas-comma_free part String.[] h = ap (λ t. t ∷ []) (sym (append-nil part))
split_commas-comma_free part (String.◌∷◌ c s) h =
    let plain : (code c == b',') ≡ false = ground (arith, h) in
    let rest = split_commas-comma_free (part ++ String.◌∷◌ c "") s (ground (arith, h)) in
    rw (split_commas, plain) (rest ∙ ap (λ t. t ∷ []) (moved part c s))

split_commas-comma :
    (part x rest : String)
    → comma_free x ≡ true
    → split_commas part (x ++ "," ++ rest) ≡ (part ++ x) ∷ split_commas "" rest
unfolding split_commas
split_commas-comma part String.[] rest h =
    ap (split_commas part) (nil-append ("," ++ rest) ∙ cons-append "," "" rest)
    ∙ ap2 (sym (append-nil part)) (nil-append rest)
  where
    ap2 :
        {x y : String} {s t : String}
        → x ≡ y
        → s ≡ t
        → x ∷ split_commas "" s ≡ y ∷ split_commas "" t
    ap2 e f = rw (e, f) refl
split_commas-comma part (String.◌∷◌ c s) rest h =
    let plain : (code c == b',') ≡ false = ground (arith, h) in
    let next = split_commas-comma (part ++ String.◌∷◌ c "") s rest (ground (arith, h)) in
    ap (split_commas part) (cons-append c s ("," ++ rest))
    ∙ rw (split_commas, plain) (next ∙ ap (λ t. t ∷ split_commas "" rest) (moved part c s))

-- Pieces without commas are what their join is split into.
split_commas-join_commas :
    (cs : List String)
    → is_empty cs ≡ false
    → all comma_free cs ≡ true
    → split_commas "" (join_commas cs) ≡ cs
split_commas-join_commas [] e h = absurd (ground arith)
split_commas-join_commas (c ∷ []) e h =
    split_commas-comma_free "" c (ground (arith, h)) ∙ ap (λ t. t ∷ []) (nil-append c)
split_commas-join_commas (c ∷ d ∷ cs) e h =
    let rest = split_commas-join_commas (d ∷ cs) refl (ground (arith, h)) in
    split_commas-comma "" c (join_commas (d ∷ cs)) (ground (arith, h))
    ∙ ap (λ t. t ∷ split_commas "" (join_commas (d ∷ cs))) (nil-append c)
    ∙ ap (λ ts. c ∷ ts) rest

all-select_where :
    (p q : String → Bool) (xs : List String) → all q xs ≡ true → all q (select_where p xs) ≡ true
all-select_where p q [] h = refl
all-select_where p q (x ∷ xs) h =
    let rest = all-select_where p q xs (ground (arith, h)) in
    elim (Bool-cases (p x)) [
      | inl chosen ↦ rw chosen (ground (arith, rest, h))
      | inr passed ↦ rw passed rest
    ]

-- A selection of languages that is not empty is read from its text.
pub stored_voice_languages-join_commas :
    (p : String → Bool)
    → is_empty (select_where p language_codes) ≡ false
    → stored_voice_languages (join_commas (select_where p language_codes))
      ≡ select_where p language_codes
unfolding stored_voice_languages
stored_voice_languages-join_commas p e =
    let cs = select_where p language_codes in
    let codes = all-select_where p (λ c. mem_text c language_codes) language_codes refl in
    let pieces =
      split_commas-join_commas cs e (all-select_where p comma_free language_codes refl) in
    rw (pieces, codes) refl

mem_text-In : (t : String) (xs : List String) → mem_text t xs ≡ true → In t xs
mem_text-In t [] h = absurd (ground arith)
mem_text-In t (x ∷ xs) h = elim (Bool-cases (text_eq t x)) [
  | inl same ↦ inl (sym ((eq_iff t x).0 same))
  | inr other ↦ inr (mem_text-In t xs (rw other at h))
]

In-some : (t : String) (xs : List String) → In t xs → is_empty xs ≡ false
In-some t [] i = absurd i
In-some t (x ∷ xs) i = refl

module _ {E F : Type 0} (floats : Floats F) (env : SettingsEnvironment E F) where
  selection-some :
      (codes : Items F)
      → has_items codes ≡ true
      → all_codes codes ≡ true
      → is_empty (selection codes) ≡ false
  selection-some nil h k = absurd (ground arith)
  selection-some (cons (Json.text t) xs) h k =
      let here = mem_text-In t language_codes (ground (arith, k)) in
      let same = (eq_iff t t).1 refl in
      In-some t (selection (cons (Json.text t) xs)) (
        In-select_where (λ code. names_code code (cons (Json.text t) xs)) t language_codes here
          (rw same refl))
  selection-some (cons Json.null xs) h k = absurd (ground arith)
  selection-some (cons (Json.boolean b) xs) h k = absurd (ground arith)
  selection-some (cons (Json.integer i) xs) h k = absurd (ground arith)
  selection-some (cons (Json.float x) xs) h k = absurd (ground arith)
  selection-some (cons (Json.array ys) xs) h k = absurd (ground arith)
  selection-some (cons Json.object xs) h k = absurd (ground arith)

  -- A request for some languages, each a code, is done if the engine in use is registered and has
  -- voices in them, and the languages that are read thereafter are the ones that were asked for.
  pub apply-voice_languages :
      (codes : Items F) (s : Store) (live : E) (catalog : List String)
      → has_items codes ≡ true
      → all_codes codes ≡ true
      → env.engine_voices (env.engine_name live) live ≡ ok catalog
      → is_empty (automatic_voice_pool catalog (selection codes)) ≡ false
      → let r = apply floats env (("voice_languages", Json.array codes) ∷ []) (s, live) in
        (r.0 ≡ ok tt)
        × (stored_voice_languages (get_setting "voice_languages" "en" r.1.0) ≡ selection codes)
  unfolding apply plan plan_voice_languages perform set_setting
  apply-voice_languages codes s live catalog h k registered voiced =
      let text : String = join_commas (selection codes) in
      let read = set_setting-get_setting "voice_languages" text "en" s in
      let back =
        stored_voice_languages-join_commas (λ code. names_code code codes)
          (selection-some codes h k) in
      simp (registered, h, k, voiced) (refl, ap stored_voice_languages read ∙ back)
