-- ===== src/Tests/Settings.antt =====
-- The theorems about settings in an environment with one engine, where a float is a number of
-- hundredths.
use ai_tts.Common.{
  ℕ, ◌≡◌, ◌*◌, refl, String, Option, none, some, List, [], ◌∷◌, leb, ◌==◌, decimal, inl, inr,
}
use ai_tts.Common.Int.{ℤ, pos, negsuc}
use ai_tts.Store.{Error, ok, raised, bad_request}
use ai_tts.Settings.{Json, nil, cons, Floats, SettingsEnvironment, parse_speed}
use ai_tts.Settings.Languages.{apply-voice_languages}
use ai_tts.Store.Registry.{get_setting}
use ai_tts.Voices.{automatic_voice_pool, voice_language, stored_voice_languages}
use ai_tts.Settings.Plan.{selection, plan, plan_speed}
use ai_tts.Settings.Service.{apply, cache_limit}
use ai_tts.Settings.Refused.{apply-refused}
use ai_tts.Settings.Kept.{apply-cache_limit}
use ai_tts.Tests.Data.{three}

abbrev hundredths_of : ℤ → Option ℕ
hundredths_of (pos n) = some (n * 100)
hundredths_of (negsuc n) = some 0

abbrev hundredths : Floats ℕ
hundredths = record {
  of_integer = hundredths_of;
  at_most = leb;
  equal = ◌==◌;
  str = decimal;
  of_text = λ s. none;
  hundredths = λ n. n;
}

abbrev one_engine : SettingsEnvironment String ℕ
one_engine = record {
  engine_name = λ live. live;
  engine_voices = λ name live. ok ("af_heart" ∷ "bm_daniel" ∷ []);
  available_voices = λ live. "af_heart" ∷ "bm_daniel" ∷ [];
  default_voice = λ live. "af_heart";
  playback_rate = λ live. 100;
  select_engine = λ name w. (ok tt, (w.0, name));
  set_playback_rate = λ rate w. (ok tt, w);
  enforce_cache_limit = λ w. (ok tt, w);
}

-- A valid voice beside a speed that is out of range.
abbrev mixed : List (String × Json ℕ)
mixed = ("voice", Json.text "bm_daniel") ∷ ("speed", Json.integer (pos 7)) ∷ []

apply-refused_example :
    (e : Error) × (apply hundredths one_engine mixed (three, "kokoro")
      ≡ (raised e, (three, "kokoro")))
unfolding plan plan_speed parse_speed
apply-refused_example =
    apply-refused hundredths one_engine mixed "speed" (Json.integer (pos 7)) three "kokoro"
      (inr (inl refl)) (λ name catalog n c. (bad_request, refl))

apply-cache_limit_example :
    cache_limit
      (apply hundredths one_engine
        (("cache_max_bytes", Json.integer (pos 2048)) ∷ [])
        (three, "kokoro")).1.0
    ≡ 2048
apply-cache_limit_example =
    apply-cache_limit hundredths one_engine 2048 three "kokoro" ("af_heart" ∷ "bm_daniel" ∷ []) refl
      (λ w. refl)

apply-voice_languages_example :
    let codes = cons (Json.text "it") (cons (Json.text "en") nil) in
    let r =
      apply hundredths one_engine (("voice_languages", Json.array codes) ∷ []) (three, "kokoro") in
    (r.0 ≡ ok tt)
    × (stored_voice_languages (get_setting "voice_languages" "en" r.1.0) ≡ selection codes)
unfolding automatic_voice_pool voice_language
apply-voice_languages_example =
    apply-voice_languages hundredths one_engine (cons (Json.text "it") (cons (Json.text "en") nil))
      three "kokoro" ("af_heart" ∷ "bm_daniel" ∷ []) refl refl refl refl
