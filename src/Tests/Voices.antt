-- ===== src/Tests/Voices.antt =====
-- The theorems about voices at a concrete catalog and register.
use ai_tts.Common.{
  ◌≡◌, ◌≢◌, refl, Bool, true, false, ◌&&◌, ◌||◌, not, String, none, some, List, [], ◌∷◌, all,
  mem_text, is_none, is_some, option_eq, text_eq, if◌then◌else◌,
}
use ai_tts.Model.{VoiceAssignment}
use ai_tts.Store.{Store, ok, raised, bad_request, illegal_state}
use ai_tts.Store.Registry.{voice_assignment, claim_voice, pin_voice}
use ai_tts.Store.Registry.Pins.{
  upserted, written, claim_voice-voice_assignment, pin_voice-voice_assignment,
}
use ai_tts.Voices.{VoiceDecision, is_agent_source, decide_speaking_voice}
use ai_tts.Voices.Decision.{decide_speaking_voice-May}
use ai_tts.Voices.Registry.{resolve, is_outside}
use ai_tts.Voices.Pinned.{resolve-pinned}
use ai_tts.Tests.Data.{three}

abbrev two_voices : List String
two_voices = "af_bella" ∷ "bm_daniel" ∷ []

decide_speaking_voice-May_example :
    (d : VoiceDecision) × (decide_speaking_voice
        (some "agent")
        none
        "af_bella"
        two_voices
        none
        none
        ("af_bella" ∷ [])
      ≡ ok d)
    × ((d.claim
          && mem_text d.voice ("af_bella" ∷ [])
          && not (all (λ w. mem_text w ("af_bella" ∷ [])) two_voices))
        ≡ false)
    × ((is_none {A = String} none || option_eq none (some d.voice)) ≡ true)
    × ((d.claim && is_some {A = String} none) ≡ false)
unfolding is_agent_source ai_tts.Common.Text.is_blank
decide_speaking_voice-May_example =
    decide_speaking_voice-May (some "agent") none "af_bella" two_voices none none ("af_bella" ∷ [])
      refl (λ e. cc)

abbrev daniel : VoiceAssignment
daniel = record { source = "agent"; voice = "bm_daniel"; pinned = true; assigned_at = 0 }

abbrev register : Store
register = record three { voice_assignments = daniel ∷ [] }

claim_voice-voice_assignment_example :
    let o = voice_assignment "agent" register in
    let a = upserted (λ a. not a.pinned) (written "agent" "af_bella" false register) o in
    ((claim_voice "agent" "af_bella" register).0 ≡ ok a)
    × (voice_assignment "agent" (claim_voice "agent" "af_bella" register).1
        ≡ (if text_eq "agent" "agent" then some a else voice_assignment "agent" register))
claim_voice-voice_assignment_example =
    claim_voice-voice_assignment "agent" "af_bella" register "agent"

pin_voice-voice_assignment_example :
    let a = written "editor" "af_bella" true register in
    ((pin_voice "editor" "af_bella" register).0 ≡ ok a)
    × (voice_assignment "agent" (pin_voice "editor" "af_bella" register).1
        ≡ (if text_eq "agent" "editor" then some a else voice_assignment "agent" register))
pin_voice-voice_assignment_example = pin_voice-voice_assignment "editor" "af_bella" register "agent"

resolve-pinned_example : resolve two_voices "af_bella" (some "agent") (some "af_bella") register ≡ (
  if is_outside (some "af_bella") two_voices
      then raised bad_request
      else if mem_text "bm_daniel" two_voices
      then ok "bm_daniel"
      else raised illegal_state,
  register,
)
unfolding voice_assignment
resolve-pinned_example =
    resolve-pinned two_voices "af_bella" "agent" (some "af_bella") register daniel refl refl
