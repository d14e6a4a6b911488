-- ===== src/Voices/Pinned.antt =====
-- A pinned voice in src/aitts/voice_registry.py: what `resolve` answers to its client.
use ai_tts.Common.{
  ◌≡◌, true, String, Option, some, List, Bool-cases, inl, inr, mem_text, if◌then◌else◌,
}
use ai_tts.Model.{VoiceAssignment}
use ai_tts.Store.{Store, ok, raised, bad_request, illegal_state}
use ai_tts.Store.Registry.{voice_assignment}
use ai_tts.Voices.{is_agent_source, decide_speaking_voice}
use ai_tts.Voices.Registry.{resolve, is_outside, reconcile_assignment, choose, settle}

-- To a client whose voice the listener has pinned a submission answers the pinned voice whatever is
-- requested, unless the engine does not offer the requested voice (bad request) or the pinned one
-- (illegal state); the database stays as it was in each case.
pub resolve-pinned :
    (catalog : List String) (default source : String) (requested : Option String) (s : Store)
    (a : VoiceAssignment)
    → voice_assignment source s ≡ some a
    → a.pinned ≡ true
    → resolve catalog default (some source) requested s ≡ (
      if is_outside requested catalog
          then raised bad_request
          else if mem_text a.voice catalog
          then ok a.voice
          else raised illegal_state,
      s,
    )
unfolding resolve reconcile_assignment choose settle decide_speaking_voice
resolve-pinned catalog default source requested s a e p =
    elim (Bool-cases (is_outside requested catalog)) [
      | inl outside ↦ rw outside
      | inr offered ↦ elim (Bool-cases (mem_text a.voice catalog)) [
        | inl held ↦ elim (Bool-cases (is_agent_source (some source))) [
          | inl agent ↦ rw (offered, e, held, agent, p)
          | inr local ↦ rw (offered, e, held, local, p)
        ]
        | inr withdrawn ↦ rw (offered, e, withdrawn, p)
      ]
    ]
