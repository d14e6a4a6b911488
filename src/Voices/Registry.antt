-- ===== src/Voices/Registry.antt =====
-- src/aitts/voice_registry.py: the register of the voices that clients hold, over the store.
-- The engine's `list_voices()` and the listener's default voice are arguments. The JSON arguments of
-- `assign` are texts or null and a Boolean: the values that pass its type tests.
use ai_tts.Common.{
  Bool, false, ◌&&◌, not, String, Option, none, some, List, is_some, is_empty, is_blank, text_eq,
  mem_text, if◌then◌else◌,
}
use ai_tts.Common.Table.{select_where}
use ai_tts.Model.{VoiceAssignment}
use ai_tts.Store.{Store, bad_request, not_found, illegal_state, voice_assigned, voice_released}
use ai_tts.Store.Exec.{Exec, pure, raise, gets, emit, when, ◌>>=◌, ◌>>◌}
use ai_tts.Store.Registry.{
  voice_assignment, claimed_voices, claim_voice, pin_voice, release_voice, get_setting,
}
use ai_tts.Voices.{
  VoiceDecision, is_agent_source, decide_speaking_voice, automatic_voice_pool,
  stored_voice_languages,
}

-- `VoiceRegistry._release`.
unfoldable pub release : String → Exec (Unit {0})
release source = do
  released ← release_voice source
  if released then emit (voice_released source) else raise not_found

-- The release of a voice which the engine no longer offers.
abbrev pub withdraw : String → Exec (Option VoiceAssignment)
withdraw source = do _ ← release_voice source; emit (voice_released source); pure none

-- `VoiceRegistry._reconcile`.
unfoldable pub reconcile_assignment :
    Option VoiceAssignment → List String → Exec (Option VoiceAssignment)
reconcile_assignment none catalog = pure none
reconcile_assignment (some a) catalog =
    if mem_text a.voice catalog
    then pure (some a)
    else if a.pinned
    then raise illegal_state
    else withdraw a.source

abbrev pub is_pinned : Option VoiceAssignment → Bool
is_pinned none = false
is_pinned (some a) = a.pinned

abbrev pub is_outside : Option String → List String → Bool
is_outside none catalog = false
is_outside (some v) catalog = not (mem_text v catalog)

-- A held voice outside of the selected languages is released.
unfoldable pub keep_selected : Option VoiceAssignment → List String → Exec (Option VoiceAssignment)
keep_selected none pool = pure none
keep_selected (some a) pool =
    if mem_text a.voice pool then pure (some a) else release a.source >> pure none

abbrev pub held_voice : Option VoiceAssignment → Option String
held_voice none = none
held_voice (some a) = some a.voice

abbrev pub option_has : String → Option String → Bool
option_has v none = false
option_has v (some w) = text_eq v w

-- The choice among the voices of the catalog that remain and the assignment that is kept.
unfoldable pub choose :
    Option String
    → Option String
    → String
    → List String
    → Option VoiceAssignment
    → Exec VoiceDecision
choose source requested default catalog held s = (
  decide_speaking_voice source requested default catalog
      (if is_pinned held then held_voice held else none) (held_voice held)
      (select_where (λ v. not (option_has v (held_voice held))) (claimed_voices s)),
  s,
)

-- The catalog of the selected languages.
unfoldable pub selected_pool : List String → Store → List String
selected_pool catalog s =
    automatic_voice_pool catalog (stored_voice_languages (get_setting "voice_languages" "en" s))

abbrev pub settle_claim : String → String → Exec String
settle_claim source voice = do
  claimed ← claim_voice source voice
  emit (voice_assigned claimed)
  pure claimed.voice

-- The claim of the decided voice, if it is to be claimed.
unfoldable pub settle : Option String → VoiceDecision → Exec String
settle none d = pure d.voice
settle (some source) d = if d.claim then settle_claim source d.voice else pure d.voice

unfoldable pub resolve_selected :
    Option String → Option String → String → List String → Option VoiceAssignment → Exec String
resolve_selected source requested default pool held = do
  when (is_empty pool) (raise bad_request)
  when (is_outside requested pool) (raise bad_request)
  kept ← keep_selected held pool
  d ← choose source requested default pool kept
  settle source d

abbrev pub assignment_of : Option String → Store → Option VoiceAssignment
assignment_of none s = none
assignment_of (some source) s = voice_assignment source s

unfoldable pub resolve : List String → String → Option String → Option String → Exec String
resolve catalog default source requested = do
  when (is_outside requested catalog) (raise bad_request)
  found ← gets (assignment_of source)
  held ← reconcile_assignment found catalog
  pool ← gets (selected_pool catalog)
  if is_agent_source source && not (is_pinned held)
      then resolve_selected source requested default pool held
      else choose source requested default catalog held >>= settle source

abbrev pub announce_pin : String → String → Exec (Option VoiceAssignment)
announce_pin source voice = do
  pinned ← pin_voice source voice
  emit (voice_assigned pinned)
  pure (some pinned)

-- A pin of a voice that the engine offers.
unfoldable pub assign_voice : List String → String → Option String → Exec (Option VoiceAssignment)
assign_voice catalog source none = raise bad_request
assign_voice catalog source (some voice) =
    if not (mem_text voice catalog) then raise bad_request else announce_pin source voice

-- `VoiceRegistry.assign`, which returns `none` after a release.
unfoldable pub assign :
    List String → Option String → Option String → Bool → Exec (Option VoiceAssignment)
assign catalog none voice releases = raise bad_request
assign catalog (some source) voice releases =
    if is_blank source
    then raise bad_request
    else if releases
    then (if is_some voice then raise bad_request else release source >> pure none)
    else assign_voice catalog source voice
