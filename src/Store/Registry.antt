-- ===== src/Store/Registry.antt =====
-- The voice assignments and the settings of src/aitts/store.py.
pub mod Pins
use ai_tts.Common.{
  Bool, true, false, ◌&&◌, not, String, Option, none, some, List, [], ◌∷◌, ◌++◌, map, text_eq,
  is_some, ltb, if◌then◌else◌,
}
use ai_tts.Common.Table.{find, update_where, delete_where, count_where}
use ai_tts.Model.{VoiceAssignment}
use ai_tts.Store.{Store, Setting, runtime_error}
use ai_tts.Store.Exec.{Exec, pure, gets, execute, time, require, ◌>>=◌, ◌>>◌}

abbrev pub has_source : String → VoiceAssignment → Bool
has_source source a = text_eq a.source source

unfoldable pub voice_assignment : String → Store → Option VoiceAssignment
voice_assignment source s = find (has_source source) s.voice_assignments

-- `claimed_voices`, as a list; the program only asks whether a voice is among them.
unfoldable pub claimed_voices : Store → List String
claimed_voices s = map (λ a. a.voice) s.voice_assignments

-- `INSERT … ON CONFLICT(source) DO UPDATE SET … WHERE may`.
abbrev pub upsert_voice :
    (VoiceAssignment → Bool) → VoiceAssignment → List VoiceAssignment → List VoiceAssignment
upsert_voice may new rows =
    if is_some (find (has_source new.source) rows)
    then update_where (λ a. has_source new.source a && may a)
        (λ a. record a { voice = new.voice; pinned = new.pinned; assigned_at = new.assigned_at })
        rows
    else rows ++ new ∷ []

unfoldable pub write_voices : (List VoiceAssignment → List VoiceAssignment) → Exec (Unit {0})
write_voices f = execute (λ s. record s { voice_assignments = f s.voice_assignments })

unfoldable pub claim_voice : String → String → Exec VoiceAssignment
claim_voice source voice = do
  now ← time
  write_voices (
      upsert_voice (λ a. not a.pinned)
        (record { source = source; voice = voice; pinned = false; assigned_at = now }))
  found ← gets (voice_assignment source)
  require found runtime_error

unfoldable pub pin_voice : String → String → Exec VoiceAssignment
pin_voice source voice = do
  now ← time
  write_voices (
      upsert_voice (λ a. true)
        (record { source = source; voice = voice; pinned = true; assigned_at = now }))
  found ← gets (voice_assignment source)
  require found runtime_error

unfoldable pub release_voice : String → Exec Bool
release_voice source = do
  n ← gets (λ s. count_where (has_source source) s.voice_assignments)
  write_voices (delete_where (has_source source))
  pure (ltb 0 n)

abbrev pub has_key : String → Setting → Bool
has_key key row = text_eq row.key key

unfoldable pub get_setting : String → String → Store → String
get_setting key default s = elim (find (has_key key) s.settings) [
  | none ↦ default
  | some r ↦ r.value
]

unfoldable pub has_setting : String → Store → Bool
has_setting key s = is_some (find (has_key key) s.settings)

abbrev pub upsert_setting : String → String → List Setting → List Setting
upsert_setting key value rows =
    if is_some (find (has_key key) rows)
    then update_where (has_key key) (λ r. record r { value = value }) rows
    else rows ++ record { key = key; value = value } ∷ []

unfoldable pub set_setting : String → String → Exec (Unit {0})
set_setting key value = execute (λ s. record s { settings = upsert_setting key value s.settings })
