-- ===== src/Voices.antt =====
-- src/aitts/application/voice_assignment.py and voice_languages.py: which voice a client speaks in.
-- Collections of voices are lists, of which the program asks only whether a voice is a member.
pub mod Decision
pub mod Registry
pub mod Pinned
use Prim.Native.Char.{code}
use Prim.Native.String.{◌++◌}
use text.Mathlib.Text.{starts_with}
use ai_tts.Common.{
  ℕ, Bool, true, false, ◌&&◌, ◌||◌, not, String, Option, none, some, List, [], ◌∷◌, text_eq,
  mem_text, is_blank, all, ◌==◌, if◌then◌else◌,
}
use ai_tts.Common.Table.{select_where}
use ai_tts.Store.{Result, ok, raised, value_error}

pub record VoiceDecision : Type 0 where
  pub voice : String
  pub claim : Bool

-- `source.startswith(LOCAL_UI_SOURCE_PREFIXES)`.
abbrev pub is_local_ui : String → Bool
is_local_ui source = starts_with source "macos-" || starts_with source "menubar-"

unfoldable pub is_agent_source : Option String → Bool
is_agent_source none = false
is_agent_source (some source) = if is_blank source then false else not (is_local_ui source)

-- The first voice of the catalog that is not taken.
abbrev pub first_free : List String → List String → Option String
first_free [] taken = none
first_free (v ∷ vs) taken =
    let rest = first_free vs taken in if mem_text v taken then rest else some v

unfoldable pub next_unclaimed_voice : List String → List String → Result String
next_unclaimed_voice [] taken = raised value_error
next_unclaimed_voice (v ∷ vs) taken = elim (first_free (v ∷ vs) taken) [
  | none ↦ ok v
  | some free ↦ ok free
]

-- `requested or default_voice`: an empty text counts as none.
abbrev pub or_default : Option String → String → String
or_default none default = default
or_default (some v) default = if text_eq v "" then default else v

abbrev pub claim_next : Result String → Result VoiceDecision
claim_next (ok v) = ok (record { voice = v; claim = true })
claim_next (raised e) = raised e

abbrev pub keep_voice : String → Result VoiceDecision
keep_voice v = ok (record { voice = v; claim = false })

-- An agent that asks for a voice.
unfoldable pub decide_requested :
    String → List String → Option String → List String → Result VoiceDecision
decide_requested requested catalog none taken =
    if not (mem_text requested taken)
    then ok (record { voice = requested; claim = true })
    else claim_next (next_unclaimed_voice catalog taken)
decide_requested requested catalog (some claimed) taken =
    if text_eq requested claimed
    then keep_voice claimed
    else if not (mem_text requested taken)
    then ok (record { voice = requested; claim = true })
    else keep_voice claimed

-- An agent that asks for none.
unfoldable pub decide_unrequested : List String → Option String → List String → Result VoiceDecision
decide_unrequested catalog (some claimed) taken = keep_voice claimed
decide_unrequested catalog none taken = claim_next (next_unclaimed_voice catalog taken)

unfoldable pub decide_agent :
    Option String → List String → Option String → List String → Result VoiceDecision
decide_agent (some requested) catalog claimed taken =
    decide_requested requested catalog claimed taken
decide_agent none catalog claimed taken = decide_unrequested catalog claimed taken

-- The arguments: source, requested, default_voice, catalog, pinned, claimed, taken.
unfoldable pub decide_speaking_voice :
    Option String
    → Option String
    → String
    → List String
    → Option String
    → Option String
    → List String
    → Result VoiceDecision
decide_speaking_voice source requested default catalog (some pinned) claimed taken =
    keep_voice pinned
decide_speaking_voice source requested default catalog none claimed taken =
    if not (is_agent_source source)
    then keep_voice (or_default requested default)
    else decide_agent requested catalog claimed taken

abbrev pub language_codes : List String
language_codes = "en" ∷ "es" ∷ "fr" ∷ "hi" ∷ "it" ∷ "pt" ∷ "ja" ∷ "zh" ∷ "other" ∷ []

abbrev pub prefix_language : ℕ → String
prefix_language c =
    if c == b'a' || c == b'b'
    then "en"
    else if c == b'e'
    then "es"
    else if c == b'f'
    then "fr"
    else if c == b'h'
    then "hi"
    else if c == b'i'
    then "it"
    else if c == b'p'
    then "pt"
    else if c == b'j'
    then "ja"
    else if c == b'z'
    then "zh"
    else "other"

-- A language letter, then `f_` or `m_`, then a name.
unfoldable pub voice_language : String → String
voice_language (String.◌∷◌ a (String.◌∷◌ b (String.◌∷◌ c (String.◌∷◌ d rest)))) =
    if (code b == b'f' || code b == b'm') && code c == b'_'
    then prefix_language (code a)
    else "other"
voice_language _ = "other"

unfoldable pub automatic_voice_pool : List String → List String → List String
automatic_voice_pool catalog languages =
    if all (λ v. text_eq (voice_language v) "other") catalog
    then catalog
    else select_where (λ v. mem_text (voice_language v) languages) catalog

-- `text.split(",")`; `part` is the piece being read.
unfoldable pub split_commas : String → String → List String
split_commas part String.[] = part ∷ []
split_commas part (String.◌∷◌ c s) = elim (code c == b',') [
  | true ↦ part ∷ split_commas "" s
  | false ↦ split_commas (part ++ String.◌∷◌ c String.[]) s
]

unfoldable pub stored_voice_languages : String → List String
unfolding split_commas
stored_voice_languages raw =
    let selected = split_commas "" raw in
    if all (λ c. mem_text c language_codes) selected then selected else "en" ∷ []
