-- ===== src/Voices/Decision.antt =====
-- What the decision of src/aitts/application/voice_assignment.py guarantees.
use ai_tts.Common.{
  ◌≡◌, ◌≢◌, refl, ◌⊎◌, inl, inr, true, false, not, ◌&&◌, String, Option, none, some, List, [], ◌∷◌,
  arith, mem_text, text_eq, all, eq_iff, Bool-cases, is_some, is_none, option_eq, ◌||◌,
}
use ai_tts.Store.{Result, ok, raised}
use ai_tts.Voices.{
  VoiceDecision, first_free, next_unclaimed_voice, is_agent_source, decide_requested,
  decide_unrequested, decide_agent, decide_speaking_voice, claim_next,
}

-- The search misses only if every voice is taken, and otherwise finds a free voice of the catalog.
first_free-cases :
    (catalog taken : List String)
    → ((first_free catalog taken ≡ none) × (all (λ v. mem_text v taken) catalog ≡ true))
      ⊎ ((v : String) × (first_free catalog taken ≡ some v)
          × (mem_text v taken ≡ false)
          × (mem_text v catalog ≡ true))
first_free-cases [] taken = inl (refl, refl)
first_free-cases (w ∷ ws) taken = elim (Bool-cases (mem_text w taken)) [
  | inl used ↦ (elim (first_free-cases ws taken) [
    | inl (e, full) ↦ inl (rw used e, rw (used, full))
    | inr (v, e, free, member) ↦ inr (v, rw used e, free, ground arith)
  ])
  | inr free ↦ inr (w, rw free, free, ground (arith, eq_iff w w))
]

-- Of a catalog that is not empty a voice of the catalog is returned, which nobody holds unless every
-- voice of the catalog is held.
pub next_unclaimed_voice-free :
    (catalog taken : List String)
    → catalog ≢ []
    → (v : String) × (next_unclaimed_voice catalog taken ≡ ok v)
      × (mem_text v catalog ≡ true)
      × ((mem_text v taken && not (all (λ w. mem_text w taken) catalog)) ≡ false)
unfolding next_unclaimed_voice
next_unclaimed_voice-free [] taken h = absurd (h refl)
next_unclaimed_voice-free (w ∷ ws) taken h = elim (first_free-cases (w ∷ ws) taken) [
  | inl (e, full) ↦ (w, rw (e, next_unclaimed_voice), ground (arith, eq_iff w w), ground arith)
  | inr (v, e, free, member) ↦ (v, rw (e, next_unclaimed_voice), member, rw free)
]

-- A voice may be claimed for an agent: it is held by nobody, or the whole catalog is held.
abbrev May : List String → List String → Result VoiceDecision → Type 0
May catalog taken (raised e) = ⊥
May catalog taken (ok d) =
    d.claim ≡ true → (mem_text d.voice taken && not (all (λ w. mem_text w taken) catalog)) ≡ false

next_unclaimed_voice-May :
    (catalog taken : List String)
    → catalog ≢ []
    → May catalog taken (claim_next (next_unclaimed_voice catalog taken))
next_unclaimed_voice-May catalog taken h =
    let (v, e, _, free) = next_unclaimed_voice-free catalog taken h in rw e (λ _. free)

decide_agent-May :
    (requested : Option String) (catalog : List String) (claimed : Option String)
    (taken : List String)
    → catalog ≢ []
    → May catalog taken (decide_agent requested catalog claimed taken)
unfolding decide_agent decide_requested decide_unrequested
decide_agent-May none catalog none taken h = next_unclaimed_voice-May catalog taken h
decide_agent-May none catalog (some c) taken h = λ e. absurd (ground arith)
decide_agent-May (some v) catalog none taken h = elim (Bool-cases (mem_text v taken)) [
  | inl held ↦ rw held (next_unclaimed_voice-May catalog taken h)
  | inr free ↦ rw free (λ _. rw free)
]
decide_agent-May (some v) catalog (some c) taken h = elim (Bool-cases (text_eq v c)) [
  | inl same ↦ rw same (λ e. absurd (ground arith))
  | inr other ↦ elim (Bool-cases (mem_text v taken)) [
    | inl held ↦ rw (other, held) (λ e. absurd (ground arith))
    | inr free ↦ rw (other, free) (λ _. rw free)
  ]
]

decided :
    (catalog taken : List String) (r : Result VoiceDecision)
    → May catalog taken r
    → (d : VoiceDecision) × (r ≡ ok d)
      × ((d.claim && mem_text d.voice taken && not (all (λ w. mem_text w taken) catalog)) ≡ false)
decided catalog taken (ok d) h = (
  d,
  refl,
  elim (Bool-cases d.claim) [ inl claims ↦ rw claims (h claims) | inr keeps ↦ rw keeps ],
)
decided catalog taken (raised e) h = absurd h

-- For an agent and a catalog that is not empty the decision is made, and it claims a voice that
-- another client holds only if every voice of the catalog is held; a pinned voice is always the one
-- decided on, and is not claimed again.
pub decide_speaking_voice-May :
    (source requested : Option String) (default : String) (catalog : List String)
    (pinned claimed : Option String) (taken : List String)
    → is_agent_source source ≡ true
    → catalog ≢ []
    → (d : VoiceDecision) × (decide_speaking_voice source requested default catalog pinned claimed
          taken
        ≡ ok d)
      × ((d.claim && mem_text d.voice taken && not (all (λ w. mem_text w taken) catalog)) ≡ false)
      × ((is_none pinned || option_eq pinned (some d.voice)) ≡ true)
      × ((d.claim && is_some pinned) ≡ false)
unfolding decide_speaking_voice
decide_speaking_voice-May source requested default catalog (some p) claimed taken h c =
    (record { voice = p; claim = false }, refl, refl, (eq_iff p p).1 refl, refl)
decide_speaking_voice-May source requested default catalog none claimed taken h c =
    let (d, e, free) =
      decided catalog taken (decide_agent requested catalog claimed taken)
        (decide_agent-May requested catalog claimed taken c) in
    (d, rw h e, free, refl, elim (Bool-cases d.claim) [ inl y ↦ rw y | inr n ↦ rw n ])
