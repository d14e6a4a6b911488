-- ===== src/Store/Registry/Pins.antt =====
-- What the writes to the voice assignments and settings of src/aitts/store.py leave in the database.
use ai_tts.Common.{
  ◌≡◌, refl, ap, ◌∙◌, Bool, true, false, ◌&&◌, not, String, Option, none, some, List, [], ◌∷◌, ◌++◌,
  arith, Bool-cases, text_eq, eq_iff, is_some, inl, inr, if◌then◌else◌,
}
use ai_tts.Common.Table.{find, find_holds, map_option, updated, find-update_where}
use ai_tts.Model.{VoiceAssignment}
use ai_tts.Store.{Store, ok}
use ai_tts.Store.Registry.{
  has_source, voice_assignment, upsert_voice, write_voices, claim_voice, pin_voice,
}

find-append :
    (p : VoiceAssignment → Bool) (xs : List VoiceAssignment) (x : VoiceAssignment)
    → find p (xs ++ x ∷ [])
      ≡ (if is_some (find p xs) then find p xs else if p x then some x else none)
find-append p [] x = refl
find-append p (y ∷ ys) x = ground (arith, find-append p ys x)

-- The row under the source of `new` after an upsert.
abbrev pub upserted :
    (VoiceAssignment → Bool) → VoiceAssignment → Option VoiceAssignment → VoiceAssignment
upserted may new none = new
upserted may new (some a) = if may a then new else a

abbrev overwrite : VoiceAssignment → VoiceAssignment → VoiceAssignment
overwrite new a = record a { voice = new.voice; pinned = new.pinned; assigned_at = new.assigned_at }

module _ (may : VoiceAssignment → Bool) (new : VoiceAssignment) (rows : List VoiceAssignment) where
  abbrev may_write : VoiceAssignment → Bool
  may_write a = has_source new.source a && may a

  overwrite_same : (a : VoiceAssignment) → a.source ≡ new.source → overwrite new a ≡ new
  overwrite_same a e = ap (λ t. record new { source = t }) e

  upsert-same :
      (o : Option VoiceAssignment)
      → find (has_source new.source) rows ≡ o
      → find (has_source new.source) (upsert_voice may new rows) ≡ some (upserted may new o)
  upsert-same none e =
      rw (e, find-append (has_source new.source) rows new, e, (eq_iff new.source new.source).1 refl)
  upsert-same (some a) e =
      let hit : text_eq a.source new.source ≡ true =
        find_holds (has_source new.source) rows {x = a} e in
      let found =
        find-update_where (has_source new.source) may_write (overwrite new) rows (λ x. refl) in
      elim (Bool-cases (may a)) [
        | inl writes ↦
            rw (e, writes)
              (rw (e, hit, writes) at found
                ∙ ap some (overwrite_same a ((eq_iff a.source new.source).0 hit)))
        | inr spares ↦ rw (e, spares) (rw (e, hit, spares) at found)
      ]

  spared_row :
      (j : String) (p : Option VoiceAssignment)
      → find (has_source j) rows ≡ p
      → text_eq j new.source ≡ false
      → map_option (updated may_write (overwrite new)) p ≡ p
  spared_row j none e h = refl
  spared_row j (some b) e h =
      let named : b.source ≡ j = (eq_iff b.source j).0 (find_holds (has_source j) rows {x = b} e) in
      rw (named, h)

  appended_other :
      (j : String) (p : Option VoiceAssignment)
      → find (has_source j) rows ≡ p
      → text_eq new.source j ≡ false
      → find (has_source j) (rows ++ new ∷ []) ≡ p
  appended_other j none e h = rw (find-append (has_source j) rows new, e, h)
  appended_other j (some b) e h = rw (find-append (has_source j) rows new, e)

  upsert-other :
      (j : String)
      → text_eq j new.source ≡ false
      → find (has_source j) (upsert_voice may new rows) ≡ find (has_source j) rows
  upsert-other j h = elim (Bool-cases (is_some (find (has_source new.source) rows))) [
    | inl old ↦ rw old (
        find-update_where (has_source j) may_write (overwrite new) rows (λ x. refl)
        ∙ spared_row j (find (has_source j) rows) refl h)
    | inr absent ↦ rw absent (
        appended_other j (find (has_source j) rows) refl
          (ground (arith, eq_iff j new.source, eq_iff new.source j)))
  ]

  upsert_voice-find :
      (j : String)
      → find (has_source j) (upsert_voice may new rows) ≡ (
          if text_eq j new.source
          then some (upserted may new (find (has_source new.source) rows))
          else find (has_source j) rows)
  upsert_voice-find j = elim (Bool-cases (text_eq j new.source)) [
    | inl same ↦
        rw (same, (eq_iff j new.source).0 same)
          (upsert-same (find (has_source new.source) rows) refl)
    | inr other ↦ rw other (upsert-other j other)
  ]

-- The row that a claim or a pin would write.
abbrev pub written : String → String → Bool → Store → VoiceAssignment
written source voice pinned s = record {
  source = source;
  voice = voice;
  pinned = pinned;
  assigned_at = s.clock s.readings;
}

always : (new : VoiceAssignment) (o : Option VoiceAssignment) → upserted (λ a. true) new o ≡ new
always new none = refl
always new (some a) = refl

-- A claim leaves a pinned assignment of its source as it was and otherwise writes the claimed
-- voice; it returns what its source is then assigned, and no other source's assignment changes.
pub claim_voice-voice_assignment :
    (source voice : String) (s : Store) (j : String)
    → let o = voice_assignment source s in
      let a = upserted (λ a. not a.pinned) (written source voice false s) o in
      ((claim_voice source voice s).0 ≡ ok a)
      × (voice_assignment j (claim_voice source voice s).1
          ≡ (if text_eq j source then some a else voice_assignment j s))
unfolding voice_assignment claim_voice write_voices
claim_voice-voice_assignment source voice s j =
    let new = written source voice false s in
    rw (upsert-same (λ a. not a.pinned) new s.voice_assignments _ refl)
      (refl, upsert_voice-find (λ a. not a.pinned) new s.voice_assignments j)

-- A pin always writes the pinned voice, and returns it; no other source's assignment changes.
pub pin_voice-voice_assignment :
    (source voice : String) (s : Store) (j : String)
    → let a = written source voice true s in
      ((pin_voice source voice s).0 ≡ ok a)
      × (voice_assignment j (pin_voice source voice s).1
          ≡ (if text_eq j source then some a else voice_assignment j s))
unfolding voice_assignment pin_voice write_voices
pin_voice-voice_assignment source voice s j =
    let new = written source voice true s in
    rw
      (
        upsert-same (λ a. true) new s.voice_assignments _ refl,
        always new (find (has_source source) s.voice_assignments),
      )
      (
        refl,
        rw (always new (find (has_source source) s.voice_assignments)) at
            (upsert_voice-find (λ a. true) new s.voice_assignments j),
      )
