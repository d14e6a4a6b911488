-- ===== src/Store/Skipped.antt =====
-- What a skip leaves in src/aitts/store.py.
use ai_tts.Common.{
  ℕ, ◌≡◌, refl, ◌∙◌, ap, true, Option, none, some, [], ◌∷◌, String, text_eq, eq_iff, arith,
}
use ai_tts.Model.{
  Utterance, UtteranceSegment, State, submitted, queued, synthesizing, ready, playing, paused,
  played, skipped, cancelled, failed, state_in, can_transition,
}
use ai_tts.Store.{Store, Result, ok, on_segment_transition}
use ai_tts.Common.Table.{find}
use ai_tts.Store.Exec.{Exec, continue, emit, if_found}
use ai_tts.Store.Reads.{has_id, get, get_segment}
use ai_tts.Store.Transition.{no_changes, transition, write_segments}
use ai_tts.Store.Transition.Effect.{transition-effect}
use ai_tts.Store.Streaming.{announce_segment_found}
use ai_tts.Store.Replay.{active_child, skip_child, announce_skipped, skip_utterance}

may_skip :
    (st : State) → state_in st (playing ∷ paused ∷ []) ≡ true → can_transition st skipped ≡ true
unfolding can_transition
may_skip submitted h = absurd (ground arith)
may_skip queued h = absurd (ground arith)
may_skip synthesizing h = absurd (ground arith)
may_skip ready h = absurd (ground arith)
may_skip playing h = refl
may_skip paused h = refl
may_skip played h = absurd (ground arith)
may_skip skipped h = absurd (ground arith)
may_skip cancelled h = absurd (ground arith)
may_skip failed h = absurd (ground arith)

-- The writes of a skip to the segments leave the utterances as they are, and so does its announcement.
skip_child-utterances :
    (id : String) (position : ℕ) (g : Option UtteranceSegment) (s : Store)
    → ((skip_child id position g s).0 ≡ ok tt)
      × ((skip_child id position g s).1.utterances ≡ s.utterances)
unfolding skip_child write_segments
skip_child-utterances id position none s = (refl, refl)
skip_child-utterances id position (some g) s = (refl, refl)

emit_found-utterances :
    (x : Option UtteranceSegment) (before : State) (s : Store)
    → ((if_found x (λ g. emit (on_segment_transition g before)) s).0 ≡ ok tt)
      × ((if_found x (λ g. emit (on_segment_transition g before)) s).1.utterances ≡ s.utterances)
unfolding if_found
emit_found-utterances none before s = (refl, refl)
emit_found-utterances (some g) before s = (refl, refl)

announce_skipped-utterances :
    (id : String) (g : Option UtteranceSegment) (s : Store)
    → ((announce_skipped id g s).0 ≡ ok tt)
      × ((announce_skipped id g s).1.utterances ≡ s.utterances)
unfolding announce_skipped announce_segment_found
announce_skipped-utterances id none s = (refl, refl)
announce_skipped-utterances id (some g) s =
    emit_found-utterances (get_segment id g.index s) g.state s

-- An action that has returned is followed by the next one.
continue_ok :
    {A B : Type 0} (r : Result A × Store) (a : A) (f : A → Exec B)
    → r.0 ≡ ok a
    → continue r f ≡ f a r.1
continue_ok r a f e = ap (λ x. continue (x, r.1) f) e

get_same : (id : String) (s t : Store) → t.utterances ≡ s.utterances → get id t ≡ get id s
unfolding get
get_same id s t e = ap (find (has_id id)) e

module _ (id : String) (index : Option ℕ) (position : ℕ) (total : Option ℕ) (s : Store)
    (u : Utterance) (found : get id s ≡ some u)
    (heard : state_in u.state (playing ∷ paused ∷ []) ≡ true) where
  abbrev active : Option UtteranceSegment
  active = active_child id index s

  abbrev without : Store
  without = (skip_child id position active s).1

  abbrev moved : Result Utterance × Store
  moved = transition id skipped (record no_changes { played_ms = total }) without

  skipped_so :
      (v : Utterance)
      → moved.0 ≡ ok v
      → skip_utterance id index position total s ≡ (ok v, (announce_skipped id active moved.1).1)
  unfolding skip_utterance
  skipped_so v e =
      simp (found, heard)
        (continue_ok (skip_child id position active s) tt _
            (skip_child-utterances id position active s).0
          ∙ continue_ok moved v _ e
          ∙ continue_ok (announce_skipped id active moved.1) tt _
              (announce_skipped-utterances id active moved.1).0)

  -- A skip of a stored utterance that is playing or paused returns it as skipped and stores just that
  -- under its identifier, whichever of its segments is being heard.
  pub skip_utterance-effect :
      (v : Utterance) × ((skip_utterance id index position total s).0 ≡ ok v)
      × (get id (skip_utterance id index position total s).1 ≡ some v)
      × (v.state ≡ skipped)
  skip_utterance-effect =
      let kept = get_same id s without (skip_child-utterances id position active s).1 ∙ found in
      let (v, e, st, rows, told, children) =
        transition-effect id skipped (record no_changes { played_ms = total }) without u id 0 kept
          (may_skip u.state heard) in
      let self : text_eq id id ≡ true = ground (arith, eq_iff id id) in
      let stored : get id moved.1 ≡ some v = rows ∙ rw self refl in
      let so = skipped_so v e in
      let last =
        get_same id moved.1 (announce_skipped id active moved.1).1
          (announce_skipped-utterances id active moved.1).1 in
      (v, ap (λ r. r.0) so, ap (λ r. get id r.1) so ∙ last ∙ stored, st)
