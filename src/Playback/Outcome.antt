-- ===== src/Playback/Outcome.antt =====
-- What becomes of a clip in src/aitts/playback.py.
use ai_tts.Common.{
  ◌≡◌, refl, ◌∙◌, ap, true, false, none, some, [], ◌∷◌, String, text_eq, eq_iff, arith,
}
use ai_tts.Model.{
  Utterance, State, submitted, queued, synthesizing, ready, playing, paused, played, skipped,
  cancelled, failed, state_in, can_transition, is_terminal,
}
use ai_tts.Store.{Store, Result, ok}
use ai_tts.Store.Reads.{get}
use ai_tts.Store.Transition.{no_changes, transition}
use ai_tts.Store.Transition.Effect.{transition-effect}
use ai_tts.Playback.{Player}
use ai_tts.Playback.Watch.{
  finish_clip, settle_at, settle_clip, is_over, free_device, watch_current, watch,
}

may_end :
    (st : State) → state_in st (playing ∷ paused ∷ []) ≡ true → can_transition st played ≡ true
unfolding can_transition
may_end submitted h = absurd (ground arith)
may_end queued h = absurd (ground arith)
may_end synthesizing h = absurd (ground arith)
may_end ready h = absurd (ground arith)
may_end playing h = refl
may_end paused h = refl
may_end played h = absurd (ground arith)
may_end skipped h = absurd (ground arith)
may_end cancelled h = absurd (ground arith)
may_end failed h = absurd (ground arith)

played_over :
    (id : String) (s : Store) (v : Utterance)
    → get id s ≡ some v
    → v.state ≡ played
    → is_over id s ≡ true
unfolding is_terminal
played_over id s v e st = simp (e, st) refl

module _ (p : Player) (u : Utterance) (natural : p.sink.natural ≡ true)
    (chosen : p.current_id ≡ some u.id) (whole : p.current_segment_index ≡ none)
    (found : get u.id p.store ≡ some u)
    (heard : state_in u.state (playing ∷ paused ∷ []) ≡ true) where
  abbrev ended : Result Utterance × Store
  ended = transition u.id played (record no_changes { played_ms = u.duration_ms }) p.store

  watched :
      (v : Utterance)
      → ended.0 ≡ ok v
      → (watch p).1 ≡ free_device u.id (record p { store = ended.1 })
  unfolding watch watch_current settle_clip settle_at finish_clip
  watched v e = simp (natural, chosen, found, heard, whole, e) refl

  -- When the sink has come to the natural end of a clip that is spoken as a whole, and that is the
  -- current one and still playing or paused, the clip is played, the device is free and no clip is the
  -- current one.
  pub watch-played :
      (v : Utterance) × (get u.id (watch p).1.store ≡ some v)
      × (v.state ≡ played)
      × ((watch p).1.current_id ≡ none)
      × ((watch p).1.sink_active ≡ false)
  unfolding free_device
  watch-played =
      let (v, e, st, rows, told, children) =
        transition-effect u.id played (record no_changes { played_ms = u.duration_ms }) p.store u
          u.id 0 found (may_end u.state heard) in
      let self : text_eq u.id u.id ≡ true = ground (arith, eq_iff u.id u.id) in
      let stored : get u.id ended.1 ≡ some v = rows ∙ rw self refl in
      let freed = watched v e in
      let over : is_over u.id ended.1 ≡ true = played_over u.id ended.1 v stored st in
      (
        v,
        ap (λ (q : Player). get u.id q.store) freed ∙ stored,
        st,
        ap (λ (q : Player). q.current_id) freed ∙ simp over refl,
        ap (λ (q : Player). q.sink_active) freed,
      )
