-- ===== src/Playback/Start.antt =====
-- A turn of the plan of src/aitts/playback.py starts the next clip.
use ai_tts.Common.{
  ◌≡◌, refl, ◌∙◌, ap, true, false, none, some, [], ◌∷◌, ◌++◌, String, text_eq, eq_iff, arith,
}
use ai_tts.Model.{Utterance, State, ready, playing, can_transition}
use ai_tts.Store.{Store, Result, ok}
use ai_tts.Store.Reads.{get, next_pending, next_unfinished_segment}
use ai_tts.Store.Transition.{no_changes, transition}
use ai_tts.Store.Transition.Effect.{transition-effect}
use ai_tts.Playback.{Player, start}
use ai_tts.Playback.Act.{continue}
use ai_tts.Playback.Device.{configure_cue, start_audio, begin}
use ai_tts.Playback.Plan.{
  candidate, preempt_found, restore_if_free, restore_preempted, restore_from, plan_preemption,
  finish_cue_session, start_next, plan_next, plan_rest, plan,
}

may_begin : (st : State) → st ≡ ready → can_transition st playing ≡ true
unfolding can_transition
may_begin st h = simp h refl

module _ (meanwhile : Player → Player) (p : Player) (u : Utterance) (path : String)
    (free : p.held ≡ false) (idle : p.sink_active ≡ false) (none_current : p.current_id ≡ none)
    (none_waits : p.preempted_stack ≡ []) (none_interrupts : candidate p ≡ none)
    (next : next_pending none p.store ≡ some u) (is_next : u.state ≡ ready)
    (found : get u.id p.store ≡ some u) (whole : next_unfinished_segment u.id p.store ≡ none)
    (audio : u.audio_path ≡ some path) (named : text_eq path "" ≡ false) where
  abbrev begun : Result Utterance × Store
  begun = transition u.id playing no_changes p.store

  nothing_interrupts : plan_preemption meanwhile p ≡ (ok tt, p)
  unfolding plan_preemption preempt_found restore_if_free restore_preempted restore_from
  nothing_interrupts = simp (free, none_interrupts, none_current, none_waits) refl

  next_begins : plan_rest p ≡ begin u.id path 0 p
  unfolding plan_rest plan_next finish_cue_session start_next
  next_begins = simp (free, idle, none_current, next, is_next, whole, audio, named) refl

  begins :
      (v : Utterance)
      → begun.0 ≡ ok v
      → begin u.id path 0 p ≡ (
        ok tt,
        start_audio path 0 (record (configure_cue p) { store = begun.1; current_id = some u.id }),
      )
  unfolding begin configure_cue
  begins v e = simp e refl

  -- If playback is not held and the device is free, no clip is the current one, waits to return or
  -- interrupts, and the next pending clip is ready, stored, spoken as a whole and has a file, then a
  -- turn of the plan starts that file from its beginning, and the clip is the current one and is playing.
  pub plan-starts :
      let q = (plan meanwhile p).1 in
      (v : Utterance) × (get u.id q.store ≡ some v)
      × (v.state ≡ playing)
      × (q.current_id ≡ some u.id)
      × (q.sink_active ≡ true)
      × (q.sink.started ≡ p.sink.started ++ path ∷ [])
      × (q.sink.position ≡ 0)
  unfolding plan start_audio start configure_cue
  plan-starts =
      let (v, e, st, rows, told, children) =
        transition-effect u.id playing no_changes p.store u u.id 0 found
          (may_begin u.state is_next) in
      let self : text_eq u.id u.id ≡ true = ground (arith, eq_iff u.id u.id) in
      let stored : get u.id begun.1 ≡ some v = rows ∙ rw self refl in
      let turned : (plan meanwhile p).1
          ≡ start_audio path 0
              (record (configure_cue p) { store = begun.1; current_id = some u.id }) =
        ap (λ r. (continue r (λ t. plan_rest)).1) nothing_interrupts
        ∙ ap (λ r. r.1) (next_begins ∙ begins v e) in
      (
        v,
        ap (λ (q : Player). get u.id q.store) turned ∙ stored,
        st,
        ap (λ (q : Player). q.current_id) turned,
        ap (λ (q : Player). q.sink_active) turned,
        ap (λ (q : Player). q.sink.started) turned,
        ap (λ (q : Player). q.sink.position) turned,
      )
