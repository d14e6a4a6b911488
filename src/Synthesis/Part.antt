-- ===== src/Synthesis/Part.antt =====
-- What src/aitts/store.py makes of a unit of work that is one segment of an utterance.
use ai_tts.Common.{
  ℕ, ◌≡◌, refl, ap, ◌∙◌, sym, true, false, String, Option, none, some, ◌⊎◌, if◌then◌else◌, arith,
  Bool-cases, inl, inr,
}
use ai_tts.Model.{
  SynthesisWork, Utterance, UtteranceSegment, synthesizing, ready, failed, state_is, is_terminal,
}
use ai_tts.Store.{Store}
use ai_tts.Store.Reads.{get, get_segment}
use ai_tts.Store.Streaming.{
  streaming_job, child_of, synthesis_work_is_active, finish_synthesis, fail_child, fail_synthesis,
}
use ai_tts.Synthesis.Rest.{
  renders, Idle, state_is-synthesizing, fail_child-Idle, publish_rendered-Idle,
}
use ai_tts.Synthesis.Concluded.{
  segment_state, unit_state, unit_state-part, fail_child-failed, publish_rendered-ready,
}

module _ (w : SynthesisWork) (i : ℕ) (part : w.segment_index ≡ some i) (s : Store)
    (j : streaming_job w s ≡ false) where
  rendered_segment :
      (o : Option UtteranceSegment)
      → get_segment w.utterance_id i s ≡ o
      → renders w i o ≡ true
      → (g : UtteranceSegment) × (get_segment w.utterance_id i s ≡ some g)
        × (state_is g.state synthesizing ≡ true)
  rendered_segment none e h = absurd (ground arith)
  rendered_segment (some g) e h = (g, e, h)

  child_found : child_of w s ≡ get_segment w.utterance_id i s
  child_found =
      ap {A = Option ℕ} (λ x. elim x [ none ↦ none | some k ↦ get_segment w.utterance_id k s ]) part

  active_under :
      (u : Utterance)
      → get w.utterance_id s ≡ some u
      → synthesis_work_is_active w s
        ≡ (if is_terminal u then false else renders w i (get_segment w.utterance_id i s))
  unfolding synthesis_work_is_active
  active_under u e =
      simp (e, j, part) (ap (λ o. if is_terminal u then false else renders w i o) child_found)

  active_absent : get w.utterance_id s ≡ none → synthesis_work_is_active w s ≡ false
  unfolding synthesis_work_is_active
  active_absent e = simp e refl

  -- The work is active only if the segment is being rendered.
  active_by :
      (o : Option Utterance)
      → get w.utterance_id s ≡ o
      → (synthesis_work_is_active w s ≡ false)
        ⊎ (synthesis_work_is_active w s ≡ renders w i (get_segment w.utterance_id i s))
  active_by none e = inl (active_absent e)
  active_by (some u) e = elim (Bool-cases (is_terminal u)) [
    | inl over ↦ inl (active_under u e ∙ rw over refl)
    | inr live ↦ inr (active_under u e ∙ rw live refl)
  ]

  inactive : Idle w i s → (streaming_job w s ≡ false) × (synthesis_work_is_active w s ≡ false)
  inactive (k, h) = elim (active_by (get w.utterance_id s) refl) [
    | inl over ↦ (k, over)
    | inr same ↦ (k, same ∙ h)
  ]

  rendering :
      synthesis_work_is_active w s ≡ true
      → (g : UtteranceSegment) × (get_segment w.utterance_id i s ≡ some g)
        × (g.state ≡ synthesizing)
  rendering a = elim (active_by (get w.utterance_id s) refl) [
    | inl over ↦ absurd (ground (arith, over, a))
    | inr same ↦
        let (g, e, h) = rendered_segment (get_segment w.utterance_id i s) refl (sym same ∙ a) in
        (g, e, state_is-synthesizing g.state h)
  ]

-- A segment that was being rendered has failed, and is no longer active.
pub fail_part :
    (w : SynthesisWork) (i : ℕ) (error : String) (s : Store)
    → w.segment_index ≡ some i
    → streaming_job w s ≡ false
    → synthesis_work_is_active w s ≡ true
    → let t = (fail_synthesis w error s).1 in
      (streaming_job w t ≡ false)
      × (synthesis_work_is_active w t ≡ false)
      × (unit_state w t ≡ some failed)
unfolding fail_synthesis fail_child streaming_job
fail_part w i error s part j a =
    let (g, e, st) = rendering w i part s j a in
    let idle : Idle w i (fail_synthesis w error s).1 = rw part (fail_child-Idle w i error s j) in
    let closed = inactive w i part _ idle.0 idle in
    let failing : segment_state w.utterance_id i (fail_synthesis w error s).1 ≡ some failed =
      rw part (fail_child-failed w i error s g j e st) in
    (closed.0, closed.1, unit_state-part w i _ part ∙ failing)

-- One that is finished is ready.
pub finish_part :
    (w : SynthesisWork) (i : ℕ) (path : String) (duration : Option ℕ) (s : Store)
    → w.segment_index ≡ some i
    → streaming_job w s ≡ false
    → synthesis_work_is_active w s ≡ true
    → let t = (finish_synthesis w path duration s).1 in
      (streaming_job w t ≡ false)
      × (synthesis_work_is_active w t ≡ false)
      × (unit_state w t ≡ some ready)
unfolding finish_synthesis
finish_part w i path duration s part j a =
    let (g, e, st) = rendering w i part s j a in
    let idle : Idle w i (finish_synthesis w path duration s).1 =
      simp j (publish_rendered-Idle w i path duration s g part j e st) in
    let closed = inactive w i part _ idle.0 idle in
    let published : segment_state w.utterance_id i (finish_synthesis w path duration s).1
        ≡ some ready =
      simp j (publish_rendered-ready w i path duration s g part e st) in
    (closed.0, closed.1, unit_state-part w i _ part ∙ published)
