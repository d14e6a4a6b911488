-- ===== src/Synthesis/Whole.antt =====
-- What src/aitts/store.py makes of a unit of work that is a whole utterance.
use ai_tts.Common.{
  ℕ, ◌≡◌, refl, ◌∙◌, sym, Bool, true, false, String, Option, none, some, arith, eq_iff,
}
use ai_tts.Model.{
  SynthesisWork, Utterance, State, synthesizing, ready, failed, state_is, is_terminal,
  can_transition,
}
use ai_tts.Store.{Store, Result, ok, raised}
use ai_tts.Store.Exec
use ai_tts.Store.Reads.{get}
use ai_tts.Store.Transition.{Changes, transition}
use ai_tts.Store.Transition.Effect.{transition-effect, transition_lem}
use ai_tts.Store.Streaming.{
  streaming_job, synthesis_work_is_active, publish_rendered, rendered, failure, finish_synthesis,
  fail_synthesis,
}
use ai_tts.Synthesis.Rest.{state_is-synthesizing}
use ai_tts.Synthesis.Concluded.{unit_state, unit_state-whole}
use ai_tts.Common.Table.{map_option}

abbrev renders : Option Utterance → Bool
renders none = false
renders (some u) = state_is u.state synthesizing

transition-jobs :
    (w : SynthesisWork) (to : State) (ch : Changes) (s : Store) (u : Utterance)
    → get w.utterance_id s ≡ some u
    → can_transition u.state to ≡ true
    → streaming_job w (transition w.utterance_id to ch s).1 ≡ streaming_job w s
unfolding streaming_job
transition-jobs w to ch s u e h = rw (transition_lem w.utterance_id to ch s u e h) refl

module _ (w : SynthesisWork) (whole : w.segment_index ≡ none) where
  -- The utterance is not being rendered, and nothing streams it.
  abbrev Idle : Store → Type 0
  Idle s = (streaming_job w s ≡ false) × (renders (get w.utterance_id s) ≡ false)

  -- And it is in this state.
  abbrev Rested : State → Store → Type 0
  Rested to s = Idle s × (map_option (λ u. u.state) (get w.utterance_id s) ≡ some to)

  active_by :
      (s : Store) (o : Option Utterance)
      → streaming_job w s ≡ false
      → get w.utterance_id s ≡ o
      → synthesis_work_is_active w s ≡ renders o
  unfolding synthesis_work_is_active is_terminal
  active_by s none h e = rw e refl
  active_by s (some u) h e = rw (e, h, whole) (ground arith)

  active_when :
      (s : Store)
      → streaming_job w s ≡ false
      → synthesis_work_is_active w s ≡ renders (get w.utterance_id s)
  active_when s h = active_by s (get w.utterance_id s) h refl

  rendering :
      (s : Store) (o : Option Utterance)
      → get w.utterance_id s ≡ o
      → renders o ≡ true
      → (u : Utterance) × (get w.utterance_id s ≡ some u) × (u.state ≡ synthesizing)
  rendering s none e h = absurd (ground arith)
  rendering s (some u) e h = (u, e, state_is-synthesizing u.state h)

  transition-Idle :
      (to : State) (ch : Changes) (s : Store)
      → can_transition synthesizing to ≡ true
      → state_is to synthesizing ≡ false
      → streaming_job w s ≡ false
      → synthesis_work_is_active w s ≡ true
      → (v : Utterance) × ((transition w.utterance_id to ch s).0 ≡ ok v)
        × Rested to (transition w.utterance_id to ch s).1
  transition-Idle to ch s h k j a =
      let (u, e, r) = rendering s (get w.utterance_id s) refl (sym (active_when s j) ∙ a) in
      let permitted : can_transition u.state to ≡ true = rw r h in
      let (v, o, st, g, _, _) =
        transition-effect w.utterance_id to ch s u w.utterance_id 0 e permitted in
      let same = (eq_iff w.utterance_id w.utterance_id).1 refl in
      (
        v,
        o,
        (
          (transition-jobs w to ch s u e permitted ∙ j, rw (g, same) (rw st k)),
          rw (g, same) (rw st refl),
        ),
      )

  -- An action on the store that returns and leaves the work at rest.
  abbrev Rests : State → Result (Unit {0}) × Store → Type 0
  Rests to r = (r.0 ≡ ok tt) × Rested to r.1

  after_transition :
      (to : State) (r : Result Utterance × Store)
      → ((v : Utterance) × (r.0 ≡ ok v) × Rested to r.1)
      → Rests to (Exec.continue r (λ v. Exec.pure tt))
  after_transition to (ok u, s) (v, e, i) = (refl, i)
  after_transition to (raised x, s) (v, e, i) = absurd (ground arith)

  fail_synthesis-Rests :
      (error : String) (s : Store)
      → streaming_job w s ≡ false
      → synthesis_work_is_active w s ≡ true
      → Rests failed (fail_synthesis w error s)
  unfolding fail_synthesis can_transition streaming_job
  fail_synthesis-Rests error s j a = rw whole (
      after_transition failed (transition w.utterance_id failed (failure error) s)
        (transition-Idle failed (failure error) s refl refl j a))

  finish_synthesis-Rests :
      (path : String) (duration : Option ℕ) (s : Store)
      → streaming_job w s ≡ false
      → synthesis_work_is_active w s ≡ true
      → Rests ready (finish_synthesis w path duration s)
  unfolding finish_synthesis publish_rendered can_transition streaming_job
  finish_synthesis-Rests path duration s j a =
      rw (j, whole)
        (after_transition ready (transition w.utterance_id ready (rendered path duration) s)
          (transition-Idle ready (rendered path duration) s refl refl j a))

  inactive :
      (s : Store) → Idle s → (streaming_job w s ≡ false) × (synthesis_work_is_active w s ≡ false)
  inactive s i = (i.0, active_when s i.0 ∙ i.1)

  settled :
      (to : State) (r : Result (Unit {0}) × Store)
      → Rests to r
      → (r.0 ≡ ok tt)
        × (streaming_job w r.1 ≡ false)
        × (synthesis_work_is_active w r.1 ≡ false)
        × (unit_state w r.1 ≡ some to)
  settled to (r, s) (e, (i, st)) =
      (e, (inactive s i).0, (inactive s i).1, unit_state-whole w s whole ∙ st)

  pub fail_whole :
      (error : String) (s : Store)
      → streaming_job w s ≡ false
      → synthesis_work_is_active w s ≡ true
      → let r = fail_synthesis w error s in
        (r.0 ≡ ok tt)
        × (streaming_job w r.1 ≡ false)
        × (synthesis_work_is_active w r.1 ≡ false)
        × (unit_state w r.1 ≡ some failed)
  fail_whole error s j a = settled failed _ (fail_synthesis-Rests error s j a)

  pub finish_whole :
      (path : String) (duration : Option ℕ) (s : Store)
      → streaming_job w s ≡ false
      → synthesis_work_is_active w s ≡ true
      → let r = finish_synthesis w path duration s in
        (r.0 ≡ ok tt)
        × (streaming_job w r.1 ≡ false)
        × (synthesis_work_is_active w r.1 ≡ false)
        × (unit_state w r.1 ≡ some ready)
  finish_whole path duration s j a = settled ready _ (finish_synthesis-Rests path duration s j a)
