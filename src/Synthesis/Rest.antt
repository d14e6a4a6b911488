-- ===== src/Synthesis/Rest.antt =====
-- What the statements of src/aitts/store.py do to a segment that is no longer being rendered.
use ai_tts.Common.{
  ℕ, ◌≡◌, refl, ap, ◌∙◌, Bool, true, false, ◌&&◌, String, Option, none, some, [], ◌∷◌, text_eq,
  ◌==◌, arith, Bool-cases, inl, inr,
}
use ai_tts.Common.Table.{find, find_holds, updated, map_option, find-update_where}
use ai_tts.Model.{
  SynthesisWork, Utterance, UtteranceSegment, State, submitted, queued, synthesizing, ready,
  playing, paused, played, skipped, cancelled, failed, state_is, state_in, can_transition,
}
use ai_tts.Store.{Store, Event, Result, ok, raised}
use ai_tts.Store.Exec.{
  Exec, IsOrder, Keeps, Keeps-bind, Keeps-pure, Keeps-raise, Keeps-gets, Keeps-require, Keeps-if,
  Keeps-if_found, time, emit, continue, ◌>>◌,
}
use ai_tts.Store.Reads.{is_child, get_segment}
use ai_tts.Store.Transition.{
  Changes, set_segment, write_utterances, write_segments, cancel_children, announce, move,
  transition, announce_segment, move_segment, transition_segment,
}
use ai_tts.Store.Streaming.{
  streaming_job, refresh_composite_duration, promote_parent, rendered, live_states,
  publish_rendered, fail_parent, fail_child,
}

pub state_is-synthesizing : (st : State) → state_is st synthesizing ≡ true → st ≡ synthesizing
state_is-synthesizing submitted h = absurd (ground arith)
state_is-synthesizing queued h = absurd (ground arith)
state_is-synthesizing synthesizing h = refl
state_is-synthesizing ready h = absurd (ground arith)
state_is-synthesizing playing h = absurd (ground arith)
state_is-synthesizing paused h = absurd (ground arith)
state_is-synthesizing played h = absurd (ground arith)
state_is-synthesizing skipped h = absurd (ground arith)
state_is-synthesizing cancelled h = absurd (ground arith)
state_is-synthesizing failed h = absurd (ground arith)

module _ (w : SynthesisWork) (i : ℕ) where
  abbrev pub renders : Option UtteranceSegment → Bool
  renders none = false
  renders (some g) = state_is g.state synthesizing

  -- The segment is not being rendered, and nothing streams it.
  abbrev pub Idle : Store → Type 0
  Idle s = (streaming_job w s ≡ false) × (renders (get_segment w.utterance_id i s) ≡ false)

  record Rests (s t : Store) : Type 0 where
    on : Idle s → Idle t

  Rests-IsOrder : IsOrder Rests
  Rests-IsOrder = record {
    same = λ s. record { on = λ h. h };
    compose = λ f g. record { on = λ h. g.on (f.on h) };
  }

  elsewhere-Rests :
      (s t : Store) → t.segments ≡ s.segments → t.streaming_jobs ≡ s.streaming_jobs → Rests s t
  unfolding streaming_job get_segment
  elsewhere-Rests s t e f = record { on = λ h. rw (e, f) h }

  time-Rests : Keeps Rests time
  time-Rests = record { at = λ s. elsewhere-Rests s _ refl refl }

  emit-Rests : (e : Event) → Keeps Rests (emit e)
  emit-Rests e = record { at = λ s. elsewhere-Rests s _ refl refl }

  write_utterances-Rests :
      (p : Utterance → Bool) (f : Utterance → Utterance) → Keeps Rests (write_utterances p f)
  unfolding write_utterances
  write_utterances-Rests p f = record { at = λ s. elsewhere-Rests s _ refl refl }

  renders_after :
      (p : UtteranceSegment → Bool) (f : UtteranceSegment → UtteranceSegment)
      (o : Option UtteranceSegment)
      → ((g : UtteranceSegment) → state_is (f g).state synthesizing ≡ false)
      → renders o ≡ false
      → renders (map_option (updated p f) o) ≡ false
  renders_after p f none h k = refl
  renders_after p f (some g) h k = elim (Bool-cases (p g)) [
    | inl written ↦ rw written (h g)
    | inr spared ↦ rw spared k
  ]

  write_segments-Rests :
      (p : UtteranceSegment → Bool) (f : UtteranceSegment → UtteranceSegment)
      → ((g : UtteranceSegment) → is_child w.utterance_id i (f g) ≡ is_child w.utterance_id i g)
      → ((g : UtteranceSegment) → state_is (f g).state synthesizing ≡ false)
      → Keeps Rests (write_segments p f)
  unfolding write_segments get_segment streaming_job
  write_segments-Rests p f same h = record {
    at = λ s. record {
      on = λ k. (
        k.0,
        ap renders (find-update_where (is_child w.utterance_id i) p f s.segments same)
            ∙ renders_after p f (find (is_child w.utterance_id i) s.segments) h k.1,
      );
    };
  }

  cancel_children-Rests : (id : String) → Keeps Rests (cancel_children id)
  unfolding cancel_children
  cancel_children-Rests id = write_segments-Rests _ _ (λ g. refl) (λ g. refl)

  ruleset resting_rules = (
    Keeps-bind, Keeps-pure, Keeps-raise, Keeps-gets, Keeps-require, Keeps-if, Keeps-if_found,
    Rests-IsOrder, time-Rests, emit-Rests, write_utterances-Rests, cancel_children-Rests,
  )

  announce-Rests : (id : String) (before : State) → Keeps Rests (announce id before)
  unfolding announce
  announce-Rests id before = search resting_rules

  move-Rests :
      (id : String) (to : State) (ch : Changes) (before : State)
      → Keeps Rests (move id to ch before)
  unfolding move
  move-Rests id to ch before = search (resting_rules, announce-Rests) depth 8

  transition-Rests : (id : String) (to : State) (ch : Changes) → Keeps Rests (transition id to ch)
  unfolding transition
  transition-Rests id to ch = search (resting_rules, move-Rests) depth 8

  promote_parent-Rests : (id : String) → Keeps Rests (promote_parent id)
  unfolding promote_parent
  promote_parent-Rests id = search (resting_rules, transition-Rests) depth 8

  refresh-Rests : (id : String) → Keeps Rests (refresh_composite_duration id)
  unfolding refresh_composite_duration
  refresh-Rests id = search resting_rules depth 8

  fail_parent-Rests : (id error : String) → Keeps Rests (fail_parent id error)
  unfolding fail_parent
  fail_parent-Rests id error = search (resting_rules, transition-Rests) depth 8

  announce_segment-Rests :
      (id : String) (j : ℕ) (before : State) → Keeps Rests (announce_segment id j before)
  unfolding announce_segment
  announce_segment-Rests id j before = search resting_rules

  -- A write to the segments that reaches this one if it is being rendered.
  write_segments-Idle :
      (p : UtteranceSegment → Bool) (f : UtteranceSegment → UtteranceSegment) (s : Store)
      → ((g : UtteranceSegment) → is_child w.utterance_id i (f g) ≡ is_child w.utterance_id i g)
      → ((g : UtteranceSegment) → state_is (f g).state synthesizing ≡ false)
      → streaming_job w s ≡ false
      → ((g : UtteranceSegment)
          → is_child w.utterance_id i g ≡ true
          → state_is g.state synthesizing ≡ true
          → p g ≡ true)
      → Idle (write_segments p f s).1
  unfolding write_segments get_segment streaming_job
  write_segments-Idle p f s same h j reach = (
    j,
    ap renders (find-update_where (is_child w.utterance_id i) p f s.segments same)
        ∙ reached (find (is_child w.utterance_id i) s.segments) refl,
  )
    where
      reached :
          (o : Option UtteranceSegment)
          → find (is_child w.utterance_id i) s.segments ≡ o
          → renders (map_option (updated p f) o) ≡ false
      reached none e = refl
      reached (some g) e = elim (Bool-cases (state_is g.state synthesizing)) [
        | inl on ↦
            let named = find_holds (is_child w.utterance_id i) s.segments {x = g} e in
            simp (reach g named on) (h g)
        | inr off ↦ renders_after p f (some g) h off
      ]

  then_Idle :
      {A B : Type 0} (r : Result A × Store) (f : A → Exec B)
      → Idle r.1
      → ((a : A) → Keeps Rests (f a))
      → Idle (continue r f).1
  then_Idle (ok a, s) f h k = ((k a).at s).on h
  then_Idle (raised e, s) f h k = h

  abbrev close_rest : String → Exec (Unit {0})
  close_rest error =
      write_segments
        (λ g.
          text_eq g.utterance_id w.utterance_id
          && state_in g.state (queued ∷ synthesizing ∷ ready ∷ []))
        (λ g. record g { state = cancelled })
      >> fail_parent w.utterance_id error

  close_rest-Rests : (error : String) → Keeps Rests (close_rest error)
  close_rest-Rests error =
      Keeps-bind Rests-IsOrder _ _ (write_segments-Rests _ _ (λ g. refl) (λ g. refl))
        (λ _. fail_parent-Rests w.utterance_id error)

  pub fail_child-Idle :
      (error : String) (s : Store) → streaming_job w s ≡ false → Idle (fail_child w i error s).1
  unfolding fail_child
  fail_child-Idle error s j =
      let live : UtteranceSegment → Bool =
        λ g. is_child w.utterance_id i g && state_in g.state (live_states (streaming_job w s)) in
      let fail : UtteranceSegment → UtteranceSegment =
        λ g. record g { state = failed; error = some error } in
      then_Idle (write_segments live fail s) (λ _. close_rest error)
        (write_segments-Idle live fail s (λ g. refl) (λ g. refl) j
          (λ g named on. simp (named, j) (ground (arith, on))))
        (λ _. close_rest-Rests error)

  transition_segment-Idle :
      (ch : Changes) (s : Store) (g : UtteranceSegment)
      → streaming_job w s ≡ false
      → get_segment w.utterance_id i s ≡ some g
      → g.state ≡ synthesizing
      → Idle (transition_segment w.utterance_id i ready ch s).1
  unfolding transition_segment move_segment can_transition
  transition_segment-Idle ch s g j e st =
      let permitted : can_transition g.state ready ≡ true = ap (λ x. can_transition x ready) st in
      simp (e, permitted)
        (then_Idle (write_segments (is_child w.utterance_id i) (set_segment ready ch) s)
          (λ _. announce_segment w.utterance_id i g.state)
          (write_segments-Idle (is_child w.utterance_id i) (set_segment ready ch) s (λ x. refl)
            (λ x. refl) j (λ x named on. named))
          (λ _. announce_segment-Rests w.utterance_id i g.state))

  pub publish_rendered-Idle :
      (path : String) (duration : Option ℕ) (s : Store) (g : UtteranceSegment)
      → w.segment_index ≡ some i
      → streaming_job w s ≡ false
      → get_segment w.utterance_id i s ≡ some g
      → g.state ≡ synthesizing
      → Idle (publish_rendered w path duration s).1
  unfolding publish_rendered streaming_job
  publish_rendered-Idle path duration s g part j e st =
      let change = rendered path duration in
      rw part (
        then_Idle (transition_segment w.utterance_id i ready change s) _
          (transition_segment-Idle change s g j e st)
          (λ _.
            Keeps-bind Rests-IsOrder _ _
              (Keeps-if Rests-IsOrder (i == 0) _ _ (promote_parent-Rests w.utterance_id)
                (Keeps-pure Rests-IsOrder tt))
              (λ _. refresh-Rests w.utterance_id)))
