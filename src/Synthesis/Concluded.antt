-- ===== src/Synthesis/Concluded.antt =====
-- What src/aitts/store.py leaves of a segment that is published or has failed.
use ai_tts.Common.{
  ℕ, ◌≡◌, refl, ◌∙◌, ap, Bool, true, false, ◌&&◌, String, Option, none, some, [], ◌∷◌, text_eq,
  ◌==◌, ◌⊎◌, arith,
}
use ai_tts.Common.Table.{find, find_holds, updated, map_option, find-update_where}
use ai_tts.Model.{
  SynthesisWork, Utterance, UtteranceSegment, State, queued, synthesizing, ready, failed, cancelled,
  state_in, terminal, can_transition,
}
use ai_tts.Store.{Store, Event, Result, ok, raised}
use ai_tts.Store.Exec.{
  Exec, IsOrder, Keeps, Keeps-bind, Keeps-pure, Keeps-raise, Keeps-gets, Keeps-require, Keeps-if,
  Keeps-if_found, time, emit, continue, when, ◌>>◌,
}
use ai_tts.Store.Reads.{has_id, get, is_child, get_segment}
use ai_tts.Store.Transition.{
  Changes, set_utterance, set_segment, write_utterances, write_segments, cancel_children, announce,
  move, transition, announce_segment, move_segment, transition_segment,
}
use ai_tts.Store.Streaming.{
  streaming_job, refresh_composite_duration, promote_parent, rendered, live_states,
  publish_rendered, fail_parent, fail_child,
}

-- The state of a segment.
abbrev pub segment_state : String → ℕ → Store → Option State
segment_state id i s = map_option (λ g. g.state) (get_segment id i s)

-- The state of a unit of work in the database: that of its segment, or of the whole utterance.
abbrev pub unit_state : SynthesisWork → Store → Option State
unit_state w s = elim w.segment_index [
  | none ↦ map_option (λ u. u.state) (get w.utterance_id s)
  | some i ↦ segment_state w.utterance_id i s
]

pub unit_state-part :
    (w : SynthesisWork) (i : ℕ) (s : Store)
    → w.segment_index ≡ some i
    → unit_state w s ≡ segment_state w.utterance_id i s
unit_state-part w i s part =
    ap {A = Option ℕ}
      (λ x. elim x [
        | none ↦ map_option (λ (u : Utterance). u.state) (get w.utterance_id s)
        | some k ↦ segment_state w.utterance_id k s
      ])
      part

pub unit_state-whole :
    (w : SynthesisWork) (s : Store)
    → w.segment_index ≡ none
    → unit_state w s ≡ map_option (λ u. u.state) (get w.utterance_id s)
unit_state-whole w s whole =
    ap {A = Option ℕ}
      (λ x. elim x [
        | none ↦ map_option (λ (u : Utterance). u.state) (get w.utterance_id s)
        | some k ↦ segment_state w.utterance_id k s
      ])
      whole

-- The unit is published or has failed.
abbrev pub Concluded : SynthesisWork → Store → Type 0
Concluded w s = (unit_state w s ≡ some ready) ⊎ (unit_state w s ≡ some failed)

module _ (id : String) (i : ℕ) (final : State) where
  -- A segment in the final state remains in it.
  record Remains (s t : Store) : Type 0 where
    on : segment_state id i s ≡ some final → segment_state id i t ≡ some final

  Remains-IsOrder : IsOrder Remains
  Remains-IsOrder = record {
    same = λ s. record { on = λ h. h };
    compose = λ f g. record { on = λ h. g.on (f.on h) };
  }

  elsewhere-Remains : (s t : Store) → t.segments ≡ s.segments → Remains s t
  unfolding get_segment
  elsewhere-Remains s t e = record { on = λ h. rw e h }

  time-Remains : Keeps Remains time
  time-Remains = record { at = λ s. elsewhere-Remains s _ refl }

  emit-Remains : (e : Event) → Keeps Remains (emit e)
  emit-Remains e = record { at = λ s. elsewhere-Remains s _ refl }

  write_utterances-Remains :
      (p : Utterance → Bool) (f : Utterance → Utterance) → Keeps Remains (write_utterances p f)
  unfolding write_utterances
  write_utterances-Remains p f = record { at = λ s. elsewhere-Remains s _ refl }

  spared :
      (p : UtteranceSegment → Bool) (f : UtteranceSegment → UtteranceSegment)
      (o : Option UtteranceSegment)
      → ((g : UtteranceSegment) → g.state ≡ final → p g ≡ false)
      → map_option (λ g. g.state) o ≡ some final
      → map_option (λ g. g.state) (map_option (updated p f) o) ≡ some final
  spared p f none h e = e
  spared p f (some g) h e = simp (h g cc) e

  write_segments-Remains :
      (p : UtteranceSegment → Bool) (f : UtteranceSegment → UtteranceSegment)
      → ((g : UtteranceSegment) → is_child id i (f g) ≡ is_child id i g)
      → ((g : UtteranceSegment) → g.state ≡ final → p g ≡ false)
      → Keeps Remains (write_segments p f)
  unfolding write_segments get_segment
  write_segments-Remains p f same h = record {
    at = λ s. record {
      on = λ k.
          ap (map_option (λ g. g.state)) (find-update_where (is_child id i) p f s.segments same)
          ∙ spared p f (find (is_child id i) s.segments) h k;
    };
  }

  ruleset remaining_rules = (
    Keeps-bind, Keeps-pure, Keeps-raise, Keeps-gets, Keeps-require, Keeps-if, Keeps-if_found,
    Remains-IsOrder, time-Remains, emit-Remains, write_utterances-Remains,
  )

  announce-Remains : (a : String) (before : State) → Keeps Remains (announce a before)
  unfolding announce
  announce-Remains a before = search remaining_rules

  announce_segment-Remains :
      (a : String) (k : ℕ) (before : State) → Keeps Remains (announce_segment a k before)
  unfolding announce_segment
  announce_segment-Remains a k before = search remaining_rules

  refresh-Remains : (a : String) → Keeps Remains (refresh_composite_duration a)
  unfolding refresh_composite_duration
  refresh-Remains a = search remaining_rules depth 8

  -- A transition to a terminal state cancels no segment in a terminal one.
  cancelling-Remains :
      (a : String) (b : Bool)
      → (b ≡ true → state_in final terminal ≡ true)
      → Keeps Remains (when b (cancel_children a))
  unfolding cancel_children
  cancelling-Remains a true h =
      write_segments-Remains _ _ (λ g. refl) (λ g e. simp e (ground (arith, h refl)))
  cancelling-Remains a false h = Keeps-pure Remains-IsOrder tt

  move-Remains :
      (a : String) (to : State) (ch : Changes) (before : State)
      → (state_in to terminal ≡ true → state_in final terminal ≡ true)
      → Keeps Remains (move a to ch before)
  unfolding move
  move-Remains a to ch before h =
      let order = Remains-IsOrder in
      Keeps-bind order _ _ time-Remains λ now.
        Keeps-bind order _ _ (write_utterances-Remains (has_id a) (set_utterance to ch now)) λ _.
          Keeps-bind order _ _ (cancelling-Remains a (state_in to terminal) h)
            λ _. announce-Remains a before

  transition-Remains :
      (a : String) (to : State) (ch : Changes)
      → (state_in to terminal ≡ true → state_in final terminal ≡ true)
      → Keeps Remains (transition a to ch)
  unfolding transition
  transition-Remains a to ch h =
      let moving = λ (before : State). move-Remains a to ch before h in
      search (remaining_rules, moving) depth 8

  then_Remains :
      {A B : Type 0} (r : Result A × Store) (f : A → Exec B)
      → segment_state id i r.1 ≡ some final
      → ((a : A) → Keeps Remains (f a))
      → segment_state id i (continue r f).1 ≡ some final
  then_Remains (ok a, s) f h k = ((k a).at s).on h
  then_Remains (raised e, s) f h k = h

  -- A write that puts the segment in the final state.
  write_segments-final :
      (p : UtteranceSegment → Bool) (f : UtteranceSegment → UtteranceSegment) (s : Store)
      (g : UtteranceSegment)
      → ((g : UtteranceSegment) → is_child id i (f g) ≡ is_child id i g)
      → get_segment id i s ≡ some g
      → p g ≡ true
      → (f g).state ≡ final
      → segment_state id i (write_segments p f s).1 ≡ some final
  unfolding write_segments get_segment
  write_segments-final p f s g same e hit st =
      ap (map_option (λ g. g.state)) (find-update_where (is_child id i) p f s.segments same)
      ∙ simp (e, hit, st) refl

fail_parent-Remains :
    (id : String) (i : ℕ) (a error : String) → Keeps (Remains id i failed) (fail_parent a error)
unfolding fail_parent
fail_parent-Remains id i a error =
    let failing =
      λ (b : String) (ch : Changes). transition-Remains id i failed b failed ch (λ h. refl) in
    search (remaining_rules, failing) depth 10

-- A failed segment: the other segments and the utterance are closed after it.
close_rest-Remains :
    (w : SynthesisWork) (i : ℕ) (error : String)
    → Keeps (Remains w.utterance_id i failed) (
        write_segments
          (λ g.
            text_eq g.utterance_id w.utterance_id
            && state_in g.state (queued ∷ synthesizing ∷ ready ∷ []))
          (λ g. record g { state = cancelled })
        >> fail_parent w.utterance_id error)
close_rest-Remains w i error =
    let id = w.utterance_id in
    Keeps-bind (Remains-IsOrder id i failed) _ _
      (write_segments-Remains id i failed _ _ (λ g. refl) (λ g e. simp e (ground arith)))
      (λ _. fail_parent-Remains id i id error)

pub fail_child-failed :
    (w : SynthesisWork) (i : ℕ) (error : String) (s : Store) (g : UtteranceSegment)
    → streaming_job w s ≡ false
    → get_segment w.utterance_id i s ≡ some g
    → g.state ≡ synthesizing
    → segment_state w.utterance_id i (fail_child w i error s).1 ≡ some failed
unfolding fail_child get_segment
fail_child-failed w i error s g j e st =
    let id = w.utterance_id in
    let live : UtteranceSegment → Bool =
      λ x. is_child id i x && state_in x.state (live_states (streaming_job w s)) in
    let fail : UtteranceSegment → UtteranceSegment =
      λ x. record x { state = failed; error = some error } in
    let named : is_child id i g ≡ true = find_holds (is_child id i) s.segments {x = g} e in
    then_Remains id i failed (write_segments live fail s) _
      (write_segments-final id i failed live fail s g (λ x. refl) e (simp (named, j, st) refl) refl)
      (λ _. close_rest-Remains w i error)

publish_rest-Remains :
    (id : String) (i : ℕ)
    → Keeps
        (Remains id i ready)
        (when (i == 0) (promote_parent id) >> refresh_composite_duration id)
unfolding promote_parent
publish_rest-Remains id i =
    let readying = λ (a : String) (ch : Changes).
      transition-Remains id i ready a ready ch (λ h. absurd (ground arith)) in
    search (remaining_rules, readying, refresh-Remains) depth 10

pub publish_rendered-ready :
    (w : SynthesisWork) (i : ℕ) (path : String) (duration : Option ℕ) (s : Store)
    (g : UtteranceSegment)
    → w.segment_index ≡ some i
    → get_segment w.utterance_id i s ≡ some g
    → g.state ≡ synthesizing
    → segment_state w.utterance_id i (publish_rendered w path duration s).1 ≡ some ready
unfolding publish_rendered transition_segment move_segment can_transition get_segment
publish_rendered-ready w i path duration s g part e st =
    let id = w.utterance_id in
    let change = rendered path duration in
    let permitted : can_transition g.state ready ≡ true = ap (λ x. can_transition x ready) st in
    let named : is_child id i g ≡ true = find_holds (is_child id i) s.segments {x = g} e in
    let written =
      write_segments-final id i ready (is_child id i) (set_segment ready change) s g (λ x. refl) e
        named refl in
    rw part (
      then_Remains id i ready (transition_segment id i ready change s) _
        (simp (e, permitted)
          (then_Remains id i ready (write_segments (is_child id i) (set_segment ready change) s) _
            written (λ _. announce_segment-Remains id i ready id i g.state)))
        (λ _. publish_rest-Remains id i))
