-- ===== src/Store/Transition/Effect.antt =====
-- What a transition of src/aitts/store.py changes, on each branch.
use ai_tts.Common.{
  ℕ, suc, ◌≡◌, refl, sym, subst, ◌∙◌, inl, inr, Bool, true, false, ◌&&◌, String, Option, none, some,
  List, [], ◌∷◌, ◌++◌, arith, Bool-cases, text_eq, eq_iff, if◌then◌else◌,
}
use ai_tts.Common.Table.{find, find_holds, update_where, updated, map_option, find-update_where}
use ai_tts.Model.{Utterance, UtteranceSegment, State, cancelled, state_in, terminal, can_transition}
use ai_tts.Store.{Store, ok, on_transition}
use ai_tts.Store.Reads.{has_id, is_child, get, get_segment}
use ai_tts.Store.Transition.{
  Changes, set_utterance, unfinished, cancel_children, write_utterances, write_segments, announce,
  move, transition,
}

abbrev cancel : UtteranceSegment → UtteranceSegment
cancel g = record g { state = cancelled }

abbrev children_after : Bool → String → List UtteranceSegment → List UtteranceSegment
children_after b id gs = if b then update_where (unfinished id) cancel gs else gs

module _ (id : String) (to : State) (ch : Changes) (s : Store) (u : Utterance)
    (e : get id s ≡ some u) where
  abbrev moved_row : Utterance
  moved_row = set_utterance to ch (s.clock s.readings) u

  abbrev moved_rows : List Utterance
  moved_rows = update_where (has_id id) (set_utterance to ch (s.clock s.readings)) s.utterances

  find-moved_rows :
      (j : String)
      → find (has_id j) moved_rows
        ≡ map_option
            (updated (has_id id) (set_utterance to ch (s.clock s.readings)))
            (find (has_id j) s.utterances)
  find-moved_rows j = find-update_where (has_id j) (has_id id) _ s.utterances (λ x. refl)

  found_moved : find (has_id id) moved_rows ≡ some moved_row
  unfolding get
  found_moved = find-moved_rows id ∙ rw (e, find_holds (has_id id) s.utterances {x = u} e)

  abbrev moved_store : Store
  moved_store = record s {
    utterances = moved_rows;
    segments = children_after (state_in to terminal) id s.segments;
    readings = suc s.readings;
    events = s.events ++ on_transition moved_row u.state ∷ [];
  }

  pub transition_lem :
      can_transition u.state to ≡ true → transition id to ch s ≡ (ok moved_row, moved_store)
  unfolding transition move announce cancel_children write_utterances write_segments get
  transition_lem h = elim (Bool-cases (state_in to terminal)) [
    | inl closes ↦ rw (e, h, closes, found_moved)
    | inr stays ↦ rw (e, h, stays, found_moved)
  ]

  other_row :
      (j : String)
      → text_eq j id ≡ false
      → (o : Option Utterance) → find (has_id j) s.utterances ≡ o
      → map_option (updated (has_id id) (set_utterance to ch (s.clock s.readings))) o ≡ o
  other_row j h none f = refl
  other_row j h (some x) f =
      let named : x.id ≡ j = (eq_iff x.id j).0 (find_holds (has_id j) s.utterances {x = x} f) in
      rw (named, h)

  rows_after : (j : String) → get j moved_store ≡ (if text_eq j id then some moved_row else get j s)
  unfolding get
  rows_after j = elim (Bool-cases (text_eq j id)) [
    | inl same ↦ rw (same, (eq_iff j id).0 same) found_moved
    | inr other ↦
        rw other (find-moved_rows j ∙ other_row j other (find (has_id j) s.utterances) refl)
  ]

  abbrev child_after : UtteranceSegment → UtteranceSegment
  child_after g = record g {
    state = if state_in to terminal && unfinished id g then cancelled else g.state;
  }

  found_child :
      (o : Option UtteranceSegment)
      → state_in to terminal ≡ true
      → map_option (updated (unfinished id) cancel) o ≡ map_option child_after o
  found_child none h = refl
  found_child (some g) h = rw h (ground arith)

  same_child :
      (o : Option UtteranceSegment) → state_in to terminal ≡ false → o ≡ map_option child_after o
  same_child none h = refl
  same_child (some g) h = rw h

  segments_after :
      (j : String) (i : ℕ)
      → get_segment j i moved_store ≡ map_option child_after (get_segment j i s)
  unfolding get_segment
  segments_after j i = elim (Bool-cases (state_in to terminal)) [
    | inl closes ↦
        subst
          (λ b.
            find (is_child j i) (children_after b id s.segments)
            ≡ map_option child_after (find (is_child j i) s.segments))
          (sym closes)
          (find-update_where (is_child j i) (unfinished id) cancel s.segments (λ x. refl)
            ∙ found_child (find (is_child j i) s.segments) closes)
    | inr stays ↦
        subst
          (λ b.
            find (is_child j i) (children_after b id s.segments)
            ≡ map_option child_after (find (is_child j i) s.segments))
          (sym stays) (same_child (find (is_child j i) s.segments) stays)
  ]

-- A transition of a stored utterance that the table permits succeeds: it returns the utterance in
-- the new state, which is what the database then holds under its identifier, calls the observers
-- once, with the utterance and the state that it left, and leaves what is stored under every other
-- identifier as it was; every segment stays as it was, but that those of this utterance which are
-- not in a terminal state are cancelled if the new state is terminal.
pub transition-effect :
    (id : String) (to : State) (ch : Changes) (s : Store) (u : Utterance) (j : String) (i : ℕ)
    → get id s ≡ some u
    → can_transition u.state to ≡ true
    → let t = (transition id to ch s).1 in
      (v : Utterance) × ((transition id to ch s).0 ≡ ok v)
      × (v.state ≡ to)
      × (get j t ≡ (if text_eq j id then some v else get j s))
      × (t.events ≡ s.events ++ on_transition v u.state ∷ [])
      × (get_segment j i t
          ≡ map_option {A = UtteranceSegment}
              (λ g. record g {
                state = if state_in to terminal && unfinished id g then cancelled else g.state;
              })
              (get_segment j i s))
transition-effect id to ch s u j i e h = rw (transition_lem id to ch s u e h) (
  moved_row id to ch s u e,
  refl,
  refl,
  rows_after id to ch s u e j,
  refl,
  segments_after id to ch s u e j i,
)
