-- ===== src/Store/Lasting/Methods.antt =====
-- What lasts is kept by each method of src/aitts/store.py that writes and deletes no history.
use mathlib.Core.List.{map-append}
use ai_tts.Common.{
  map, mem_text, distinct-append, ℕ, ◌≡◌, refl, Bool, true, false, ◌||◌, not, Option, none, some,
  String, List, [], ◌∷◌, ◌++◌, eq_iff, arith, Bool-cases, Option-cases, inl, inr, is_some,
}
use ai_tts.Common.Table.{find}
use ai_tts.Model.{Utterance, UtteranceSegment, SynthesisWork, State, is_terminal, ready}
use ai_tts.Store.{Store, StreamingJob}
use ai_tts.Store.Exec.{Exec, Keeps, Keeps-pure, if_found, when, ◌>>◌}
use ai_tts.Store.Reads.{has_id, get}
use ai_tts.Store.Submit.{Submission, submit, insert_utterance}
use ai_tts.Store.Synthesis.{ClaimRow, claim_row, claim_for_synthesis}
use ai_tts.Store.Streaming.{
  readies_parent, insert_job, discard_streaming_job, streaming_job, synthesis_work_is_active,
  announce_found, announce_segment_found, set_ready, set_state, announce_child, advertise,
  start_streaming, refresh_composite_duration, publish_streamed, promote_parent, publish_rendered,
  finish_synthesis, fail_parent, fail_child, fail_synthesis,
}
use ai_tts.Store.Lasting.{
  Lasts, Lasting-refl, Lasts-IsOrder, elsewhere-Lasts, lasting_rules, time-Lasts, emit-Lasts,
  write_segments-Lasts, write_utterances-Lasts, columns-Lasting, open-Lasting, transition-Lasts,
  transition_segment-Lasts,
}
use ai_tts.Store.Lasting.From.{
  LastsFrom, same-bind-LastsFrom, bind-LastsFrom, write-LastsFrom, Keeps-LastsFrom, if-LastsFrom,
  insert_job-Same, time-Same, set_child_state-Same,
}

-- The statements on the other tables.
insert_job-Lasts : (j : StreamingJob) → Keeps Lasts (insert_job j)
unfolding insert_job
insert_job-Lasts j = record { at = λ s. elsewhere-Lasts s _ refl }

pub discard_streaming_job-Lasts : (a : String) → Keeps Lasts (discard_streaming_job a)
unfolding discard_streaming_job
discard_streaming_job-Lasts a = record { at = λ s. elsewhere-Lasts s _ refl }

pub optional-Lasts :
    {A B : Type 0} (x : Option A) (m : Exec B) (f : A → Exec B)
    → Keeps Lasts m
    → ((a : A) → Keeps Lasts (f a))
    → Keeps Lasts (elim x [ none ↦ m | some a ↦ f a ])
optional-Lasts none m f h k = h
optional-Lasts (some a) m f h k = k a

pub ruleset method_rules = (
  lasting_rules, time-Lasts, transition-Lasts, transition_segment-Lasts, write_utterances-Lasts,
  columns-Lasting, discard_streaming_job-Lasts,
)

-- A row inserted at the end hides none that was there.
find-append :
    {A : Type 0} (p : A → Bool) (xs ys : List A) {x : A}
    → find p xs ≡ some x
    → find p (xs ++ ys) ≡ some x
find-append p [] ys h = absurd (ground arith)
find-append p (y ∷ xs) ys {x} h = ground (arith, find-append p xs ys {x = x})

absent_id :
    (id : String) (us : List Utterance)
    → is_some (find (has_id id) us) ≡ false
    → mem_text id (map (λ u. u.id) us) ≡ false
absent_id id [] h = refl
absent_id id (u ∷ us) h = ground (arith, absent_id id us, eq_iff id u.id, eq_iff u.id id)

insert-Lasts :
    (u : Utterance) (rows : List UtteranceSegment) → Keeps Lasts (insert_utterance u rows)
unfolding insert_utterance get
insert-Lasts u rows = record {
  at = λ s. elim (Bool-cases (is_some (get u.id s))) [
    | inl taken ↦ rw taken (Lasts-IsOrder.same s)
    | inr fresh ↦ rw fresh (record {
      keyed = λ d. rw map-append (distinct-append _ u.id d (absent_id u.id s.utterances fresh));
      at = λ id v e. (v, find-append (has_id id) s.utterances (u ∷ []) e, Lasting-refl v);
    })
  ];
}

pub submit-Lasts : (id : String) (sub : Submission) → Keeps Lasts (submit id sub)
unfolding submit
submit-Lasts id sub = search (method_rules, insert-Lasts) depth 8

claim_row-Lasts : (r : Option ClaimRow) → Keeps Lasts (claim_row r)
unfolding claim_row
claim_row-Lasts none = search method_rules
claim_row-Lasts (some r) =
    optional-Lasts r.child _ _ (search method_rules) (λ g. search method_rules depth 8)

pub claim-Lasts :
    (held : List String) (unbound : String) → Keeps Lasts (claim_for_synthesis held unbound)
unfolding claim_for_synthesis
claim-Lasts held unbound = search (method_rules, claim_row-Lasts)

pub announce_found-Lasts : (id : String) (before : State) → Keeps Lasts (announce_found id before)
unfolding announce_found
announce_found-Lasts id before = search method_rules depth 8

pub announce_segment_found-Lasts :
    (id : String) (i : ℕ) (before : State) → Keeps Lasts (announce_segment_found id i before)
unfolding announce_segment_found
announce_segment_found-Lasts id i before = search method_rules depth 8

announce_child-Lasts : (w : SynthesisWork) → Keeps Lasts (announce_child w)
unfolding announce_child
announce_child-Lasts w = search (method_rules, announce_segment_found-Lasts)

set_ready-LastsFrom :
    (id : String) (u : Utterance) → is_terminal u ≡ false → LastsFrom id u (set_ready id)
unfolding set_ready is_terminal
set_ready-LastsFrom id u h =
    same-bind-LastsFrom id u _ _ time-Same
      (λ now. write-LastsFrom id u (set_state ready now) (λ x. refl) (open-Lasting u _ _ _ _ h))

announce_ready-Lasts :
    (w : SynthesisWork) (u : Utterance)
    → Keeps Lasts
        (announce_child w >> when (readies_parent w u) (announce_found w.utterance_id u.state))
announce_ready-Lasts w u = search (method_rules, announce_child-Lasts, announce_found-Lasts)

advertise-LastsFrom :
    (w : SynthesisWork) (u : Utterance)
    → is_terminal u ≡ false
    → LastsFrom w.utterance_id u (advertise w u)
unfolding advertise
advertise-LastsFrom w u h =
    let id = w.utterance_id in
    same-bind-LastsFrom id u _ _ (insert_job-Same _) λ _.
      same-bind-LastsFrom id u _ _ (set_child_state-Same w _) λ _.
        bind-LastsFrom id u _ _
          (if-LastsFrom id u (readies_parent w u) _ _ (set_ready-LastsFrom id u h)
            (Keeps-LastsFrom id u _ (Keeps-pure Lasts-IsOrder tt)))
          λ _. announce_ready-Lasts w u

-- Work that is active belongs to an open utterance.
active_is_open :
    (w : SynthesisWork) (s : Store) (u : Utterance)
    → get w.utterance_id s ≡ some u
    → synthesis_work_is_active w s ≡ true
    → is_terminal u ≡ false
unfolding synthesis_work_is_active
active_is_open w s u e h = ground arith

pub start_streaming-Lasts : (w : SynthesisWork) → Keeps Lasts (start_streaming w)
unfolding start_streaming if_found
start_streaming-Lasts w = record {
  at = λ s. elim (Bool-cases (not (synthesis_work_is_active w s) || streaming_job w s)) [
    | inl idle ↦ rw idle (Lasts-IsOrder.same s)
    | inr busy ↦ rw busy (elim (Option-cases (get w.utterance_id s)) [
      | inl absent ↦ rw absent (Lasts-IsOrder.same s)
      | inr (u, e) ↦ rw e ((advertise-LastsFrom w u (active_is_open w s u e (ground arith))).at s e)
    ])
  ];
}

refresh-Lasts : (id : String) → Keeps Lasts (refresh_composite_duration id)
unfolding refresh_composite_duration
refresh-Lasts id = search method_rules depth 8

publish_streamed-Lasts :
    (w : SynthesisWork) (path : String) (d : Option ℕ) → Keeps Lasts (publish_streamed w path d)
unfolding publish_streamed
publish_streamed-Lasts w path d =
    optional-Lasts w.segment_index _ _ (search method_rules)
      (λ i. search (method_rules, refresh-Lasts))

promote-Lasts : (id : String) → Keeps Lasts (promote_parent id)
unfolding promote_parent
promote-Lasts id = search method_rules depth 8

publish_rendered-Lasts :
    (w : SynthesisWork) (path : String) (d : Option ℕ) → Keeps Lasts (publish_rendered w path d)
unfolding publish_rendered
publish_rendered-Lasts w path d =
    optional-Lasts w.segment_index _ _ (search method_rules)
      (λ i. search (method_rules, refresh-Lasts, promote-Lasts) depth 8)

pub finish_synthesis-Lasts :
    (w : SynthesisWork) (path : String) (d : Option ℕ) → Keeps Lasts (finish_synthesis w path d)
unfolding finish_synthesis
finish_synthesis-Lasts w path d =
    search (method_rules, publish_streamed-Lasts, publish_rendered-Lasts) depth 8

fail_parent-Lasts : (id error : String) → Keeps Lasts (fail_parent id error)
unfolding fail_parent
fail_parent-Lasts id error = search method_rules depth 8

fail_child-Lasts : (w : SynthesisWork) (i : ℕ) (error : String) → Keeps Lasts (fail_child w i error)
unfolding fail_child
fail_child-Lasts w i error = search (method_rules, fail_parent-Lasts) depth 8

pub fail_synthesis-Lasts :
    (w : SynthesisWork) (error : String) → Keeps Lasts (fail_synthesis w error)
unfolding fail_synthesis
fail_synthesis-Lasts w error =
    optional-Lasts w.segment_index _ _ (search method_rules) (λ i. fail_child-Lasts w i error)
