-- ===== src/Store/Forgotten.antt =====
-- What `forget_terminal_audio` of src/aitts/store.py, which the purge of the cache calls for the path
-- of a file that it has deleted, makes of the references to a path.
use ai_tts.Common.{
  ℕ, ◌≡◌, refl, ◌∙◌, ap, Bool, true, false, not, ◌&&◌, ◌||◌, String, Option, none, some, List, [],
  ◌∷◌, any, map, distinct, mem_text, arith, Bool-cases, inl, inr, is_some, eq_iff,
}
use ai_tts.Common.Table.{find, find_holds, map_option, updated, update_where, find-update_where}
use ai_tts.Model.{Utterance, UtteranceSegment, state_in, terminal}
use ai_tts.Store.{Store}
use ai_tts.Store.Reads.{has_id, is_child, get, get_segment, names_path, parent_is, is_protected}
use ai_tts.Store.Transition.{write_utterances, write_segments}
use ai_tts.Store.Queue.{names, in_history, forgotten_parent, forgotten_child, forget_terminal_audio}
use ai_tts.Store.Lasting.{IsKeyed}

-- Some utterance names the path, or some segment of an utterance that is stored.
abbrev pub is_named : String → Store → Bool
is_named path s =
    is_some (find (λ u. names_path path u.audio_path) s.utterances)
    || is_some (find (λ g. names_path path g.audio_path && parent_is (λ st. true) s g) s.segments)

same_names : (path : String) (p : Option String) → names path p ≡ names_path path p
same_names path none = refl
same_names path (some p) = refl

-- An UPDATE that clears the rows that name something and are closed, where no live row names it.
cleared :
    {A : Type 0} (named tested known live closed : A → Bool) (clear : A → A) (xs : List A)
    → ((x : A) → tested x ≡ named x)
    → ((x : A) → known x ≡ true → live x ≡ false → closed x ≡ true)
    → ((x : A) → named (clear x) ≡ false)
    → is_some (find (λ x. named x && live x) xs) ≡ false
    → is_some (find (λ x. named x && known x) (update_where (λ x. tested x && closed x) clear xs))
      ≡ false
cleared named tested known live closed clear [] t c n h = refl
cleared named tested known live closed clear (x ∷ xs) t c n h =
    ground (arith, cleared named tested known live closed clear xs t c n, t x, c x, n x)

module _ (path : String) where
  abbrev without_path : Utterance → Utterance
  without_path u = record u { audio_path = none }

  abbrev forgotten : List Utterance → List Utterance
  forgotten us = update_where (forgotten_parent path) without_path us

  closed_utterances :
      (us : List Utterance)
      → is_some (find (λ u. names_path path u.audio_path && not (state_in u.state terminal)) us)
        ≡ false
      → is_some (find (λ u. names_path path u.audio_path) (forgotten us)) ≡ false
  closed_utterances [] h = refl
  closed_utterances (u ∷ us) h = ground (arith, closed_utterances us, same_names path u.audio_path)

  -- A stored parent is in the history if it is not live.
  parent_closed :
      (id : String) (us : List Utterance)
      → (elim (find (has_id id) (forgotten us)) [ none ↦ false | some u ↦ true ]) ≡ true
      → (elim (find (has_id id) us) [ none ↦ false | some u ↦ not (state_in u.state terminal) ])
        ≡ false
      → any (λ u. has_id id u && state_in u.state terminal) (forgotten us) ≡ true
  parent_closed id [] k h = absurd (ground arith)
  parent_closed id (u ∷ us) k h = elim (Bool-cases (has_id id u)) [
    | inl own ↦ elim (Bool-cases (forgotten_parent path u)) [
      | inl gone ↦ ground (arith, own, gone, rw own at h)
      | inr kept ↦ ground (arith, own, kept, rw own at h)
    ]
    | inr other ↦
        let rest = parent_closed id us in
        let h2 = rw other at h in
        elim (Bool-cases (forgotten_parent path u)) [
          | inl gone ↦ rw (gone, other) (rest (rw (gone, other) at k) h2)
          | inr kept ↦ rw (kept, other) (rest (rw (kept, other) at k) h2)
        ]
  ]

-- Once the path of a file that nothing live refers to is forgotten, no utterance names it, nor does any
-- segment of an utterance that is stored: nothing refers to the deleted file.
pub forget_terminal_audio-is_named :
    (path : String) (s : Store)
    → is_protected path s ≡ false
    → is_named path (forget_terminal_audio path s).1 ≡ false
unfolding forget_terminal_audio is_protected write_utterances write_segments
forget_terminal_audio-is_named path s h =
    let us = closed_utterances path s.utterances (ground arith) in
    let gs =
      cleared (λ (g : UtteranceSegment). names_path path g.audio_path)
        (λ g. names path g.audio_path)
        (λ g. parent_is (λ st. true) (record s { utterances = forgotten path s.utterances }) g)
        (λ g. parent_is (λ st. not (state_in st terminal)) s g)
        (in_history (forgotten path s.utterances)) (λ g. record g { audio_path = none }) s.segments
        (λ g. same_names path g.audio_path)
        (λ g k l. parent_closed path g.utterance_id s.utterances k l) (λ g. refl) (ground arith) in
    rw (us, gs) refl

-- The first row with an identifier is the only one, where identifiers are distinct.
module _ (closed : Utterance → Bool) (id : String) where
  absent_row :
      (us : List Utterance)
      → mem_text id (map (λ u. u.id) us) ≡ false
      → any (λ u. has_id id u && closed u) us ≡ false
  absent_row [] h = refl
  absent_row (u ∷ us) h = ground (arith, absent_row us, eq_iff id u.id, eq_iff u.id id)

  open_row :
      (us : List Utterance) (u : Utterance)
      → distinct (map (λ u. u.id) us) ≡ true
      → find (has_id id) us ≡ some u
      → closed u ≡ false
      → any (λ u. has_id id u && closed u) us ≡ false
  open_row [] u d e h = refl
  open_row (x ∷ us) u d e h = elim (Bool-cases (has_id id x)) [
    | inl own ↦
        let same : x ≡ u = ground (arith, rw own at e) in
        let absent = absent_row us (ground (arith, own, eq_iff x.id id, d)) in
        let off : closed x ≡ false = rw same h in rw (own, off) absent
    | inr other ↦ rw other (open_row us u (ground (arith, d)) (rw other at e) h)
  ]

  -- An UPDATE of closed rows that keeps them closed.
  kept_rows :
      (p : Utterance → Bool) (f : Utterance → Utterance) (us : List Utterance)
      → ((u : Utterance) → has_id id (f u) ≡ has_id id u)
      → ((u : Utterance) → closed (f u) ≡ closed u)
      → any (λ u. has_id id u && closed u) (update_where p f us)
        ≡ any (λ u. has_id id u && closed u) us
  kept_rows p f [] n c = refl
  kept_rows p f (u ∷ us) n c = ground (arith, kept_rows p f us n c, n u, c u)

spared : {A : Type 0} (p : A → Bool) (f : A → A) (x : A) → p x ≡ false → updated p f x ≡ x
spared p f x h = rw h refl

-- Forgetting any path leaves an utterance that is not in a terminal state as it was, and each of its
-- segments too, if identifiers are distinct: what is still owed to the listener keeps its audio.
pub forget_terminal_audio-live :
    (path id : String) (i : ℕ) (s : Store) (u : Utterance)
    → IsKeyed s
    → get id s ≡ some u
    → state_in u.state terminal ≡ false
    → let t = (forget_terminal_audio path s).1 in
      (get id t ≡ some u) × (get_segment id i t ≡ get_segment id i s)
unfolding get get_segment forget_terminal_audio write_utterances write_segments
forget_terminal_audio-live path id i s u d e h =
    let closed = λ (x : Utterance). state_in x.state terminal in
    let untouched =
      kept_rows closed id (forgotten_parent path) (λ x. record x { audio_path = none }) s.utterances
        (λ x. refl) (λ x. refl)
      ∙ open_row closed id s.utterances u d e h in
    (
      find-update_where (has_id id) (forgotten_parent path) (λ x. record x { audio_path = none })
            s.utterances (λ x. refl)
          ∙ rw e (
              ap some (spared (forgotten_parent path) (without_path path) u (rw h (ground arith)))),
      find-update_where (is_child id i) (forgotten_child path (forgotten path s.utterances))
            (λ g. record g { audio_path = none }) s.segments (λ g. refl)
          ∙ kept_segment untouched (find (is_child id i) s.segments) refl,
    )
  where
    us : List Utterance
    us = forgotten path s.utterances

    kept_segment :
        any (λ x. has_id id x && state_in x.state terminal) us ≡ false
        → (o : Option UtteranceSegment) → find (is_child id i) s.segments ≡ o
        → map_option
            (updated
              (forgotten_child path us)
              (λ (g : UtteranceSegment). record g { audio_path = none }))
            o
          ≡ o
    kept_segment q none k = refl
    kept_segment q (some g) k =
        let named : is_child id i g ≡ true = find_holds (is_child id i) s.segments {x = g} k in
        let own : g.utterance_id ≡ id = (eq_iff g.utterance_id id).0 (ground (arith, named)) in
        ap some (
          spared (forgotten_child path us) (λ g. record g { audio_path = none }) g
            (rw own (rw q (ground arith))))
