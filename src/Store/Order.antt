-- ===== src/Store/Order.antt =====
-- Where a submission and a moved utterance stand in the plan: the order keys of src/aitts/store.py.
use ai_tts.Common.{
  suc, ◌≡◌, refl, ap, ◌∙◌, Bool, true, false, not, String, Option, none, some, List, [], ◌∷◌, ◌++◌,
  arith, All, All-map, if◌then◌else◌, is_some,
}
use ai_tts.Common.Int.{ℤ, pos, ◌≤ℤ◌, ◌<ℤ◌, int_laws, +ℤ_parts, -ℤ_parts}
use ai_tts.Common.Table.{select_where, sort_by}
use ai_tts.Common.Sorting.{
  sort_by-last, sort_by-first, All-select_where, All-select_where_sub, select_where-last,
}
use ai_tts.Model.{Utterance, queued, state_in, terminal}
use ai_tts.Store.{Store, ok}
use ai_tts.Store.Reads.{
  get, by_order_key, by_states, pending_queue, pending_states, max_order_key, min_order_key,
  tail_order_key, head_order_key,
}
use ai_tts.Store.Submit.{
  Submission, refused_segments, rows_of, new_utterance, insert_utterance, submit,
}

-- A key against the greatest or the least key, if there is one.
abbrev AtMost : Option ℤ → Utterance → Type 0
AtMost none u = ⊥
AtMost (some m) u = u.order_key ≤ℤ m

abbrev AtLeast : Option ℤ → Utterance → Type 0
AtLeast none u = ⊥
AtLeast (some m) u = m ≤ℤ u.order_key

max_order_key-step :
    (u : Utterance) (us : List Utterance) (o : Option ℤ)
    → max_order_key us ≡ o
    → All (AtMost o) us
    → All (AtMost (max_order_key (u ∷ us))) (u ∷ us)
max_order_key-step u us none e h =
    (rw e (omega arith), All-map (AtMost none) _ us (λ x b. absurd b) h)
max_order_key-step u us (some m) e h = (
  rw e (ground arith),
  All-map (AtMost (some m)) (AtMost (max_order_key (u ∷ us))) us (λ x b. rw e (ground arith)) h,
)

max_order_key-AtMost : (us : List Utterance) → All (AtMost (max_order_key us)) us
max_order_key-AtMost [] = tt
max_order_key-AtMost (u ∷ us) =
    max_order_key-step u us (max_order_key us) refl (max_order_key-AtMost us)

min_order_key-step :
    (u : Utterance) (us : List Utterance) (o : Option ℤ)
    → min_order_key us ≡ o
    → All (AtLeast o) us
    → All (AtLeast (min_order_key (u ∷ us))) (u ∷ us)
min_order_key-step u us none e h =
    (rw e (omega arith), All-map (AtLeast none) _ us (λ x b. absurd b) h)
min_order_key-step u us (some m) e h = (
  rw e (ground arith),
  All-map (AtLeast (some m)) (AtLeast (min_order_key (u ∷ us))) us (λ x b. rw e (ground arith)) h,
)

min_order_key-AtLeast : (us : List Utterance) → All (AtLeast (min_order_key us)) us
min_order_key-AtLeast [] = tt
min_order_key-AtLeast (u ∷ us) =
    min_order_key-step u us (min_order_key us) refl (min_order_key-AtLeast us)

abbrev pub is_open : Utterance → Bool
is_open u = not (state_in u.state terminal)

-- A key against the tail key that a greatest key gives, and the same at the head.
above_tail :
    (s : Store) (u : Utterance) (o : Option ℤ)
    → max_order_key s.utterances ≡ o
    → AtMost o u
    → u.order_key <ℤ tail_order_key s
unfolding tail_order_key
above_tail s u none e h = absurd h
above_tail s u (some m) e h = rw (e, tail_order_key) (omega (int_laws, +ℤ_parts m (pos 1)))

abbrev pub open_rows : Store → List Utterance
open_rows s = select_where is_open s.utterances

below_head :
    (s : Store) (u : Utterance) (o : Option ℤ)
    → min_order_key (open_rows s) ≡ o
    → AtLeast o u
    → head_order_key s <ℤ u.order_key
unfolding head_order_key
below_head s u none e h = absurd h
below_head s u (some m) e h = rw (e, head_order_key) (omega (int_laws, -ℤ_parts m (pos 1)))

-- The tail key is above every key of the table.
pub tail_order_key-above : (s : Store) → All (λ u. u.order_key <ℤ tail_order_key s) s.utterances
tail_order_key-above s =
    All-map (AtMost (max_order_key s.utterances)) _ s.utterances (λ u. above_tail s u _ refl)
      (max_order_key-AtMost s.utterances)

-- The head key is below the key of every utterance that is not terminal.
pub head_order_key-below : (s : Store) → All (λ u. head_order_key s <ℤ u.order_key) (open_rows s)
head_order_key-below s =
    All-map (AtLeast (min_order_key (open_rows s))) _ (open_rows s) (λ u. below_head s u _ refl)
      (min_order_key-AtLeast (open_rows s))

-- A row inserted with the tail key comes last in the plan.
pub insert_tail :
    (s : Store) (v : Utterance) (p : Utterance → Bool)
    → v.order_key ≡ tail_order_key s
    → p v ≡ true
    → sort_by by_order_key (select_where p (s.utterances ++ v ∷ []))
      ≡ sort_by by_order_key (select_where p s.utterances) ++ v ∷ []
insert_tail s v p e h = rw (select_where-last p s.utterances v h) (
    sort_by-last by_order_key v (select_where p s.utterances) (
      All-select_where p (λ u. by_order_key u v ≡ true) s.utterances
        (All-map (λ u. u.order_key <ℤ tail_order_key s) _ s.utterances (λ u b. ground arith)
          (tail_order_key-above s))))

-- A row inserted with the head key comes first among the rows that are open.
pub insert_head :
    (s : Store) (v : Utterance) (p : Utterance → Bool)
    → v.order_key ≡ head_order_key s
    → ((u : Utterance) → p u ≡ true → is_open u ≡ true)
    → p v ≡ true
    → sort_by by_order_key (select_where p (s.utterances ++ v ∷ []))
      ≡ v ∷ sort_by by_order_key (select_where p s.utterances)
insert_head s v p e sub h = rw (select_where-last p s.utterances v h) (
    sort_by-first by_order_key v (select_where p s.utterances) (
      All-map (λ u. head_order_key s <ℤ u.order_key) _ (select_where p s.utterances)
        (λ u b. ground arith)
        (All-select_where_sub is_open p (λ u. head_order_key s <ℤ u.order_key) s.utterances sub
          (head_order_key-below s))))

pending_is_open : (u : Utterance) → state_in u.state pending_states ≡ true → is_open u ≡ true
pending_is_open u h = ground arith

-- The database when the clock has been read.
abbrev timed : Store → Store
timed s = record s { readings = suc s.readings }

abbrev submitted_row : String → Submission → Store → Utterance
submitted_row id sub s = new_utterance id sub (s.clock s.readings) (timed s)

module _ (id : String) (sub : Submission) (s : Store)
    (accepted : refused_segments sub.spoken_segments ≡ false)
    (fresh : is_some (get id s) ≡ false) where
  submit-inserts : submit id sub s ≡ (
    ok (submitted_row id sub s),
    record s {
      readings = suc s.readings;
      utterances = s.utterances ++ submitted_row id sub s ∷ [];
      segments = s.segments ++ rows_of id sub.spoken_segments;
    },
  )
  unfolding submit insert_utterance get
  submit-inserts = rw (accepted, fresh)

  submitted-order :
      (b : Bool)
      → sub.at_head ≡ b
      → by_states pending_states (record s {
        readings = suc s.readings;
        utterances = s.utterances ++ submitted_row id sub s ∷ [];
        segments = s.segments ++ rows_of id sub.spoken_segments;
      })
        ≡ (if b
            then submitted_row id sub s ∷ by_states pending_states s
            else by_states pending_states s ++ submitted_row id sub s ∷ [])
  unfolding by_states
  submitted-order true e =
      insert_head (timed s) (submitted_row id sub s) (λ u. state_in u.state pending_states) (rw e)
        pending_is_open refl
  submitted-order false e =
      insert_tail (timed s) (submitted_row id sub s) (λ u. state_in u.state pending_states) (rw e)
        refl

  -- A submission that is accepted under a new identifier returns an utterance in state Queued
  -- which stands last in the plan, behind all that was pending before, or first, before all that
  -- was pending before, if it is submitted at the head.
  pub submit-pending_queue :
      (v : Utterance) × ((submit id sub s).0 ≡ ok v)
      × (v.state ≡ queued)
      × (pending_queue (submit id sub s).1
          ≡ (if sub.at_head then v ∷ pending_queue s else pending_queue s ++ v ∷ []))
  unfolding pending_queue
  submit-pending_queue = (
    submitted_row id sub s,
    ap (λ r. r.0) submit-inserts,
    refl,
    ap (λ r. by_states pending_states r.1) submit-inserts ∙ submitted-order sub.at_head refl,
  )
