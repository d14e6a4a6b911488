-- ===== src/Store/Reads.antt =====
-- The reads of src/aitts/store.py: one row, the queues, the history and the totals.
use ai_tts.Common.{
  ℕ, ◌+◌, ◌-◌, Bool, true, false, ◌&&◌, ◌||◌, not, String, Option, none, some, List, [], ◌∷◌,
  text_eq, ◌==◌, ltb, leb, if◌then◌else◌, is_some, head?,
}
use ai_tts.Common.Table.{find, select_where, sort_by, count_where}
use ai_tts.Common.Int.{ℤ, pos, leb_ℤ, ◌+ℤ◌, ◌-ℤ◌}
use ai_tts.Model.{
  Utterance, UtteranceSegment, State, submitted, queued, synthesizing, ready, playing, paused,
  played, skipped, state_is, state_in, terminal,
}
use ai_tts.Store.{Store}

abbrev pub input_states : List State
input_states = submitted ∷ queued ∷ synthesizing ∷ []

abbrev pub playback_states : List State
playback_states = ready ∷ playing ∷ paused ∷ []

abbrev pub pending_states : List State
pending_states = queued ∷ synthesizing ∷ ready ∷ []

abbrev pub has_id : String → Utterance → Bool
has_id id u = text_eq u.id id

abbrev pub is_child : String → ℕ → UtteranceSegment → Bool
is_child id index g = text_eq g.utterance_id id && g.index == index

unfoldable pub get : String → Store → Option Utterance
get id s = find (has_id id) s.utterances

abbrev by_index : UtteranceSegment → UtteranceSegment → Bool
by_index a b = leb a.index b.index

unfoldable pub segments : String → Store → List UtteranceSegment
segments id s = sort_by by_index (select_where (λ g. text_eq g.utterance_id id) s.segments)

unfoldable pub get_segment : String → ℕ → Store → Option UtteranceSegment
get_segment id index s = find (is_child id index) s.segments

unfoldable pub next_unfinished_segment : String → Store → Option UtteranceSegment
next_unfinished_segment id s = head? (
    sort_by by_index
      (select_where (λ g. text_eq g.utterance_id id && not (state_in g.state terminal)) s.segments))

-- `COALESCE(SUM(duration_ms), 0)`: a NULL adds nothing.
abbrev pub duration : UtteranceSegment → ℕ
duration g = elim g.duration_ms [ none ↦ 0 | some d ↦ d ]

abbrev pub sum_duration : List UtteranceSegment → ℕ
sum_duration [] = 0
sum_duration (g ∷ gs) = duration g + sum_duration gs

abbrev pub before_index : Option ℕ → UtteranceSegment → Bool
before_index none g = true
before_index (some i) g = ltb g.index i

unfoldable pub completed_segment_duration_ms : String → Option ℕ → Store → ℕ
completed_segment_duration_ms id before s = sum_duration (
    select_where
      (λ g. text_eq g.utterance_id id && state_is g.state played && before_index before g)
      s.segments)

unfoldable pub playhead_offset_before_segment_ms : String → ℕ → Store → ℕ
playhead_offset_before_segment_ms id before s = sum_duration (
    select_where
      (λ g.
        text_eq g.utterance_id id && ltb g.index before && state_in g.state (played ∷ skipped ∷ []))
      s.segments)

abbrev pub by_order_key : Utterance → Utterance → Bool
by_order_key a b = leb_ℤ a.order_key b.order_key

unfoldable pub by_states : List State → Store → List Utterance
by_states states s = sort_by by_order_key (select_where (λ u. state_in u.state states) s.utterances)

unfoldable pub input_queue : Store → List Utterance
unfolding by_states
input_queue = by_states input_states

unfoldable pub playback_queue : Store → List Utterance
unfolding by_states
playback_queue = by_states playback_states

unfoldable pub pending_queue : Store → List Utterance
unfolding by_states
pending_queue = by_states pending_states

abbrev not_excluded : Option String → Utterance → Bool
not_excluded none u = true
not_excluded (some id) u = not (text_eq u.id id)

unfoldable pub next_pending : Option String → Store → Option Utterance
unfolding by_states
next_pending exclude s = find (not_excluded exclude) (by_states pending_states s)

abbrev take : ℕ → List Utterance → List Utterance
take n [] = []
take n (x ∷ xs) = let rest = take (n - 1) xs in if n == 0 then [] else x ∷ rest

-- The condition that the optional anchor adds to the history query.
abbrev older_than : Option Utterance → Utterance → Bool
older_than none u = true
older_than (some anchor) u = ltb u.submitted_at anchor.submitted_at

abbrev anchor_of : Option String → Store → Option Utterance
anchor_of none s = none
anchor_of (some id) s = find (has_id id) s.utterances

unfoldable pub history : ℕ → Option String → Store → List Utterance
history limit before s = take limit (
    sort_by (λ a b. leb b.submitted_at a.submitted_at)
      (select_where (λ u. state_in u.state terminal && older_than (anchor_of before s) u)
        s.utterances))

-- The count that `counts` reports for one state.
unfoldable pub counts : State → Store → ℕ
counts st s = count_where (λ u. state_is u.state st) s.utterances

-- Whether `path` is among `protected_audio_paths`.
abbrev pub names_path : String → Option String → Bool
names_path path none = false
names_path path (some p) = text_eq p path

abbrev pub parent_is : (State → Bool) → Store → UtteranceSegment → Bool
parent_is p s g = elim (find (has_id g.utterance_id) s.utterances) [
  | none ↦ false
  | some u ↦ p u.state
]

unfoldable pub is_protected : String → Store → Bool
is_protected path s =
    is_some
      (find (λ u. names_path path u.audio_path && not (state_in u.state terminal)) s.utterances)
    || is_some (
        find (λ g. names_path path g.audio_path && parent_is (λ st. not (state_in st terminal)) s g)
          s.segments)

-- `MAX(order_key)` and `MIN(order_key)` of the rows, NULL of none.
abbrev pub max_order_key : List Utterance → Option ℤ
max_order_key [] = none
max_order_key (u ∷ us) = elim (max_order_key us) [
  | none ↦ some u.order_key
  | some m ↦ some (if leb_ℤ m u.order_key then u.order_key else m)
]

abbrev pub min_order_key : List Utterance → Option ℤ
min_order_key [] = none
min_order_key (u ∷ us) = elim (min_order_key us) [
  | none ↦ some u.order_key
  | some m ↦ some (if leb_ℤ u.order_key m then u.order_key else m)
]

unfoldable pub tail_order_key : Store → ℤ
tail_order_key s = elim (max_order_key s.utterances) [ none ↦ pos 0 +ℤ pos 1 | some m ↦ m +ℤ pos 1 ]

unfoldable pub head_order_key : Store → ℤ
head_order_key s =
    elim (min_order_key (select_where (λ u. not (state_in u.state terminal)) s.utterances)) [
      | none ↦ pos 1 -ℤ pos 1
      | some m ↦ m -ℤ pos 1
    ]
