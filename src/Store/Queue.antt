-- ===== src/Store/Queue.antt =====
-- The order of the plan and the clearing of queues in src/aitts/store.py, and the history records.
use ai_tts.Common.{
  ℕ, suc, ◌+◌, Bool, ◌&&◌, ◌||◌, not, String, Option, none, some, List, [], ◌∷◌, map, mem_text,
  distinct, option_eq, is_none, any, all, ◌==◌, if◌then◌else◌,
}
use ai_tts.Common.Int.{ℤ, pos, ◌+ℤ◌}
use ai_tts.Common.Table.{select_where, delete_where, count_where}
use ai_tts.Model.{
  Utterance, UtteranceSegment, State, ready, playing, paused, cancelled, state_in, terminal,
  can_transition,
}
use ai_tts.Store.{key_error, value_error}
use ai_tts.Store.Exec.{Exec, pure, raise, gets, execute, require, ◌>>=◌, ◌>>◌}
use ai_tts.Store.Reads.{
  has_id, get, by_states, pending_queue, pending_states, input_states, head_order_key,
  max_order_key,
}
use ai_tts.Store.Transition.{no_changes, transition, write_utterances, write_segments}

abbrev pub set_order_key : ℤ → Utterance → Utterance
set_order_key k u = record u { order_key = k }

unfoldable pub move_to_head : String → Exec Utterance
move_to_head id = do
  found ← gets (get id)
  require found key_error
  key ← gets head_order_key
  write_utterances (has_id id) (set_order_key key)
  moved ← gets (get id)
  require moved key_error

pub data QueueName : Type 0 where
  input playback : QueueName

abbrev pub cleared_states : QueueName → List State
cleared_states input = input_states
cleared_states playback = ready ∷ []

-- The loop that `clear_queue` and `clear_pending` share; `cancelled` counts.
unfoldable pub cancel_each : List Utterance → ℕ → Exec ℕ
cancel_each [] n = pure n
cancel_each (u ∷ us) n =
    if can_transition u.state cancelled
    then (transition u.id cancelled no_changes >> cancel_each us (suc n))
    else cancel_each us n

unfoldable pub clear_queue : QueueName → Exec ℕ
clear_queue queue = do us ← gets (by_states (cleared_states queue)); cancel_each us 0

unfoldable pub clear_pending : Exec ℕ
clear_pending = do us ← gets (by_states pending_states); cancel_each us 0

-- `set(ids) == set(others)`.
abbrev pub same_set : List String → List String → Bool
same_set ids others = all (λ i. mem_text i others) ids && all (λ i. mem_text i ids) others

-- `max((utt.order_key for utt in current), default=0.0)`.
abbrev pub base_of : List Utterance → ℤ
base_of us = elim (max_order_key us) [ none ↦ pos 0 | some m ↦ m ]

-- The UPDATE of each identifier with `base + index`, from `index` on.
unfoldable pub renumber : ℤ → ℕ → List String → Exec (Unit {0})
renumber base index [] = pure tt
renumber base index (id ∷ ids) = do
  write_utterances (has_id id) (set_order_key (base +ℤ pos index))
  renumber base (suc index) ids

unfoldable pub reorder_pending : List String → Exec (Unit {0})
reorder_pending ids = do
  pending ← gets pending_queue
  current ← gets (by_states (playing ∷ paused ∷ []))
  if not (distinct ids) || not (same_set ids (map (λ u. u.id) pending))
      then raise value_error
      else renumber (base_of current) 1 ids

-- DELETE of utterances, which takes their segments and streaming jobs along (ON DELETE CASCADE).
abbrev pub owned_by : List Utterance → String → Bool
owned_by gone id = any (has_id id) gone

unfoldable pub delete_utterances : (Utterance → Bool) → Exec ℕ
delete_utterances p = do
  n ← gets (λ s. count_where p s.utterances)
  gone ← gets (λ s. select_where p s.utterances)
  execute (λ s. record s {
    utterances = delete_where p s.utterances;
    segments = delete_where (λ g. owned_by gone g.utterance_id) s.segments;
    streaming_jobs = delete_where (λ j. owned_by gone j.utterance_id) s.streaming_jobs;
  })
  pure n

unfoldable pub remove_history : String → Exec Bool
remove_history id = do
  n ← delete_utterances (λ u. has_id id u && state_in u.state terminal)
  pure (n == 1)

unfoldable pub clear_history : Exec ℕ
clear_history = delete_utterances (λ u. state_in u.state terminal)

abbrev pub names : String → Option String → Bool
names path p = option_eq p (some path)

abbrev pub in_history : List Utterance → UtteranceSegment → Bool
in_history us g = any (λ u. has_id g.utterance_id u && state_in u.state terminal) us

abbrev pub forgotten_parent : String → Utterance → Bool
forgotten_parent path u = names path u.audio_path && state_in u.state terminal

abbrev pub forgotten_child : String → List Utterance → UtteranceSegment → Bool
forgotten_child path us g = names path g.audio_path && in_history us g

unfoldable pub forget_terminal_audio : String → Exec ℕ
forget_terminal_audio path = do
  parents ← gets (λ s. count_where (forgotten_parent path) s.utterances)
  write_utterances (forgotten_parent path) (λ u. record u { audio_path = none })
  us ← gets (λ s. s.utterances)
  n ← gets (λ s. count_where (forgotten_child path us) s.segments)
  write_segments (forgotten_child path us) (λ g. record g { audio_path = none })
  pure (parents + n)

unfoldable pub bind_legacy_engine : String → Exec (Unit {0})
bind_legacy_engine name =
    write_utterances (λ u. is_none u.engine) (λ u. record u { engine = some name })
