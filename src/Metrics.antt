-- ===== src/Metrics.antt =====
-- src/aitts/application/metrics.py: the timings that the recorder takes from transitions. A dict is
-- the list of its entries, and a deque that is full loses its first sample. Times are whole numbers
-- here, and a wait is an integer, negative if the clock was set back.
pub mod Settled
pub mod Waits
use text.Mathlib.Text.{starts_with}
use ai_tts.Common.{
  ℕ, suc, ◌+◌, ◌*◌, Bool, true, false, ◌||◌, ◌&&◌, String, Option, none, some, List, [], ◌∷◌, ◌++◌,
  map, length, is_some, mem_text, text_eq, ltb, if◌then◌else◌,
}
use ai_tts.Common.Int.{ℤ, pos, negsuc, ◌-ℤ◌}
use ai_tts.Common.Table.{find, update_where, delete_where}
use ai_tts.Model.{
  Utterance, State, queued, synthesizing, ready, playing, failed, state_is, state_in, terminal,
}

abbrev pub max_samples : ℕ
max_samples = 256

pub record Mark : Type 0 where
  pub key : String
  pub value : ℕ

pub record Recorder : Type 0 where
  pub synthesis_wait : List ℤ
  pub playback_wait : List ℤ
  pub synthesis_duration : List ℤ
  pub queued_at : List Mark
  pub ready_at : List Mark
  pub synthesis_started_at : List Mark
  pub playback_failures : ℕ

abbrev pub new_recorder : Recorder
new_recorder = record {
  synthesis_wait = [];
  playback_wait = [];
  synthesis_duration = [];
  queued_at = [];
  ready_at = [];
  synthesis_started_at = [];
  playback_failures = 0;
}

abbrev pub drop_first : List ℤ → List ℤ
drop_first [] = []
drop_first (x ∷ xs) = xs

-- `deque(maxlen=MAX_SAMPLES).append`.
unfoldable pub append_sample : ℤ → List ℤ → List ℤ
append_sample x xs = if ltb (length xs) max_samples then xs ++ x ∷ [] else drop_first xs ++ x ∷ []

abbrev pub is_mark : String → Mark → Bool
is_mark id m = text_eq m.key id

-- `dict.get`, `dict.setdefault`, an assignment to a key, and `dict.pop(key, None)`.
abbrev pub value_at : String → List Mark → Option ℕ
value_at id ms = elim (find (is_mark id) ms) [ none ↦ none | some m ↦ some m.value ]

abbrev pub set_default : String → ℕ → List Mark → List Mark
set_default id t ms =
    if is_some (find (is_mark id) ms) then ms else ms ++ record { key = id; value = t } ∷ []

abbrev pub set_value : String → ℕ → List Mark → List Mark
set_value id t ms =
    if is_some (find (is_mark id) ms)
    then update_where (is_mark id) (λ m. record m { value = t }) ms
    else ms ++ record { key = id; value = t } ∷ []

abbrev pub pop_key : String → List Mark → List Mark
pop_key id ms = delete_where (is_mark id) ms

abbrev pub thousandfold : ℤ → ℤ
thousandfold (pos n) = pos (n * 1000)
thousandfold (negsuc n) = negsuc (n * 1000 + 999)

-- The sample `(now - then) * 1000`, if there is a mark.
unfoldable pub add_wait : ℕ → Option ℕ → List ℤ → List ℤ
add_wait now none xs = xs
add_wait now (some t) xs = append_sample (thousandfold (pos now -ℤ pos t)) xs

abbrev pub device_failed : Option String → Bool
device_failed none = false
device_failed (some error) = starts_with error "playback device"

unfoldable pub forget : String → Recorder → Recorder
forget id r = record r {
  queued_at = pop_key id r.queued_at;
  ready_at = pop_key id r.ready_at;
  synthesis_started_at = pop_key id r.synthesis_started_at;
}

unfoldable pub observe_queued : Utterance → Recorder → Recorder
observe_queued u r = record r { queued_at = set_default u.id u.submitted_at r.queued_at }

unfoldable pub observe_synthesizing : ℕ → Utterance → Recorder → Recorder
observe_synthesizing now u r = record r {
  queued_at = set_default u.id u.submitted_at r.queued_at;
  synthesis_started_at = set_default u.id now r.synthesis_started_at;
}

unfoldable pub observe_ready : ℕ → Utterance → Recorder → Recorder
observe_ready now u r =
    let marks = set_default u.id u.submitted_at r.queued_at in
    record r {
      queued_at = marks;
      ready_at = set_value u.id now r.ready_at;
      synthesis_wait = add_wait now (value_at u.id marks) r.synthesis_wait;
      synthesis_duration = add_wait now (value_at u.id r.synthesis_started_at) r.synthesis_duration;
      synthesis_started_at = pop_key u.id r.synthesis_started_at;
    }

unfoldable pub observe_playing : ℕ → Utterance → Recorder → Recorder
observe_playing now u r = record r {
  playback_wait = add_wait now (value_at u.id r.ready_at) r.playback_wait;
  ready_at = pop_key u.id r.ready_at;
}

unfoldable pub observe_settled : Utterance → Recorder → Recorder
observe_settled u r = forget u.id (record r {
  playback_failures =
      if state_is u.state failed && device_failed u.error
      then suc r.playback_failures
      else r.playback_failures;
})

-- `MetricsRecorder.observe` when the clock reads `now`.
unfoldable pub observe : ℕ → Utterance → Recorder → Recorder
observe now u r =
    if state_is u.state queued
    then observe_queued u r
    else if state_is u.state synthesizing
    then observe_synthesizing now u r
    else if state_is u.state ready
    then observe_ready now u r
    else if state_is u.state playing
    then observe_playing now u r
    else if state_in u.state terminal
    then observe_settled u r
    else r

-- Whether `id` is among the identifiers that `tracked` counts.
unfoldable pub is_tracked : String → Recorder → Bool
is_tracked id r =
    is_some (find (is_mark id) r.queued_at)
    || is_some (find (is_mark id) r.ready_at)
    || is_some (find (is_mark id) r.synthesis_started_at)

-- The size of a set of texts.
abbrev pub size_of : List String → ℕ
size_of [] = 0
size_of (x ∷ xs) = let rest = size_of xs in if mem_text x xs then rest else suc rest

unfoldable pub tracked : Recorder → ℕ
tracked r = size_of (
    map (λ m. m.key) r.queued_at
    ++ map (λ m. m.key) r.ready_at
    ++ map (λ m. m.key) r.synthesis_started_at)
