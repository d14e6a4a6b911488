-- ===== src/Playback.antt =====
-- src/aitts/playback.py: the state of `PlaybackController` over the store and a sink, and what it reads
-- from them. The sink is `FakeSink`, which has no prefixes and no streams and counts a start while a
-- clip is active; the evidence recorder is absent, so that `_record_control` does nothing. A rate
-- counts hundredths. A task that watches the sink is the mark that there is one.
pub mod Act
pub mod Device
pub mod Plan
pub mod Watch
pub mod Control
pub mod Transport
pub mod Step
pub mod Held
pub mod Outcome
pub mod Start
pub mod Skipped
pub mod Sound
use ai_tts.Common.{
  ℕ, suc, ◌+◌, ◌*◌, Bool, true, false, not, String, Option, none, some, List, [], ◌∷◌, ◌++◌,
  text_eq, is_some, any, if◌then◌else◌, length,
}
use ai_tts.Model.{Utterance, UtteranceSegment}
use ai_tts.Store.{Store}
use ai_tts.Store.Reads.{
  get, segments, get_segment, next_unfinished_segment, completed_segment_duration_ms,
  playhead_offset_before_segment_ms,
}

pub record Sink : Type 0 where
  pub started : List String
  pub start_positions : List ℕ
  pub overlaps : ℕ
  pub paused : Bool
  pub error : Option String
  pub active : Bool
  pub natural : Bool
  pub position : ℕ
  pub playback_rate : ℕ
  pub rate_changes : List ℕ

unfoldable pub set_rate : ℕ → Sink → Sink
set_rate rate k = record k { playback_rate = rate; rate_changes = k.rate_changes ++ rate ∷ [] }

unfoldable pub start : String → ℕ → Sink → Sink
start path position k = record k {
  overlaps = if k.active then suc k.overlaps else k.overlaps;
  started = k.started ++ path ∷ [];
  start_positions = k.start_positions ++ position ∷ [];
  active = true;
  paused = false;
  error = none;
  natural = false;
  position = position;
}

unfoldable pub finish_current : Sink → Sink
finish_current k = if k.active then record k { active = false; natural = true } else k

unfoldable pub stop : Sink → Sink
stop k = if k.active then record k { active = false; natural = false } else k

unfoldable pub fail_current : String → Sink → Sink
fail_current message k =
    if k.active then record k { active = false; natural = false; error = some message } else k

unfoldable pub pause_sink : Sink → Sink
pause_sink k = record k { paused = true }

unfoldable pub resume_sink : Sink → Sink
resume_sink k = record k { paused = false }

unfoldable pub advance_to : ℕ → Sink → Sink
advance_to position k = record k { position = position }

-- The task that waits for the end of a clip, or for the end of the closing cue.
pub data Watcher : Type 0 where
  absent watching watching_outro : Watcher

-- `streams` names the artifacts that still have a live source; the stack has its top first.
pub record Player : Type 0 where
  pub store : Store
  pub sink : Sink
  pub streams : List String
  pub held : Bool
  pub playback_rate : ℕ
  pub current_id : Option String
  pub current_segment_index : Option ℕ
  pub preempted_stack : List (String × Option ℕ)
  pub sink_active : Bool
  pub cue_session_open : Bool
  pub speaker_returning : Bool
  pub watcher : Watcher
  pub interrupted_at : Option ℕ
  pub resume_when_input_idle_armed : Bool
  pub woken : Bool

-- `x or 0`.
abbrev pub or_zero : Option ℕ → ℕ
or_zero none = 0
or_zero (some n) = n

-- `x or default` of a text.
abbrev pub or_text : Option String → String → String
or_text none default = default
or_text (some t) default = if text_eq t "" then default else t

-- `self._live_source(artifact_id) is not None`.
abbrev pub is_live : String → Player → Bool
is_live artifact p = any (text_eq artifact) p.streams

abbrev pub found_by : {A : Type 0} → (String → Option A) → Option String → Option A
found_by f none = none
found_by f (some id) = f id

unfoldable pub current : Player → Option Utterance
current p = found_by (λ id. get id p.store) p.current_id

abbrev segment_of : Option String → Option ℕ → Store → Option UtteranceSegment
segment_of none index s = none
segment_of (some id) none s = none
segment_of (some id) (some i) s = get_segment id i s

-- `current_segment`.
unfoldable pub current_segment : Player → Option UtteranceSegment
current_segment p = segment_of p.current_id p.current_segment_index p.store

unfoldable pub current_segment_position_ms : Player → Option ℕ
current_segment_position_ms p = elim (current_segment p) [
  | none ↦ none
  | some g ↦ if p.sink_active then some p.sink.position else g.played_ms
]

abbrev segment_played : Option UtteranceSegment → ℕ
segment_played none = 0
segment_played (some g) = or_zero g.played_ms

-- The index that counts as the current one between two children of a document.
abbrev index_between : String → List UtteranceSegment → Store → Option ℕ
index_between id [] s = none
index_between id (g ∷ gs) s = elim (next_unfinished_segment id s) [
  | none ↦ some (length (g ∷ gs))
  | some h ↦ some h.index
]

abbrev position_index : String → Option ℕ → Store → Option ℕ
position_index id none s = index_between id (segments id s) s
position_index id (some i) s = some i

abbrev position_at : Bool → String → Option ℕ → Player → Option ℕ
position_at include_skipped id none p = none
position_at include_skipped id (some i) p =
    let offset =
      if include_skipped
      then playhead_offset_before_segment_ms id i p.store
      else completed_segment_duration_ms id (some i) p.store in
    some (
      offset
      + (if p.sink_active then p.sink.position else segment_played (get_segment id i p.store)))

-- `_current_segment_position_with_offset`.
unfoldable pub position_with_offset : Bool → Player → Option ℕ
position_with_offset include_skipped p =
    found_by
      (λ id. position_at include_skipped id (position_index id p.current_segment_index p.store) p)
      p.current_id

abbrev document_position : Option ℕ → Player → Option ℕ
document_position (some n) p = some n
document_position none p =
    if p.sink_active
    then some p.sink.position
    else elim (current p) [ none ↦ none | some u ↦ u.played_ms ]

unfoldable pub current_position_ms : Player → Option ℕ
current_position_ms p =
    if is_some p.current_id then document_position (position_with_offset true p) p else none

-- `_current_heard_ms`.
unfoldable pub current_heard_ms : Player → Option ℕ
current_heard_ms p =
    if is_some p.current_id then document_position (position_with_offset false p) p else none
