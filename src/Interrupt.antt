-- ===== src/Interrupt.antt =====
-- src/aitts/input_interrupt.py: the watcher that polls the readings of the input device, holds playback
-- for the listener's voice and releases the hold where the listener has asked for that. The thread that
-- asks the platform is the sequence of its readings; the policy is what the settings say at a poll.
pub mod ByHand
pub mod Spells
use ai_tts.Common.{
  Bool, true, false, ◌&&◌, Option, none, some, List, [], ◌∷◌, ◌++◌, String, text_eq, if◌then◌else◌,
}
use ai_tts.Store.{Result, ok, raised}
use ai_tts.Floor.{Detector, observe, input_is_hot}
use ai_tts.Playback.{Player}
use ai_tts.Playback.Control.{interrupt, arm_resume_when_input_idle, resume}

pub record InputInterruptPolicy : Type 0 where
  pub input_interrupt_enabled : Bool
  pub input_interrupt_resume : String

-- What is announced; an interruption says whether a resume is armed.
pub data Announcement : Type 0 where
  playback_interrupted : Bool → Announcement
  playback_resumed : Announcement

pub record InputInterruptWatcher : Type 0 where
  pub detector : Detector
  pub player : Player
  pub announced : List Announcement

-- `input_active`; none where nothing can be read.
unfoldable pub input_active : InputInterruptWatcher → Option Bool
input_active l = if l.detector.readable then some (input_is_hot l.detector) else none

abbrev pub armed_by : InputInterruptPolicy → Player → Player
armed_by policy p =
    if text_eq policy.input_interrupt_resume "when_idle" then arm_resume_when_input_idle p else p

unfoldable pub announce_interrupted :
    InputInterruptPolicy → Result Bool × Player → InputInterruptWatcher → InputInterruptWatcher
announce_interrupted policy (ok true, p) l = record l {
  player = armed_by policy p;
  announced =
      l.announced ++ playback_interrupted (armed_by policy p).resume_when_input_idle_armed ∷ [];
}
announce_interrupted policy (_, p) l = record l { player = p }

unfoldable pub interrupt_for_listener :
    (Player → Player) → InputInterruptPolicy → InputInterruptWatcher → InputInterruptWatcher
interrupt_for_listener meanwhile policy l =
    announce_interrupted policy (interrupt meanwhile l.player) l

unfoldable pub announce_resumed :
    Result (Unit {0}) × Player → InputInterruptWatcher → InputInterruptWatcher
announce_resumed (ok x, p) l = record l {
  player = p;
  announced = l.announced ++ playback_resumed ∷ [];
}
announce_resumed (raised e, p) l = record l { player = p }

unfoldable pub resume_if_armed : InputInterruptWatcher → InputInterruptWatcher
resume_if_armed l =
    if l.player.resume_when_input_idle_armed then announce_resumed (resume l.player) l else l

abbrev pub is_quiet : Option Bool → Bool
is_quiet (some false) = true
is_quiet _ = false

-- `_poll`: what a failed call has written stays, and the failure is only logged.
unfoldable pub poll :
    (Player → Player)
    → InputInterruptPolicy
    → Option Bool
    → InputInterruptWatcher
    → InputInterruptWatcher
poll meanwhile policy reading l =
    let (edge, detector) = observe reading l.detector in
    let seen = record l { detector = detector } in
    if edge && policy.input_interrupt_enabled
    then interrupt_for_listener meanwhile policy seen
    else if is_quiet reading
    then resume_if_armed seen
    else seen

-- One turn of `run`: while the reading is awaited, there is none.
unfoldable pub turn :
    (Player → Player)
    → InputInterruptPolicy
    → Option Bool
    → InputInterruptWatcher
    → InputInterruptWatcher
turn meanwhile policy reading l =
    poll meanwhile policy reading (record l { detector = (observe none l.detector).1 })

unfoldable pub run :
    (Player → Player)
    → InputInterruptPolicy
    → List (Option Bool)
    → InputInterruptWatcher
    → InputInterruptWatcher
run meanwhile policy [] l = l
run meanwhile policy (r ∷ rs) l = run meanwhile policy rs (turn meanwhile policy r l)
