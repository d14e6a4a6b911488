-- ===== src/Playback/Control.antt =====
-- The listener's controls in src/aitts/playback.py: the rate, the hold and its
-- release.
use ai_tts.Common.{
  ℕ, Bool, true, false, not, ◌&&◌, String, Option, none, some, List, [], ◌∷◌, is_none, text_eq,
  ◌==◌, decimal, if◌then◌else◌,
}
use ai_tts.Common.Table.{select_where}
use ai_tts.Model.{Utterance, UtteranceSegment, playing, paused, state_is}
use ai_tts.Store.{Store, value_error}
use ai_tts.Store.Exec.{time}
use ai_tts.Store.Reads.{next_unfinished_segment, playback_queue}
use ai_tts.Store.Registry.{set_setting}
use ai_tts.Store.Transition.{no_changes, transition, transition_segment}
use ai_tts.Playback.{
  Player, set_rate, pause_sink, resume_sink, or_zero, or_text, current, current_heard_ms,
}
use ai_tts.Playback.Act.{Play, pure, raise, gets, modify, on_store, when, done, ◌>>=◌, ◌>>◌}
use ai_tts.Playback.Device.{begin, begin_segment, has_source, clip_has_source, release_sink}

unfoldable pub notify : Player → Player
notify p = record p { woken = true }

-- `str(rate)` of a supported rate.
abbrev pub rate_text : ℕ → Option String
rate_text n =
    if n == 50
    then some "0.5"
    else if n == 75
    then some "0.75"
    else if n == 100
    then some "1.0"
    else if n == 150
    then some "1.5"
    else if n == 200
    then some "2.0"
    else if n == 300
    then some "3.0"
    else none

-- The closing cue keeps its own rate.
unfoldable pub apply_rate : ℕ → Player → Player
apply_rate rate p =
    if p.sink_active && is_none p.current_id then p else record p { sink = set_rate rate p.sink }

unfoldable pub set_supported_rate : ℕ → Option String → Play (Unit {0})
set_supported_rate rate none = raise value_error
set_supported_rate rate (some text) = do
  modify (apply_rate rate)
  on_store (set_setting "playback_rate" text)
  modify (λ p. record p { playback_rate = rate })

unfoldable pub set_playback_rate : ℕ → Play (Unit {0})
set_playback_rate rate = set_supported_rate rate (rate_text rate)

unfoldable pub clear_interruption : Play (Unit {0})
clear_interruption = do
  modify (λ p. record p { interrupted_at = none; resume_when_input_idle_armed = false })
  on_store (set_setting "playback_hold_reason" "")

unfoldable pub pause_at : Utterance → Option ℕ → ℕ → Play (Unit {0})
pause_at u none position = pure tt
pause_at u (some i) position =
    done (
      on_store (transition_segment u.id i paused (record no_changes { played_ms = some position })))

unfoldable pub pause_child : Utterance → Play (Unit {0})
pause_child u = do
  modify (λ p. record p { sink = pause_sink p.sink })
  p ← gets (λ p. p)
  pause_at u p.current_segment_index p.sink.position

-- Of the current clip only one that is playing is paused.
unfoldable pub pause_found : (Player → Player) → Option Utterance → Play (Unit {0})
pause_found meanwhile none = do
  active ← gets (λ p. p.sink_active)
  if active then modify (release_sink meanwhile) else pure tt
pause_found meanwhile (some u) = do
  heard ← gets current_heard_ms
  active ← gets (λ p. p.sink_active)
  if not (state_is u.state playing) then pure tt else do
    when active (pause_child u)
    done (on_store (transition u.id paused (record no_changes { played_ms = heard })))

-- `_hold`; `by_hand` where it has no reason.
unfoldable pub hold : (Player → Player) → Bool → Play (Unit {0})
hold meanwhile by_hand = do
  when by_hand clear_interruption
  modify (λ p. record p { held = true })
  on_store (set_setting "playback_held" "true")
  u ← gets current
  pause_found meanwhile u

unfoldable pub pause : (Player → Player) → Play (Unit {0})
pause meanwhile = hold meanwhile true

unfoldable pub interrupt_now : (Player → Player) → Play Bool
interrupt_now meanwhile = do
  hold meanwhile false
  now ← on_store time
  modify (λ p. record p { interrupted_at = some now })
  on_store (set_setting "playback_hold_reason" "listener_speaking")
  on_store (set_setting "playback_hold_at" (decimal now))
  pure true

unfoldable pub interrupt : (Player → Player) → Play Bool
interrupt meanwhile = do
  held ← gets (λ p. p.held)
  if held then pure false else interrupt_now meanwhile

unfoldable pub arm_resume_when_input_idle : Player → Player
arm_resume_when_input_idle p = record p { resume_when_input_idle_armed = true }

-- `min(paused, key=order_key)`: the first of those with the least key, as `playback_queue` is sorted by it.
abbrev adoptable_paused : Store → Option Utterance
adoptable_paused s = first (select_where (λ u. state_is u.state paused) (playback_queue s))
  where
    first : List Utterance → Option Utterance
    first [] = none
    first (u ∷ us) = some u

unfoldable pub adopt : Option Utterance → Player → Player
adopt none p = p
adopt (some u) p = record p {
  current_id = some u.id;
  preempted_stack = select_where (λ saved. not (text_eq saved.0 u.id)) p.preempted_stack;
}

-- The clip that a resume goes on with: the current one, or one that is paused and is adopted.
unfoldable pub current_or_adopted : Option Utterance → Play (Option Utterance)
current_or_adopted (some u) = pure (some u)
current_or_adopted none = do u ← gets (λ p. adoptable_paused p.store); modify (adopt u); pure u

unfoldable pub resume_child : String → Option ℕ → Play (Unit {0})
resume_child id none = pure tt
resume_child id (some i) = done (on_store (transition_segment id i playing no_changes))

unfoldable pub resume_active : Utterance → Play (Unit {0})
resume_active u = do
  modify (λ p. record p { sink = resume_sink p.sink })
  index ← gets (λ p. p.current_segment_index)
  resume_child u.id index
  done (on_store (transition u.id playing no_changes))

unfoldable pub resume_from : Utterance → Option UtteranceSegment → Play (Unit {0})
resume_from u (some g) = do
  sourced ← gets (has_source g)
  if state_is g.state paused && sourced
      then begin_segment u g (or_zero g.played_ms)
      else done (on_store (transition u.id playing no_changes))
resume_from u none = do
  sourced ← gets (clip_has_source u)
  if sourced then begin u.id (or_text u.audio_path u.id) (or_zero u.played_ms) else pure tt

unfoldable pub resume_found : Option Utterance → Play (Unit {0})
resume_found none = pure tt
resume_found (some u) = do
  active ← gets (λ p. p.sink_active)
  g ← gets (λ p. next_unfinished_segment u.id p.store)
  if not (state_is u.state paused)
      then pure tt
      else if active
      then resume_active u
      else resume_from u g

unfoldable pub resume : Play (Unit {0})
resume = do
  modify (λ p. record p { held = false })
  clear_interruption
  on_store (set_setting "playback_held" "false")
  c ← gets current
  u ← current_or_adopted c
  resume_found u
  modify notify
