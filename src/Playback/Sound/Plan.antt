-- ===== src/Playback/Sound/Plan.antt =====
-- A turn of the plan of src/aitts/playback.py keeps the device sound.
use ai_tts.Common.{
  ℕ, ◌≡◌, refl, Bool, false, not, ◌&&◌, ◌||◌, Option, none, some, [], arith, is_none, is_some,
  if◌then◌else◌, if_either,
}
use ai_tts.Model.{Utterance, UtteranceSegment, ready, playing, state_is, is_terminal}
use ai_tts.Store.{Result, ok, raised}
use ai_tts.Store.Reads.{get, next_pending, next_unfinished_segment}
use ai_tts.Playback.{Player, or_text, start, set_rate, current}
use ai_tts.Playback.Act.{Play, pure, gets, modify, continue, ◌>>=◌, ◌>>◌}
use ai_tts.Playback.Device.{clip_has_source, start_saved, release_sink, clear_current}
use ai_tts.Playback.Plan.{
  candidate, suspended_position, save_suspended, suspend_clip, release_idle, suspend_found,
  suspend_current, start_refreshed, restore_if_free, preempt_with, preempt_found, plan_preemption,
  start_outro, close_cue_session, finish_cue_session, go_idle, start_next, child_of, plan_next,
  continue_child, continue_found, plan_rest, plan, earcon_enabled,
}
use ai_tts.Playback.Sound.{
  IsFree, IsSound, free-IsSound, unmarked-IsFree, Holds, gets_then, if-Holds, play_rules, start_of,
}
use ai_tts.Playback.Sound.Device.{
  start_by_taking, begin-Takes, begin_segment-Takes, start_saved-Takes, IsCalm, release_sink-IsFree,
}
use ai_tts.Playback.Sound.Restore.{
  clear_current-Free, push-Free, Planned, restore_if_free-Planned, absent_id, restore_sound-Planned,
  then_restore,
}

save_suspended-Free :
    (u : Utterance) (i : Option ℕ) (had : Bool) (before : ℕ)
    → Holds IsFree IsFree (save_suspended u i had before)
unfolding save_suspended
save_suspended-Free u i had before = search (play_rules, push-Free, clear_current-Free) depth 8

module _ (meanwhile : Player → Player) (calm : IsCalm meanwhile) where
  release_idle-IsFree : (p : Player) → IsSound p → IsFree (release_idle meanwhile p)
  unfolding release_idle
  release_idle-IsFree p v =
      if_either IsFree p.sink_active _ _
        (λ h.
          clear_current-Free.at (release_sink meanwhile p) (release_sink-IsFree meanwhile calm p v))
        (λ h. unmarked-IsFree p v h)

  suspend_clip-Free : (u : Utterance) → Holds IsSound IsFree (suspend_clip meanwhile u)
  unfolding suspend_clip
  suspend_clip-Free u = record {
    at = λ p v.
        (save_suspended-Free u p.current_segment_index p.sink_active (suspended_position u p)).at
          (release_sink meanwhile p) (release_sink-IsFree meanwhile calm p v);
  }

  suspend_found-Free : (u : Option Utterance) → Holds IsSound IsFree (suspend_found meanwhile u)
  unfolding suspend_found
  suspend_found-Free none = record { at = release_idle-IsFree }
  suspend_found-Free (some u) =
      if-Holds (is_terminal u) _ _ (record { at = release_idle-IsFree }) (suspend_clip-Free u)

  suspend_current-Free : Holds IsSound IsFree (suspend_current meanwhile)
  unfolding suspend_current
  suspend_current-Free = gets_then _ _ suspend_found-Free

  restored-Planned :
      (u : Option Utterance) (q : Player)
      → IsFree q
      → Planned ((start_refreshed u >> restore_if_free) q)
  unfolding start_refreshed
  restored-Planned none q v = restore_if_free-Planned q v
  restored-Planned (some u) q v =
      if_either (λ (m : Play (Unit {0})). Planned ((m >> restore_if_free) q))
        (state_is u.state ready) _ _
        (λ h. then_restore (start_saved u none q) ((start_saved-Takes u none).at q v))
        (λ h. restore_if_free-Planned q v)

  preempted-Planned :
      (u : Utterance) (r : Result (Unit {0}) × Player)
      → IsFree r.1
      → Planned (
          continue r (λ x. gets (λ p. p.held) >>= λ held.
          if held
          then pure tt
          else (gets (λ p. get u.id p.store) >>= λ refreshed.
              start_refreshed refreshed >> restore_if_free)))
  preempted-Planned u (ok x, q) v =
      if_either (λ (m : Play (Unit {0})). Planned (m q)) q.held _ _
        (λ h. (free-IsSound q v, λ free. absurd (ground (arith, h, free))))
        (λ h. restored-Planned (get u.id q.store) q v)
  preempted-Planned u (raised e, q) v = free-IsSound q v

  preempt_found-Planned :
      (u : Option Utterance) (p : Player) → IsSound p → Planned (preempt_found meanwhile u p)
  unfolding preempt_found preempt_with
  preempt_found-Planned none p v = restore_sound-Planned p v
  preempt_found-Planned (some u) p v =
      preempted-Planned u (suspend_current meanwhile p) (suspend_current-Free.at p v)

  pub plan_preemption-Planned : (p : Player) → IsSound p → Planned (plan_preemption meanwhile p)
  unfolding plan_preemption
  plan_preemption-Planned p v =
      if_either (λ (m : Play (Unit {0})). Planned (m p)) p.held _ _
        (λ h. (v, λ free. absurd (ground (arith, h, free))))
        (λ h. preempt_found-Planned (candidate p) p v)

-- The rest of a turn takes only a free device, and the closing cue only where no clip waits.
idle-Sound : Holds IsFree IsSound (modify go_idle)
unfolding go_idle IsFree
idle-Sound = record { at = λ p v. free-IsSound (go_idle p) v }

start_next-Sound :
    (u : Utterance) (g : Option UtteranceSegment) → Holds IsFree IsSound (start_next (some u) g)
unfolding start_next
start_next-Sound u (some g) =
    if-Holds _ _ _ (start_by_taking _ (begin_segment-Takes u g 0)) idle-Sound
start_next-Sound u none = record {
  at = λ p v.
      (if-Holds (state_is u.state ready && clip_has_source u p) _ _
          (start_by_taking _ (begin-Takes u.id (or_text u.audio_path u.id) 0)) idle-Sound).at
        p v;
}

outro-IsSound : (p : Player) → IsFree p → p.preempted_stack ≡ [] → IsSound (close_cue_session p)
unfolding IsFree IsSound close_cue_session start_outro start set_rate
outro-IsSound p (quiet, clean, unmarked) e =
    if_either IsSound (earcon_enabled p) _ _ (λ h. (λ a. refl, rw quiet clean, λ a c. e))
      (λ h. (λ a. absurd (ground (arith, quiet)), clean, λ a c. e))

finish-IsSound :
    (u : Option Utterance) (p : Player)
    → IsFree p
    → p.preempted_stack ≡ []
    → IsSound (finish_cue_session u p)
unfolding finish_cue_session
finish-IsSound u p v e =
    if_either IsSound (is_some u || not p.cue_session_open) _ _ (λ h. free-IsSound p v)
      (λ h. outro-IsSound p v e)

-- What follows the choice of the next clip.
start_chosen-IsSound :
    (u : Option Utterance) (p : Player)
    → IsFree p
    → p.preempted_stack ≡ []
    → IsSound (let q = finish_cue_session u p in (start_next u (child_of u q.store) q).1)
unfolding finish_cue_session start_next go_idle IsSound
start_chosen-IsSound none p v e = finish-IsSound none p v e
start_chosen-IsSound (some u) p v e =
    (start_next-Sound u (next_unfinished_segment u.id p.store)).at p v

plan_next-IsSound : (p : Player) → IsFree p → p.preempted_stack ≡ [] → IsSound (plan_next p).1
unfolding plan_next
plan_next-IsSound p v e = start_chosen-IsSound (next_pending none p.store) p v e

pub cleared-Sound : Holds IsFree IsSound (modify clear_current)
cleared-Sound = start_of _ clear_current-Free

continue_child-Sound :
    (u : Utterance) (g : Option UtteranceSegment) → Holds IsFree IsSound (continue_child u g)
unfolding continue_child
continue_child-Sound u none = idle-Sound
continue_child-Sound u (some g) =
    if-Holds _ _ _ (start_by_taking _ (begin_segment-Takes u g 0)) idle-Sound

continue_found-Sound : (u : Option Utterance) → Holds IsFree IsSound (continue_found u)
unfolding continue_found
continue_found-Sound none = cleared-Sound
continue_found-Sound (some u) = record {
  at = λ p v.
      (if-Holds (is_terminal u) _ _ cleared-Sound (
          if-Holds (not p.held && state_is u.state playing) _ _
            (continue_child-Sound u (next_unfinished_segment u.id p.store)) idle-Sound)).at
        p v;
}

plan_rest-IsSound :
    (p : Player)
    → IsSound p
    → (p.held ≡ false → p.current_id ≡ none → p.preempted_stack ≡ [])
    → IsSound (plan_rest p).1
unfolding plan_rest go_idle IsSound
plan_rest-IsSound p v e =
    if_either (λ (m : Play (Unit {0})). IsSound (m p).1)
      (is_none p.current_id && not p.held && not p.sink_active) _ _
      (λ h.
        plan_next-IsSound p (unmarked-IsFree p v (ground (arith, h)))
          (e (ground (arith, h)) (absent_id p.current_id (ground (arith, h)))))
      (λ h.
        if_either (λ (m : Play (Unit {0})). IsSound (m p).1)
          (is_some p.current_id && not p.sink_active) _ _
          (λ k. (continue_found-Sound (current p)).at p (unmarked-IsFree p v (ground (arith, k))))
          (λ k. v))

after_preemption :
    (r : Result (Unit {0}) × Player) → Planned r → IsSound (continue r (λ x. plan_rest)).1
after_preemption (ok x, q) (h, e) = plan_rest-IsSound q h e
after_preemption (raised x, q) h = h

pub plan-Sound :
    (meanwhile : Player → Player) → IsCalm meanwhile → Holds IsSound IsSound (plan meanwhile)
unfolding plan
plan-Sound meanwhile calm = record {
  at = λ p v.
      after_preemption (plan_preemption meanwhile p) (plan_preemption-Planned meanwhile calm p v);
}
