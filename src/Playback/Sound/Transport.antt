-- ===== src/Playback/Sound/Transport.antt =====
-- The steps of the listener in src/aitts/playback.py keep the device sound.
use ai_tts.Common.{
  arith, ℕ, ◌≡◌, refl, Bool, true, false, not, Option, none, some, [], ◌∷◌, String, is_none,
  is_some, is_empty, if_either,
}
use ai_tts.Model.{Utterance, UtteranceSegment, playing, paused, state_in, state_is}
use ai_tts.Store.Exec.{Exec}
use ai_tts.Store.Reads.{get, segments}
use ai_tts.Store.Replay.{suspend_playback}
use ai_tts.Store.Transition.{no_changes, transition}
use ai_tts.Playback.{found_by, Player, current, or_text}
use ai_tts.Playback.Act.{Play, pure, modify, on_store, when, done, ◌>>◌}
use ai_tts.Playback.Device.{clip_has_source, release_sink, start_audio}
use ai_tts.Playback.Control.{notify}
use ai_tts.Playback.Transport.{
  skip_clip, skip_found, skip, resume_ready, resume_document_at_next_ready, forget_segment,
  suppress, settle_silent, restore_after_failed_step, next_from, next_segment, back_to,
  previous_from, previous_segment, play_again, restart_refreshed, restart_clip, restart_first,
  restart_document, restart_found, restart_current, save_stopped, retire_playback, hold_live,
  shutdown,
}
use ai_tts.Playback.Sound.{
  IsFree, IsSound, free-IsSound, Holds, Holds-bind, modify_then, bind-Start, bind-Sound, pure-Free,
  pure-Start, pure-Sound, if-Holds, play_rules, start_of,
}
use ai_tts.Playback.Sound.Device.{
  start_by_taking, begin_segment-Takes, start_audio-IsSound, IsCalm, release_sink-IsFree,
  release_sink-taken,
}
use ai_tts.Playback.Sound.Restore.{clear_current-Free}
use ai_tts.Playback.Sound.Control.{notify-Sound, clear_interruption-Sound, hold-Sound}

notify-Free : Holds IsFree IsFree (modify notify)
unfolding notify IsFree
notify-Free = record { at = λ p v. v }

forget_segment-Free : Holds IsFree IsFree (modify forget_segment)
unfolding forget_segment IsFree
forget_segment-Free = record { at = λ p v. v }

-- Raising or not, the store alone may have changed.
suppress-Free : {A : Type 0} (m : Play A) → Holds IsFree IsFree m → Holds IsFree IsFree (suppress m)
suppress-Free m h = record { at = h.at }

resume_ready-Start :
    (g : Option UtteranceSegment) (u : Option Utterance) → Holds IsFree IsSound (resume_ready g u)
unfolding resume_ready
resume_ready-Start none u = pure-Start tt
resume_ready-Start (some g) none = pure-Start tt
resume_ready-Start (some g) (some u) =
    search (play_rules, start_by_taking, begin_segment-Takes) depth 8

resume_document-Start : (id : String) → Holds IsFree IsSound (resume_document_at_next_ready id)
unfolding resume_document_at_next_ready
resume_document-Start id = search (play_rules, resume_ready-Start)

settle_silent-Start : (id : String) → Holds IsFree IsSound (settle_silent id)
unfolding settle_silent
settle_silent-Start id =
    start_of _ (search (play_rules, suppress-Free, clear_current-Free, notify-Free) depth 8)

-- A document goes on from a free device.
go_on : (id : String) → Holds IsFree IsSound (resume_document_at_next_ready id >> modify notify)
go_on id = Holds-bind _ _ (resume_document-Start id) (λ t. notify-Sound) (λ p v. v)

reopened-Start :
    (id : String)
    → Holds IsFree IsSound
        (modify forget_segment >> (resume_document_at_next_ready id >> modify notify))
reopened-Start id = bind-Start _ _ forget_segment-Free (λ t. go_on id)

restore_after_failed_step-Start :
    (id : String) (i : ℕ) → Holds IsFree IsSound (restore_after_failed_step id i)
unfolding restore_after_failed_step
restore_after_failed_step-Start id i =
    search (play_rules, settle_silent-Start, reopened-Start) depth 8

notified :
    {A : Type 0} (m : Play A) → Holds IsFree IsSound m → Holds IsFree IsSound (m >> modify notify)
notified m h = Holds-bind m _ h (λ t. notify-Sound) (λ p v. v)

advanced-Start :
    (id : String)
    → Holds IsFree IsSound (
        modify forget_segment >> (resume_document_at_next_ready id >> (modify notify >> pure true)))
advanced-Start id = bind-Start _ _ forget_segment-Free (λ t.
    Holds-bind _ (λ x. modify notify >> pure true) (resume_document-Start id)
      (λ x. bind-Sound _ _ notify-Sound (λ y. pure-Sound true)) (λ p v. v))

back_to-Start : (u : Utterance) (i : ℕ) (b : Bool) → Holds IsFree IsSound (back_to u i b)
unfolding back_to
back_to-Start u i false =
    Holds-bind _ _ (restore_after_failed_step-Start u.id i) (λ t. pure-Sound false) (λ p v. v)
back_to-Start u i true = advanced-Start u.id

-- The device is free, and its clip is still the current one.
IsReleased : Player → Type 0
IsReleased p = IsFree p × (is_none p.current_id ≡ false)

stored-Released : {A : Type 0} (m : Exec A) → Holds IsReleased IsReleased (done (on_store m))
unfolding IsReleased IsFree
stored-Released m =
    Holds-bind {R = IsReleased} (on_store m) _ (record { at = λ p v. v })
      (λ t. record { at = λ p v. v }) (λ p v. v)

play_again-Sound : (u : Utterance) → Holds IsReleased IsSound (play_again u)
unfolding play_again IsReleased
play_again-Sound u =
    let resumed = transition u.id playing no_changes in
    Holds-bind {R = IsReleased} (when (state_is u.state paused) (done (on_store resumed)))
      (λ t. modify (start_audio (or_text u.audio_path u.id) 0))
      (if-Holds (state_is u.state paused) (done (on_store resumed)) (pure tt)
        (stored-Released resumed) (record { at = λ p v. v }))
      (λ t. record { at = λ p v. start_audio-IsSound (or_text u.audio_path u.id) 0 p v.0 v.1 })
      (λ p v. free-IsSound p v.0)

on_release : {A : Type 0} (m : Play A) → Holds IsFree IsSound m → Holds IsReleased IsSound m
unfolding IsReleased
on_release m h = record { at = λ p v. h.at p v.0 }

restart_refreshed-Sound : (u : Option Utterance) → Holds IsReleased IsSound (restart_refreshed u)
unfolding restart_refreshed
restart_refreshed-Sound none = on_release _ (pure-Start tt)
restart_refreshed-Sound (some u) = record {
  at = λ p v.
      (if-Holds (not (state_in u.state (playing ∷ paused ∷ []))) _ _ (on_release _ (pure-Start tt))
          (if-Holds p.held _ _
            (on_release (done (on_store (suspend_playback u.id none 0)))
              (start_of _ (search play_rules)))
            (play_again-Sound u))).at
        p v;
}

found_taken :
    (f : String → Option Utterance) (id : Option String)
    → is_some (found_by f id) ≡ true
    → is_none id ≡ false
found_taken f none h = absurd (ground arith)
found_taken f (some id) h = refl

current_taken : (p : Player) → is_some (current p) ≡ true → is_none p.current_id ≡ false
unfolding current
current_taken p h = found_taken (λ id. get id p.store) p.current_id h

restart_first-Start :
    (id : String) (i : Option ℕ) (b : Bool) → Holds IsFree IsSound (restart_first id i b)
unfolding restart_first
restart_first-Start id i true = resume_document-Start id
restart_first-Start id none false = pure-Start tt
restart_first-Start id (some i) false = restore_after_failed_step-Start id i

module _ (meanwhile : Player → Player) (calm : IsCalm meanwhile) where
  -- What starts from a free device may follow the release.
  release_then :
      {A : Type 0} (m : Play A)
      → Holds IsFree IsSound m
      → Holds IsSound IsSound (modify (release_sink meanwhile) >> m)
  release_then m h = modify_then _ m (release_sink-IsFree meanwhile calm) h

  skip_clip-Sound : (u : Utterance) → Holds IsSound IsSound (skip_clip meanwhile u)
  unfolding skip_clip
  skip_clip-Sound u = search (play_rules, release_then, start_of, clear_current-Free) depth 10

  skip_found-Sound : (u : Option Utterance) → Holds IsSound IsSound (skip_found meanwhile u)
  unfolding skip_found
  skip_found-Sound none = pure-Sound tt
  skip_found-Sound (some u) = search (play_rules, skip_clip-Sound)

  pub skip-Sound : Holds IsSound IsSound (skip meanwhile)
  unfolding skip
  skip-Sound = search (play_rules, clear_interruption-Sound, skip_found-Sound, notify-Sound) depth 8

  next_from-Sound : (t : Option (Utterance × ℕ)) → Holds IsSound IsSound (next_from meanwhile t)
  unfolding next_from
  next_from-Sound none = pure-Sound false
  next_from-Sound (some (u, i)) = search (play_rules, release_then, advanced-Start) depth 10

  pub next_segment-Sound : Holds IsSound IsSound (next_segment meanwhile)
  unfolding next_segment
  next_segment-Sound = search (play_rules, next_from-Sound)

  previous_from-Sound :
      (t : Option (Utterance × ℕ)) → Holds IsSound IsSound (previous_from meanwhile t)
  unfolding previous_from
  previous_from-Sound none = pure-Sound false
  previous_from-Sound (some (u, i)) = search (play_rules, release_then, back_to-Start) depth 10

  pub previous_segment-Sound : Holds IsSound IsSound (previous_segment meanwhile)
  unfolding previous_segment
  previous_segment-Sound = search (play_rules, previous_from-Sound)

  restart_clip-IsSound :
      (u : Utterance) (p : Player)
      → IsSound p
      → is_none p.current_id ≡ false
      → IsSound (restart_clip meanwhile u p).1
  unfolding restart_clip IsReleased
  restart_clip-IsSound u p v h =
      let q = release_sink meanwhile p in
      if_either (λ (m : Play (Unit {0})). IsSound (m p).1) (not (clip_has_source u p)) _ _ (λ e. v)
        (λ e.
          (Holds-bind _ _ (restart_refreshed-Sound (get u.id q.store)) (λ t. notify-Sound)
              (λ r w. w)).at
            q (release_sink-IsFree meanwhile calm p v, release_sink-taken meanwhile calm p v h))

  restart_document-Sound : (u : Utterance) → Holds IsSound IsSound (restart_document meanwhile u)
  unfolding restart_document
  restart_document-Sound u =
      search (play_rules, release_then, forget_segment-Free, notified, restart_first-Start) depth 10

  restart_found-IsSound :
      (u : Option Utterance) (p : Player)
      → IsSound p
      → (is_some u ≡ true → is_none p.current_id ≡ false)
      → IsSound (restart_found meanwhile u p).1
  unfolding restart_found
  restart_found-IsSound none p v h = v
  restart_found-IsSound (some u) p v h =
      if_either (λ (m : Play (Unit {0})). IsSound (m p).1)
        (not (state_in u.state (playing ∷ paused ∷ []))) _ _ (λ k. v)
        (λ k.
          if_either (λ (m : Play (Unit {0})). IsSound (m p).1)
            (not (is_empty (segments u.id p.store))) _ _ (λ l. (restart_document-Sound u).at p v)
            (λ l. restart_clip-IsSound u p v (h refl)))

  pub restart_current-Sound : Holds IsSound IsSound (restart_current meanwhile)
  unfolding restart_current
  restart_current-Sound = record {
    at = λ p v.
        if_either (λ (m : Play (Unit {0})). IsSound (m p).1) p.held _ _ (λ h. v)
          (λ h. restart_found-IsSound (current p) p v (current_taken p));
  }

  save_stopped-Free : (u : Option Utterance) (b : Bool) → Holds IsFree IsFree (save_stopped u b)
  unfolding save_stopped
  save_stopped-Free none b = pure-Free tt
  save_stopped-Free (some u) b = search play_rules depth 8

  pub retire_playback-Sound : Holds IsSound IsSound (retire_playback meanwhile)
  unfolding retire_playback
  retire_playback-Sound =
      search (play_rules, release_then, start_of, save_stopped-Free, clear_current-Free) depth 10

  hold_live-Sound : (u : Option Utterance) → Holds IsSound IsSound (hold_live meanwhile u)
  unfolding hold_live
  hold_live-Sound none = pure-Sound tt
  hold_live-Sound (some u) = search (play_rules, hold-Sound meanwhile calm) depth 8

  pub shutdown-Sound : Holds IsSound IsSound (shutdown meanwhile)
  unfolding shutdown
  shutdown-Sound = search (play_rules, hold_live-Sound, retire_playback-Sound)
