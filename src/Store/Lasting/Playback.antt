-- ===== src/Store/Lasting/Playback.antt =====
-- What lasts is kept by the methods that replay, reorder, clear and recover.
use ai_tts.Common.{
  ℕ, suc, ◌≡◌, refl, true, false, Option, none, some, String, List, [], ◌∷◌, arith, Bool-cases,
  Option-cases, inl, inr,
}
use ai_tts.Common.Int.{ℤ, pos, ◌+ℤ◌}
use ai_tts.Model.{
  Utterance, UtteranceSegment, VoiceAssignment, State, is_terminal, state_is, state_in, terminal,
  can_transition, queued, playing, paused, cancelled,
}
use ai_tts.Store.{StreamingJob}
use ai_tts.Store.Exec.{Keeps, Keeps-bind, Keeps-pure, Keeps-if, Keeps-gets, if_found, when}
use ai_tts.Store.Reads.{has_id, get}
use ai_tts.Store.Transition.{no_changes, transition, write_utterances}
use ai_tts.Store.Replay.{
  restart_segments, rewind_from, reset_target, reset_segments_from, announce_suspended, skip_child,
  announce_skipped, skip_utterance, announce_paused_child, child_at, total_position, save_position,
  suspend_clip, suspend_playback,
}
use ai_tts.Store.Queue.{
  QueueName, set_order_key, move_to_head, cancel_each, clear_queue, clear_pending, renumber,
  reorder_pending, forget_terminal_audio, bind_legacy_engine,
}
use ai_tts.Store.Registry.{claim_voice, pin_voice, release_voice, write_voices, set_setting}
use ai_tts.Store.Recover.{
  requeue_utterance, requeue_parent, recover_live, recover_job, delete_jobs, recover_streaming_jobs,
  move_segment_to, move_to, fail_owner, close_owner, reconcile_children, reconcile, recover,
}
use ai_tts.Store.Lasting.{
  Lasts, Lasts-IsOrder, elsewhere-Lasts, open-Lasting, write_where-Lasts, unbound-Lasting,
}
use ai_tts.Store.Lasting.From.{
  LastsFrom, same-bind-LastsFrom, bind-LastsFrom, write-LastsFrom, Keeps-LastsFrom, get_own,
  if-LastsFrom, pause_child-Same, requeue_child-Same, change_time-Same, same_rules,
  SameUtterances-IsOrder,
}
use ai_tts.Store.Lasting.Methods.{method_rules, announce_found-Lasts, announce_segment_found-Lasts}

pub restart-Lasts : (id : String) → Keeps Lasts (restart_segments id)
unfolding restart_segments
restart-Lasts id = search method_rules depth 8

rewind-Lasts :
    (id : String) (i : ℕ) (jobs : List StreamingJob) → Keeps Lasts (rewind_from id i jobs)
unfolding rewind_from
rewind-Lasts id i jobs = search method_rules depth 8

reset_target-Lasts :
    (id : String) (i : ℕ) (jobs : List StreamingJob) (g : Option UtteranceSegment)
    → Keeps Lasts (reset_target id i jobs g)
unfolding reset_target
reset_target-Lasts id i jobs none = search method_rules
reset_target-Lasts id i jobs (some g) = search (method_rules, rewind-Lasts)

pub reset-Lasts : (id : String) (i : ℕ) → Keeps Lasts (reset_segments_from id i)
unfolding reset_segments_from
reset-Lasts id i = search (method_rules, reset_target-Lasts)

skip_child-Lasts :
    (id : String) (position : ℕ) (g : Option UtteranceSegment)
    → Keeps Lasts (skip_child id position g)
unfolding skip_child
skip_child-Lasts id position none = search method_rules
skip_child-Lasts id position (some g) = search method_rules

announce_skipped-Lasts :
    (id : String) (g : Option UtteranceSegment) → Keeps Lasts (announce_skipped id g)
unfolding announce_skipped
announce_skipped-Lasts id none = search method_rules
announce_skipped-Lasts id (some g) = announce_segment_found-Lasts id g.index g.state

pub skip-Lasts :
    (id : String) (i : Option ℕ) (position : ℕ) (total : Option ℕ)
    → Keeps Lasts (skip_utterance id i position total)
unfolding skip_utterance
skip-Lasts id i position total =
    search (method_rules, skip_child-Lasts, announce_skipped-Lasts) depth 10

announce_paused_child-Lasts :
    (id : String) (g : Option UtteranceSegment) → Keeps Lasts (announce_paused_child id g)
unfolding announce_paused_child
announce_paused_child-Lasts id none = search method_rules
announce_paused_child-Lasts id (some g) = search (method_rules, announce_segment_found-Lasts)

save-LastsFrom :
    (id : String) (total now : ℕ) (u : Utterance)
    → state_in u.state terminal ≡ false
    → LastsFrom id u (save_position id total now)
unfolding save_position
save-LastsFrom id total now u h =
    write-LastsFrom id u
      (λ x. record x { state = paused; played_ms = some total; state_changed_at = now }) (λ x. refl)
      (open-Lasting u paused now (some total) u.audio_path h)

announce_suspended-Lasts :
    (id : String) (before : Option UtteranceSegment) (was : State)
    → Keeps Lasts (announce_suspended id before was)
unfolding announce_suspended
announce_suspended-Lasts id before was =
    search (method_rules, announce_paused_child-Lasts, announce_found-Lasts)

suspend_open-LastsFrom :
    (id : String) (i : Option ℕ) (position : ℕ) (u : Utterance)
    → state_in u.state (playing ∷ paused ∷ []) ≡ true
    → LastsFrom id u (suspend_clip id i position (some u))
unfolding suspend_clip
suspend_open-LastsFrom id i position u h = rw h (
    same-bind-LastsFrom id u _ _ (Keeps-gets SameUtterances-IsOrder (child_at id i)) λ before.
      same-bind-LastsFrom id u _ _
        (Keeps-gets SameUtterances-IsOrder (total_position id i position))
        λ total. same-bind-LastsFrom id u _ _ (pause_child-Same id i position) λ _.
          same-bind-LastsFrom id u _ _ (change_time-Same u) λ now.
            bind-LastsFrom id u _ _ (save-LastsFrom id total now u (ground arith))
              λ _. announce_suspended-Lasts id before u.state)

pub suspend-Lasts :
    (id : String) (i : Option ℕ) (position : ℕ) → Keeps Lasts (suspend_playback id i position)
unfolding suspend_playback suspend_clip
suspend-Lasts id i position = record {
  at = λ s. elim (Option-cases (get id s)) [
    | inl absent ↦ rw absent (Lasts-IsOrder.same s)
    | inr (u, e) ↦ rw e (elim (Bool-cases (state_in u.state (playing ∷ paused ∷ []))) [
      | inl active ↦ (suspend_open-LastsFrom id i position u active).at s e
      | inr idle ↦ rw idle (Lasts-IsOrder.same s)
    ])
  ];
}

pub move_to_head-Lasts : (id : String) → Keeps Lasts (move_to_head id)
unfolding move_to_head
move_to_head-Lasts id = search method_rules depth 8

cancel_each-Lasts : (us : List Utterance) (n : ℕ) → Keeps Lasts (cancel_each us n)
unfolding cancel_each
cancel_each-Lasts [] n = search method_rules
cancel_each-Lasts (u ∷ us) n =
    let taken = cancel_each-Lasts us (suc n) in
    let left = cancel_each-Lasts us n in
    Keeps-if Lasts-IsOrder (can_transition u.state cancelled) _ _
      (Keeps-bind Lasts-IsOrder (transition u.id cancelled no_changes) _ (search method_rules)
        (λ _. taken))
      left

pub clear_queue-Lasts : (q : QueueName) → Keeps Lasts (clear_queue q)
unfolding clear_queue
clear_queue-Lasts q = search (method_rules, cancel_each-Lasts)

pub clear_pending-Lasts : Keeps Lasts clear_pending
unfolding clear_pending
clear_pending-Lasts = search (method_rules, cancel_each-Lasts)

renumber-Lasts : (base : ℤ) (i : ℕ) (ids : List String) → Keeps Lasts (renumber base i ids)
unfolding renumber
renumber-Lasts base i [] = search method_rules
renumber-Lasts base i (id ∷ ids) =
    Keeps-bind Lasts-IsOrder (write_utterances (has_id id) (set_order_key (base +ℤ pos i))) _
      (search method_rules) (λ _. renumber-Lasts base (suc i) ids)

pub reorder-Lasts : (ids : List String) → Keeps Lasts (reorder_pending ids)
unfolding reorder_pending
reorder-Lasts ids = search (method_rules, renumber-Lasts) depth 8

pub forget-Lasts : (path : String) → Keeps Lasts (forget_terminal_audio path)
unfolding forget_terminal_audio
forget-Lasts path = search method_rules depth 10

pub bind_legacy-Lasts : (name : String) → Keeps Lasts (bind_legacy_engine name)
unfolding bind_legacy_engine
bind_legacy-Lasts name = write_where-Lasts _ _ (λ u. refl) (λ u h. unbound-Lasting u name h)

write_voices-Lasts :
    (f : List VoiceAssignment → List VoiceAssignment) → Keeps Lasts (write_voices f)
unfolding write_voices
write_voices-Lasts f = record { at = λ s. elsewhere-Lasts s _ refl }

pub claim_voice-Lasts : (source voice : String) → Keeps Lasts (claim_voice source voice)
unfolding claim_voice
claim_voice-Lasts source voice = search (method_rules, write_voices-Lasts)

pub pin_voice-Lasts : (source voice : String) → Keeps Lasts (pin_voice source voice)
unfolding pin_voice
pin_voice-Lasts source voice = search (method_rules, write_voices-Lasts)

pub release_voice-Lasts : (source : String) → Keeps Lasts (release_voice source)
unfolding release_voice
release_voice-Lasts source = search (method_rules, write_voices-Lasts)

pub set_setting-Lasts : (key value : String) → Keeps Lasts (set_setting key value)
unfolding set_setting
set_setting-Lasts key value = record { at = λ s. elsewhere-Lasts s _ refl }

requeue_parent-LastsFrom :
    (u : Utterance) (i : Option ℕ) → is_terminal u ≡ false → LastsFrom u.id u (requeue_parent u i)
unfolding requeue_parent is_terminal
requeue_parent-LastsFrom u none h =
    write-LastsFrom u.id u requeue_utterance (λ x. refl)
      (open-Lasting u queued u.state_changed_at none none h)
requeue_parent-LastsFrom u (some i) h =
    if-LastsFrom u.id u (state_is u.state playing) _ _
      (write-LastsFrom u.id u (λ x. record x { state = paused }) (λ x. refl)
        (open-Lasting u paused u.state_changed_at u.played_ms u.audio_path h))
      (Keeps-LastsFrom u.id u _ (Keeps-pure Lasts-IsOrder tt))

recover_live-LastsFrom :
    (u : Utterance) (job : StreamingJob)
    → is_terminal u ≡ false
    → LastsFrom u.id u (recover_live u job)
unfolding recover_live
recover_live-LastsFrom u job h =
    same-bind-LastsFrom u.id u _
      (when (state_in u.state (playing ∷ paused ∷ [])) (set_setting "playback_held" "true"))
      (search same_rules)
      λ _.
        same-bind-LastsFrom u.id u _ _ (requeue_child-Same u.id job.segment_index)
          (λ _. requeue_parent-LastsFrom u job.segment_index h)

recover_job-Lasts : (job : StreamingJob) → Keeps Lasts (recover_job job)
unfolding recover_job if_found
recover_job-Lasts job = record {
  at = λ s. elim (Option-cases (get job.utterance_id s)) [
    | inl absent ↦ rw absent (Lasts-IsOrder.same s)
    | inr (u, e) ↦ rw e (elim (Bool-cases (is_terminal u)) [
      | inl closed ↦ rw closed (Lasts-IsOrder.same s)
      | inr owed ↦
          rw owed ((recover_live-LastsFrom u job owed).at s (get_own job.utterance_id u s e))
    ])
  ];
}

delete_jobs-Lasts : Keeps Lasts delete_jobs
unfolding delete_jobs
delete_jobs-Lasts = record { at = λ s. elsewhere-Lasts s _ refl }

recover_streaming_jobs-Lasts : Keeps Lasts recover_streaming_jobs
unfolding recover_streaming_jobs
recover_streaming_jobs-Lasts = search (method_rules, recover_job-Lasts, delete_jobs-Lasts) depth 8

move_segment_to-Lasts : (to : State) (g : UtteranceSegment) → Keeps Lasts (move_segment_to to g)
unfolding move_segment_to
move_segment_to-Lasts to g = search method_rules

move_to-Lasts : (to : State) (u : Utterance) → Keeps Lasts (move_to to u)
unfolding move_to
move_to-Lasts to u = search method_rules

fail_owner-Lasts : (u : Utterance) (g : UtteranceSegment) → Keeps Lasts (fail_owner u g)
unfolding fail_owner
fail_owner-Lasts u g = search (method_rules, move_to-Lasts)

close_owner-Lasts : (u : Utterance) → Keeps Lasts (close_owner u)
unfolding close_owner
close_owner-Lasts u = search method_rules

reconcile_children-Lasts :
    (u : Utterance) (gs : List UtteranceSegment) (g : Option UtteranceSegment)
    → Keeps Lasts (reconcile_children u gs g)
unfolding reconcile_children
reconcile_children-Lasts u gs (some g) = fail_owner-Lasts u g
reconcile_children-Lasts u gs none = search (method_rules, close_owner-Lasts, move_to-Lasts) depth 8

reconcile-Lasts : (u : Utterance) → Keeps Lasts (reconcile u)
unfolding reconcile
reconcile-Lasts u = search (method_rules, reconcile_children-Lasts)

pub recover-Lasts : Keeps Lasts recover
unfolding recover
recover-Lasts =
    search
      (
        method_rules, recover_streaming_jobs-Lasts, move_segment_to-Lasts, move_to-Lasts,
        reconcile-Lasts,
      )
      depth 16
