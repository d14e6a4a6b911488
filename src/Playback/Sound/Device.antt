-- ===== src/Playback/Sound/Device.antt =====
-- The device in src/aitts/playback.py is taken only while it is free, and is free after its release.
use ai_tts.Common.{
  ℕ, ◌≡◌, refl, ◌∙◌, ap, Bool, true, false, not, Option, none, some, String, arith, is_none,
  if◌then◌else◌, Bool-cases, inl, inr, if_either,
}
use ai_tts.Model.{Utterance, UtteranceSegment, paused, state_is, artifact_id}
use ai_tts.Store.{Result, ok, raised, runtime_error}
use ai_tts.Playback.{
  Sink, Player, Watcher, absent, watching, watching_outro, start, stop, set_rate, or_text,
}
use ai_tts.Playback.Act.{Play, pure, raise, gets, modify, continue, ◌>>=◌, ◌>>◌}
use ai_tts.Playback.Device.{
  configure_cue, start_audio, begin, has_source, begin_segment, wait_for_saved, start_found,
  start_saved, retire, stop_sink, cancel, cancel_watcher, release_sink,
}
use ai_tts.Playback.Sound.{
  IsFree, IsSound, free-IsSound, unmarked-IsFree, Holds, gets-Free, modify-Free, play_rules,
}

-- The device is sound, and if the action has returned, a clip is the current one.
abbrev pub Taken : Result (Unit {0}) × Player → Type 0
Taken (ok x, q) = IsSound q × (is_none q.current_id ≡ false)
Taken (raised e, q) = IsSound q

pub record Takes (m : Play (Unit {0})) : Type 0 where
  pub at : (p : Player) → IsFree p → Taken (m p)

pub Taken-IsSound : (r : Result (Unit {0}) × Player) → Taken r → IsSound r.1
Taken-IsSound (ok x, q) h = h.0
Taken-IsSound (raised e, q) h = h

pub start_by_taking : (m : Play (Unit {0})) → Takes m → Holds IsFree IsSound m
start_by_taking m h = record { at = λ p v. Taken-IsSound (m p) (h.at p v) }

continue-Taken :
    {A : Type 0} (r : Result A × Player) (f : A → Play (Unit {0}))
    → IsFree r.1
    → ((a : A) → Takes (f a))
    → Taken (continue r f)
continue-Taken (ok a, q) f h k = (k a).at q h
continue-Taken (raised e, q) f h k = free-IsSound q h

pub bind-Takes :
    {A : Type 0} (m : Play A) (f : A → Play (Unit {0}))
    → Holds IsFree IsFree m
    → ((a : A) → Takes (f a))
    → Takes (m >>= f)
bind-Takes m f h k = record { at = λ p v. continue-Taken (m p) f (h.at p v) k }

pub if-Takes : (b : Bool) (m k : Play (Unit {0})) → Takes m → Takes k → Takes (if b then m else k)
if-Takes true m k hm hk = hm
if-Takes false m k hm hk = hk

continue-flag :
    (r : Result (Unit {0}) × Player) (g : Player → Player)
    → ((p : Player) → IsSound p → IsSound (g p))
    → ((p : Player) → (g p).current_id ≡ p.current_id)
    → Taken r
    → Taken (continue r (λ _. modify g))
continue-flag (ok x, q) g s c (h, e) = (s q h, ap is_none (c q) ∙ e)
continue-flag (raised x, q) g s c h = h

pub taking_then :
    (m : Play (Unit {0})) (g : Player → Player)
    → ((p : Player) → IsSound p → IsSound (g p))
    → ((p : Player) → (g p).current_id ≡ p.current_id)
    → Takes m
    → Takes (m >> modify g)
taking_then m g s c h = record { at = λ p v. continue-flag (m p) g s c (h.at p v) }

pub start_audio-IsSound :
    (path : String) (position : ℕ) (p : Player)
    → IsFree p
    → is_none p.current_id ≡ false
    → IsSound (start_audio path position p)
unfolding IsFree IsSound start_audio start
start_audio-IsSound path position p (quiet, clean, unmarked) e =
    (λ h. refl, rw quiet clean, λ h c. absurd (ground (arith, e, c)))

play_as-Takes :
    (id path : String) (position : ℕ)
    → Takes (modify (λ p. record p { current_id = some id }) >> modify (start_audio path position))
unfolding IsFree start_audio
play_as-Takes id path position = record {
  at = λ p v. (start_audio-IsSound path position (record p { current_id = some id }) v refl, refl);
}

configure_cue-Free : Holds IsFree IsFree (modify configure_cue)
unfolding configure_cue
configure_cue-Free = modify-Free configure_cue (λ p. refl) (λ p. refl) (λ p. refl)

pub begin-Takes : (id path : String) (position : ℕ) → Takes (begin id path position)
unfolding begin
begin-Takes id path position = search (bind-Takes, play_rules, configure_cue-Free, play_as-Takes)

-- Only a segment with something to play is started.
start_sourced-Takes :
    (id : String) (g : UtteranceSegment) (position : ℕ)
    → Takes (
        modify (λ p. record p { current_id = some id; current_segment_index = some g.index })
        >> (gets (has_source g) >>= λ sourced.
            if not sourced
            then raise runtime_error
            else modify (start_audio (or_text g.audio_path (artifact_id g)) position)))
unfolding IsFree start_audio
start_sourced-Takes id g position = record {
  at = λ p v.
      let q = record p { current_id = some id; current_segment_index = some g.index } in
      elim (Bool-cases (has_source g q)) [
        | inl sourced ↦
            rw sourced
              (start_audio-IsSound (or_text g.audio_path (artifact_id g)) position q v refl, refl)
        | inr silent ↦ rw silent (free-IsSound q v)
      ];
}

pub begin_segment-Takes :
    (u : Utterance) (g : UtteranceSegment) (position : ℕ) → Takes (begin_segment u g position)
unfolding begin_segment
begin_segment-Takes u g position =
    search (bind-Takes, play_rules, configure_cue-Free, start_sourced-Takes) depth 8

continue-current :
    {A : Type 0} (r : Result A × Player)
    → IsFree r.1
    → is_none r.1.current_id ≡ false
    → Taken (continue r (λ _. pure tt))
continue-current (ok a, q) h e = (free-IsSound q h, e)
continue-current (raised x, q) h e = free-IsSound q h

wait_for_saved-Takes : (u : Utterance) → Takes (wait_for_saved u)
unfolding IsFree wait_for_saved
wait_for_saved-Takes u = record {
  at = λ p v. elim (Bool-cases (state_is u.state paused)) [
    | inl held ↦ rw held (continue-current _ v refl)
    | inr fresh ↦ rw fresh (free-IsSound _ v, refl)
  ];
}

start_found-Takes : (u : Utterance) (g : Option UtteranceSegment) → Takes (start_found u g)
unfolding start_found
start_found-Takes u (some g) = search (if-Takes, begin_segment-Takes, wait_for_saved-Takes)
start_found-Takes u none =
    search (bind-Takes, gets-Free, if-Takes, begin-Takes, wait_for_saved-Takes)

pub start_saved-Takes : (u : Utterance) (index : Option ℕ) → Takes (start_saved u index)
unfolding start_saved
start_saved-Takes u index = search (bind-Takes, gets-Free, start_found-Takes)

-- What other tasks do while the device is being released: they keep it sound, they start no clip
-- while the device is marked active, and they leave a current clip where there is one.
pub record IsCalm (meanwhile : Player → Player) : Type 0 where
  pub sound_ok : (p : Player) → IsSound p → IsSound (meanwhile p)
  pub quiet_ok :
      (p : Player)
      → IsSound p
      → p.sink_active ≡ true
      → p.sink.active ≡ false
      → (meanwhile p).sink.active ≡ false
  pub taken_ok :
      (p : Player)
      → IsSound p
      → is_none p.current_id ≡ false
      → is_none (meanwhile p).current_id ≡ false

stop-quiet : (p : Player) → (stop p.sink).active ≡ false
unfolding stop
stop-quiet p = if_either (λ (k : Sink). k.active ≡ false) p.sink.active _ _ (λ h. refl) (λ h. h)

stop-overlaps : (p : Player) → (stop p.sink).overlaps ≡ p.sink.overlaps
unfolding stop
stop-overlaps p = elim (Bool-cases p.sink.active) [ inl a ↦ rw a refl | inr a ↦ rw a refl ]

stopped-IsSound : (p : Player) → IsSound p → IsSound (record p { sink = stop p.sink })
unfolding IsSound
stopped-IsSound p (marks, clean, outro) =
    (λ h. absurd (ground (arith, stop-quiet p)), stop-overlaps p ∙ clean, outro)

retire-IsFree : (p : Player) → IsSound p → p.sink.active ≡ false → IsFree (retire p)
unfolding IsFree IsSound retire set_rate
retire-IsFree p (marks, clean, outro) quiet = elim (Bool-cases (is_none p.current_id)) [
  | inl free ↦ rw free (quiet, clean, refl)
  | inr taken ↦ rw taken (quiet, clean, refl)
]

module _ (meanwhile : Player → Player) (calm : IsCalm meanwhile) where
  stop_sink-IsFree : (p : Player) → IsSound p → IsFree (stop_sink meanwhile p)
  unfolding stop_sink
  stop_sink-IsFree p v =
      let q = record p { sink = stop p.sink } in
      let w = stopped-IsSound p v in
      if_either IsFree p.sink_active _ _
        (λ active.
          retire-IsFree (meanwhile q) (calm.sound_ok q w) (calm.quiet_ok q w active (stop-quiet p)))
        (λ idle. unmarked-IsFree p v idle)

  cancel-IsSound : (w : Watcher) (p : Player) → IsSound p → IsSound (cancel w meanwhile p)
  unfolding IsSound
  cancel-IsSound absent p v = v
  cancel-IsSound watching p v = calm.sound_ok (record p { watcher = absent }) v
  cancel-IsSound watching_outro p v = calm.sound_ok (record p { watcher = absent }) v

  cancel_watcher-IsSound : (p : Player) → IsSound p → IsSound (cancel_watcher meanwhile p)
  unfolding cancel_watcher
  cancel_watcher-IsSound p v = cancel-IsSound p.watcher p v

  pub release_sink-IsFree : (p : Player) → IsSound p → IsFree (release_sink meanwhile p)
  unfolding release_sink
  release_sink-IsFree p v =
      stop_sink-IsFree (cancel_watcher meanwhile p) (cancel_watcher-IsSound p v)

  pub release_sink-Free : Holds IsSound IsFree (modify (release_sink meanwhile))
  release_sink-Free = record { at = release_sink-IsFree }

  stop_sink-taken :
      (p : Player)
      → IsSound p
      → is_none p.current_id ≡ false
      → is_none (stop_sink meanwhile p).current_id ≡ false
  unfolding stop_sink retire
  stop_sink-taken p v h =
      let q = record p { sink = stop p.sink } in
      if_either (λ (t : Player). is_none t.current_id ≡ false) p.sink_active _ _
        (λ active. calm.taken_ok q (stopped-IsSound p v) h) (λ idle. h)

  cancel-taken :
      (w : Watcher) (p : Player)
      → IsSound p
      → is_none p.current_id ≡ false
      → is_none (cancel w meanwhile p).current_id ≡ false
  unfolding IsSound
  cancel-taken absent p v h = h
  cancel-taken watching p v h = calm.taken_ok (record p { watcher = absent }) v h
  cancel-taken watching_outro p v h = calm.taken_ok (record p { watcher = absent }) v h

  pub release_sink-taken :
      (p : Player)
      → IsSound p
      → is_none p.current_id ≡ false
      → is_none (release_sink meanwhile p).current_id ≡ false
  unfolding release_sink cancel_watcher
  release_sink-taken p v h =
      stop_sink-taken (cancel_watcher meanwhile p) (cancel_watcher-IsSound p v)
        (cancel-taken p.watcher p v h)
