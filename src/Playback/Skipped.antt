-- ===== src/Playback/Skipped.antt =====
-- What a skip leaves in src/aitts/playback.py.
use ai_tts.Common.{
  ℕ, ◌≡◌, refl, ◌∙◌, ap, true, false, none, some, [], ◌∷◌, if◌then◌else◌, if_either,
}
use ai_tts.Model.{Utterance, playing, paused, skipped, state_in}
use ai_tts.Store.{Store, Result, ok}
use ai_tts.Store.Reads.{get}
use ai_tts.Store.Registry.{set_setting}
use ai_tts.Store.Replay.{skip_utterance}
use ai_tts.Store.Skipped.{skip_utterance-effect}
use ai_tts.Playback.{
  Player, Watcher, absent, watching, watching_outro, current, current_heard_ms, or_zero,
}
use ai_tts.Playback.Act.{modify, continue, ◌>>◌}
use ai_tts.Playback.Device.{cancel, cancel_watcher, retire, stop_sink, release_sink, clear_current}
use ai_tts.Playback.Control.{notify, clear_interruption}
use ai_tts.Playback.Transport.{skip_clip, skip_found, skip}
use ai_tts.Playback.Sound.{IsFree, IsSound}
use ai_tts.Playback.Sound.Device.{IsCalm, release_sink-IsFree}
use ai_tts.Playback.Sound.Control.{clear_interruption-Sound}

module _ (meanwhile : Player → Player) (kept : (q : Player) → (meanwhile q).store ≡ q.store) where
  cancel-store : (w : Watcher) (p : Player) → (cancel w meanwhile p).store ≡ p.store
  cancel-store absent p = refl
  cancel-store watching p = kept (record p { watcher = absent })
  cancel-store watching_outro p = kept (record p { watcher = absent })

  stop_sink-store : (p : Player) → (stop_sink meanwhile p).store ≡ p.store
  unfolding stop_sink retire
  stop_sink-store p =
      if_either (λ (q : Player). q.store ≡ p.store) p.sink_active _ _ (λ h. kept _) (λ h. refl)

  release_sink-store : (p : Player) → (release_sink meanwhile p).store ≡ p.store
  unfolding release_sink cancel_watcher
  release_sink-store p = stop_sink-store (cancel_watcher meanwhile p) ∙ cancel-store p.watcher p

  module _ (calm : IsCalm meanwhile) (p : Player) (u : Utterance) (sound : IsSound p)
      (chosen : p.current_id ≡ some u.id) (found : get u.id p.store ≡ some u)
      (heard : state_in u.state (playing ∷ paused ∷ []) ≡ true) where
    -- The state once the interruption is cleared, and once the device is free.
    abbrev cleared : Player
    cleared = (clear_interruption p).1

    abbrev released : Player
    released = release_sink meanwhile cleared

    abbrev position : ℕ
    position = if cleared.sink_active then cleared.sink.position else or_zero u.played_ms

    abbrev after_skip : Result Utterance × Store
    after_skip =
        skip_utterance u.id cleared.current_segment_index position
          (some (or_zero (current_heard_ms cleared))) released.store

    skip-clip : skip meanwhile p ≡ (skip_clip meanwhile u >> modify notify) cleared
    unfolding skip skip_found clear_interruption set_setting current get
    skip-clip = simp (chosen, found, heard) refl

    clip-skipped :
        (v : Utterance)
        → after_skip.0 ≡ ok v
        → (skip_clip meanwhile u >> modify notify) cleared
          ≡ (ok tt, notify (clear_current (record released { store = after_skip.1 })))
    unfolding skip_clip
    clip-skipped v e =
        ap
          (λ x.
            continue
              (continue (x, record released { store = after_skip.1 }) (λ t. modify clear_current))
              (λ t. modify notify))
          e

    cleared-get : get u.id cleared.store ≡ some u
    unfolding clear_interruption set_setting get
    cleared-get = found

    free : IsFree released
    free = release_sink-IsFree meanwhile calm cleared (clear_interruption-Sound.at p sound)

    -- A skip of the current clip, playing or paused, frees the device, leaves no current clip and stores
    -- the clip as skipped, if the tasks that run while the device is being released write nothing to the
    -- store and are as calm as for the other steps, and the state is sound before.
    pub skip-skipped :
        let q = (skip meanwhile p).1 in
        (v : Utterance) × (get u.id q.store ≡ some v)
        × (v.state ≡ skipped)
        × (q.current_id ≡ none)
        × (q.sink.active ≡ false)
        × (q.sink_active ≡ false)
    unfolding notify clear_current IsFree
    skip-skipped =
        let (v, e, stored, st) =
          skip_utterance-effect u.id cleared.current_segment_index position
            (some (or_zero (current_heard_ms cleared))) released.store u
            (ap (get u.id) (release_sink-store cleared) ∙ cleared-get) heard in
        let done_so = ap (λ r. r.1) (skip-clip ∙ clip-skipped v e) in
        (
          v,
          ap (λ (q : Player). get u.id q.store) done_so ∙ stored,
          st,
          ap (λ (q : Player). q.current_id) done_so,
          ap (λ (q : Player). q.sink.active) done_so ∙ free.0,
          ap (λ (q : Player). q.sink_active) done_so ∙ free.2,
        )
