-- ===== src/Pcm/Spool/Progress.antt =====
-- The feeder of src/aitts/streaming.py makes progress.
use ai_tts.Common.{
  ℕ, ◌+◌, ◌-◌, ◌*◌, ◌≤◌, ◌≡◌, ◌⊎◌, refl, ap, ◌∙◌, min, Bool, true, false, ◌&&◌, List, arith, length,
  ltb, leb, ◌==◌, inl, inr, Bool-cases,
}
use ai_tts.Common.Arrays.{slice, length-slice}
use ai_tts.Pcm.Ring.Write.{frames_after}
use ai_tts.Pcm.Spool.{idle, claimed, fetched, Spool, take_in, claim, fetch, put, feed, feed_from}
use ai_tts.Pcm.Spool.Fed.{IsSpool}

module _ (s : Spool) (v : IsSpool s) (waits : s.feeding ≡ idle) (live : s.closed ≡ false) where
  feed-claim : feed s ≡ claim s
  unfolding feed
  feed-claim = ap (λ f. feed_from f s) waits

  abbrev due : Bool
  due = ltb s.fed s.available && ltb s.ring.frames s.ring.capacity_frames

  feed-rests : due ≡ false → feed s ≡ s
  unfolding claim
  feed-rests d = feed-claim ∙ simp (live, d) refl

  abbrev wanted : ℕ
  wanted = min (s.available - s.fed) (s.ring.capacity_frames - s.ring.frames)

  abbrev chunk : List ℕ
  chunk = slice (s.fed * 2) (s.fed * 2 + wanted * 2) s.spool

  feed-claims : due ≡ true → feed s ≡ record s { feeding = claimed s.fed s.epoch wanted }
  unfolding claim
  feed-claims d = feed-claim ∙ simp (live, d) refl

  length-chunk : due ≡ true → length chunk ≡ wanted * 2
  length-chunk d =
      omega (arith, length-slice (s.fed * 2) (s.fed * 2 + wanted * 2) s.spool, v.spool_ok)

  feed-fetches :
      due ≡ true
      → feed (record s { feeding = claimed s.fed s.epoch wanted })
        ≡ record s { feeding = fetched s.fed s.epoch chunk }
  unfolding feed fetch
  feed-fetches d =
      let full : (length chunk == wanted * 2) ≡ true = ground (arith, length-chunk d) in
      simp full refl

  feed-puts :
      feed (record s { feeding = fetched s.fed s.epoch chunk })
      ≡ take_in chunk (record s { feeding = idle })
  unfolding feed put
  feed-puts =
      let here : (s.epoch == s.epoch && s.fed == s.fed) ≡ true = ground arith in simp here refl

  filled :
      due ≡ true
      → ((take_in chunk (record s { feeding = idle })).ring.frames ≡ s.ring.capacity_frames)
        ⊎ ((take_in chunk (record s { feeding = idle })).fed ≡ s.available)
  unfolding take_in
  filled d =
      let more = frames_after chunk s.ring v.ring_ok in
      let n = length-chunk d in
      elim (Bool-cases (leb (s.available - s.fed) (s.ring.capacity_frames - s.ring.frames))) [
        | inl few ↦ inr (ground (arith, n, more))
        | inr many ↦ inl (ground (arith, n, more, v.ring_ok.frames_ok))
      ]

  feed_thrice : due ≡ true → feed (feed (feed s)) ≡ take_in chunk (record s { feeding = idle })
  feed_thrice d = ap (λ t. feed (feed t)) (feed-claims d) ∙ ap feed (feed-fetches d) ∙ feed-puts

  -- Undisturbed, the feeder of an open stream goes from its wait through its two blocks to a ring
  -- that is full or that has all of the file, if what was fed is in the file.
  pub feed-fills :
      s.fed ≤ s.available
      → (let t = feed (feed (feed s)) in
          (t.ring.frames ≡ s.ring.capacity_frames) ⊎ (t.fed ≡ s.available))
  feed-fills h = elim (Bool-cases due) [
    | inl d ↦ rw (feed_thrice d) (filled d)
    | inr d ↦
        let still = feed-rests d in
        rw (ap (λ t. feed (feed t)) still ∙ ap feed still ∙ still)
          (elim (Bool-cases (ltb s.fed s.available)) [
            | inl behind ↦ inl (ground (arith, v.ring_ok.frames_ok))
            | inr up ↦ inr (ground arith)
          ])
  ]
