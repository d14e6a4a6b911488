-- ===== src/Pcm/Spool/Kept.antt =====
-- Every move on a stream of src/aitts/streaming.py keeps what its ring holds true to the file.
use ai_tts.Common.{
  ℕ, ◌+◌, ◌-◌, ◌*◌, ◌≤◌, ◌≡◌, refl, ap, ◌∙◌, min, true, ◌&&◌, List, arith, length, ltb, ◌==◌, inl,
  inr, Bool-cases,
}
use ai_tts.Common.Arrays.{slice, nth, length-slice, nth-drop, nth-slice}
use ai_tts.Pcm.Ring.{clear}
use ai_tts.Pcm.Ring.Layout.{contents}
use ai_tts.Pcm.Ring.Read.{read-IsRing, read-left, frames_left, length-read}
use ai_tts.Pcm.Spool.{
  Feeding, idle, claimed, fetched, stopped, Spool, seal, finish, read, seek, retain, close, release,
  claim, fetch, put, feed, Move, after, feed_from, appends, seals, finishes, reads, seeks, retains,
  releases, closes, feeds,
}
use ai_tts.Common.Int.{pos, ◌-ℤ◌, eq_ℤ}
use ai_tts.Pcm.Spool.Fed.{Stands, Carries, IsSpool, take_in-IsSpool, append-IsSpool}

pub read-IsSpool : (n : ℕ) (s : Spool) → IsSpool s → IsSpool (read n s).1
unfolding read
read-IsSpool n s v =
    let left = frames_left n s.ring v.ring_ok in
    let heard = length-read n s.ring v.ring_ok in
    record {
      ring_ok = read-IsRing n s.ring v.ring_ok;
      spool_ok = v.spool_ok;
      fed_ok = omega (arith, left, heard, v.fed_ok);
      bytes_ok = λ i h.
          ap (λ l. nth l i) (read-left n s.ring v.ring_ok)
          ∙ nth-drop (min n s.ring.frames * 2) (contents s.ring) i
          ∙ v.bytes_ok (min n s.ring.frames * 2 + i) (omega (arith, left))
          ∙ ap (nth s.spool) (omega (arith, heard));
      held_ok = elim v.held_ok [ inl bare ↦ inl (omega (arith, left)) | inr fits ↦ inr fits ];
      feeding_ok = v.feeding_ok;
    }

seek-IsSpool : (p : ℕ) (s : Spool) → IsSpool s → IsSpool (seek p s)
unfolding seek clear
seek-IsSpool p s v = elim (Bool-cases (p == s.position)) [
  | inl there ↦ rw there v
  | inr moved ↦ rw moved (record {
    ring_ok = record {
      size_ok = v.ring_ok.size_ok;
      head_ok = omega (arith, v.ring_ok.head_ok);
      frames_ok = omega arith;
    };
    spool_ok = v.spool_ok;
    fed_ok = omega arith;
    bytes_ok = λ i h. absurd (omega arith);
    held_ok = inl refl;
    feeding_ok = v.feeding_ok;
  })
]

close-IsSpool : (s : Spool) → IsSpool s → IsSpool (close s)
unfolding close seal
close-IsSpool s v = elim (Bool-cases s.closed) [ inl c ↦ rw c v | inr c ↦ rw c v ]

release-IsSpool : (s : Spool) → IsSpool s → IsSpool (release s)
unfolding release
release-IsSpool s v =
    let fewer = record s { owners = s.owners -ℤ pos 1 } in
    elim (Bool-cases (eq_ℤ fewer.owners (pos 0))) [
      | inl last ↦ rw last (close-IsSpool fewer v)
      | inr others ↦ rw others v
    ]

retain-IsSpool : (s : Spool) → IsSpool s → IsSpool (retain s).1
unfolding retain
retain-IsSpool s v = elim (Bool-cases s.closed) [ inl c ↦ rw c v | inr c ↦ rw c v ]

-- The feeder may go on from any point with what it has read.
at_feeding :
    (f : Feeding) (s : Spool) → IsSpool s → Carries f s.spool → IsSpool (record s { feeding = f })
at_feeding f s v c = record {
  ring_ok = v.ring_ok;
  spool_ok = v.spool_ok;
  fed_ok = v.fed_ok;
  bytes_ok = v.bytes_ok;
  held_ok = v.held_ok;
  feeding_ok = c;
}

claim-IsSpool : (s : Spool) → IsSpool s → IsSpool (claim s)
unfolding claim
claim-IsSpool s v = elim (Bool-cases s.closed) [
  | inl shut ↦ rw shut (at_feeding stopped s v tt)
  | inr live ↦
      elim (Bool-cases (ltb s.fed s.available && ltb s.ring.frames s.ring.capacity_frames)) [
        | inl due ↦
            rw (live, due)
              (at_feeding
                (claimed s.fed s.epoch
                  (min (s.available - s.fed) (s.ring.capacity_frames - s.ring.frames)))
                s v (ground arith))
        | inr waits ↦ rw (live, waits) v
      ]
]

sliced-Stands :
    (o n : ℕ) (spool : List ℕ)
    → 1 ≤ n
    → (length (slice (o * 2) (o * 2 + n * 2) spool) == n * 2) ≡ true
    → Stands (slice (o * 2) (o * 2 + n * 2) spool) (o * 2) spool
sliced-Stands o n spool h e =
    let l = length-slice (o * 2) (o * 2 + n * 2) spool in
    (ground (arith, l), λ i b. nth-slice (o * 2) (o * 2 + n * 2) spool i (omega (arith, l)))

fetch-IsSpool : (o e n : ℕ) (s : Spool) → IsSpool s → 1 ≤ n → IsSpool (fetch o e n s)
unfolding fetch finish
fetch-IsSpool o e n s v h =
    elim (Bool-cases (length (slice (o * 2) (o * 2 + n * 2) s.spool) == n * 2)) [
      | inl full ↦ rw full (
          at_feeding (fetched o e (slice (o * 2) (o * 2 + n * 2) s.spool)) s v
            (sliced-Stands o n s.spool h full))
      | inr short ↦ rw short (at_feeding stopped s v tt)
    ]

put-IsSpool :
    (o e : ℕ) (pcm : List ℕ) (s : Spool)
    → IsSpool s
    → Stands pcm (o * 2) s.spool
    → IsSpool (put o e pcm s)
unfolding put
put-IsSpool o e pcm s v c =
    let waiting = record s { feeding = idle } in
    let w = at_feeding idle s v tt in
    elim (Bool-cases (e == s.epoch && o == s.fed)) [
      | inl current ↦
          let here : o ≡ s.fed = ground arith in
          rw current (take_in-IsSpool pcm waiting w (rw here at c))
      | inr stale ↦ rw stale w
    ]

feed_from-IsSpool :
    (f : Feeding) (s : Spool) → IsSpool s → Carries f s.spool → IsSpool (feed_from f s)
feed_from-IsSpool idle s v c = claim-IsSpool s v
feed_from-IsSpool (claimed o e n) s v c = fetch-IsSpool o e n s v c
feed_from-IsSpool (fetched o e pcm) s v c = put-IsSpool o e pcm s v c
feed_from-IsSpool stopped s v c = v

-- Whatever the engine, the player, the owners and the feeder do next, the ring holds just the
-- samples of the file from the playhead on, if it did before.
pub after-IsSpool : (m : Move) (s : Spool) → IsSpool s → IsSpool (after m s)
unfolding after seal finish feed
after-IsSpool (appends pcm) s v = append-IsSpool pcm s v
after-IsSpool seals s v = v
after-IsSpool (finishes e) s v = v
after-IsSpool (reads n) s v = read-IsSpool n s v
after-IsSpool (seeks p) s v = seek-IsSpool p s v
after-IsSpool retains s v = retain-IsSpool s v
after-IsSpool releases s v = release-IsSpool s v
after-IsSpool closes s v = close-IsSpool s v
after-IsSpool feeds s v = feed_from-IsSpool s.feeding s v v.feeding_ok
