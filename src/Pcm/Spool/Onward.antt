-- ===== src/Pcm/Spool/Onward.antt =====
-- What one move on a stream of src/aitts/streaming.py adds to what the player has heard.
use ai_tts.Common.{
  ℕ, ◌+◌, ◌*◌, ◌/◌, ◌%◌, ◌≤◌, ◌<◌, ◌≡◌, refl, ap, ◌∙◌, min, ◌||◌, List, [], ◌++◌, arith, length,
  length-append, ◌==◌, inl, inr, Bool-cases,
}
use ai_tts.Common.Arrays.{nth, nth-take}
use ai_tts.Pcm.Ring
use ai_tts.Pcm.Ring.{Ring, accepted, write_frames, clear, new_ring}
use ai_tts.Pcm.Ring.Layout.{contents}
use ai_tts.Pcm.Ring.Read.{read-taken, length-read}
use ai_tts.Pcm.Spool.{
  Feeding, idle, claimed, fetched, stopped, Spool, take_in, append_frames, append, seal, finish,
  read, retain, close, release, claim, fetch, put, feed_from,
}
use ai_tts.Common.Int.{pos, ◌-ℤ◌, eq_ℤ}
use ai_tts.Pcm.Spool.Fed.{Stands, Stands-append, IsSpool}

append_frames-spool : (pcm : List ℕ) (s : Spool) → (append_frames pcm s).spool ≡ s.spool ++ pcm
unfolding append_frames take_in
append_frames-spool pcm s = elim (Bool-cases (s.fed == s.available)) [
  | inl live ↦ rw live
  | inr behind ↦ rw behind
]

append_frames-available :
    (pcm : List ℕ) (s : Spool)
    → ((append_frames pcm s).available ≡ s.available + length pcm / 2)
      × ((append_frames pcm s).position ≡ s.position)
unfolding append_frames take_in
append_frames-available pcm s = elim (Bool-cases (s.fed == s.available)) [
  | inl live ↦ rw live (refl, refl)
  | inr behind ↦ rw behind (refl, refl)
]

-- What a move that is neither an append, a read nor a seek leaves alone.
pub record Same (s t : Spool) : Type 0 where
  pub spool_same : t.spool ≡ s.spool
  pub available_same : t.available ≡ s.available
  pub position_same : t.position ≡ s.position

pub alike :
    (s t : Spool)
    → t.spool ≡ s.spool
    → t.available ≡ s.available
    → t.position ≡ s.position
    → Same s t
alike s t a b c = record { spool_same = a; available_same = b; position_same = c }

pub close-Same : (s : Spool) → Same s (close s)
unfolding close seal
close-Same s = alike s (close s) (ground arith) (ground arith) (ground arith)

pub release-Same : (s : Spool) → Same s (release s)
unfolding release
release-Same s =
    let fewer = record s { owners = s.owners -ℤ pos 1 } in
    elim (Bool-cases (eq_ℤ fewer.owners (pos 0))) [
      | inl last ↦
          let c = close-Same fewer in
          rw last (alike s _ c.spool_same c.available_same c.position_same)
      | inr others ↦ rw others (alike s _ refl refl refl)
    ]

pub retain-Same : (s : Spool) → Same s (retain s).1
unfolding retain
retain-Same s = alike s (retain s).1 (ground arith) (ground arith) (ground arith)

pub feed_from-Same : (f : Feeding) (s : Spool) → Same s (feed_from f s)
unfolding claim fetch put finish take_in
feed_from-Same idle s = alike s _ (ground arith) (ground arith) (ground arith)
feed_from-Same (claimed o e n) s = alike s _ (ground arith) (ground arith) (ground arith)
feed_from-Same (fetched o e pcm) s = alike s _ (ground arith) (ground arith) (ground arith)
feed_from-Same stopped s = alike s s refl refl refl

-- From `s` to `t` the player has heard `xs`, which is what the file holds from the playhead on.
pub record Onward (s t : Spool) (xs : List ℕ) : Type 0 where
  pub longer : (ys : List ℕ) (a : ℕ) → Stands ys a s.spool → Stands ys a t.spool
  pub heard_ok : Stands xs (s.position * 2) t.spool
  pub moved_ok : t.position * 2 ≡ s.position * 2 + length xs
  pub range_ok : t.position ≤ t.available

silent : (spool : List ℕ) (a : ℕ) → a ≤ length spool → Stands [] a spool
silent spool a h = (omega arith, λ i l. absurd (omega arith))

pub Same-Onward : (s t : Spool) → IsSpool s → s.position ≤ s.available → Same s t → Onward s t []
Same-Onward s t v h same =
    let e = same.spool_same in
    let p = same.position_same in
    let a = same.available_same in
    record {
      longer = λ ys start st. rw e st;
      heard_ok = rw e (silent s.spool (s.position * 2) (omega (arith, v.spool_ok)));
      moved_ok = omega (arith, p);
      range_ok = omega (arith, p, a);
    }

append_frames-Onward :
    (pcm : List ℕ) (s : Spool)
    → IsSpool s
    → s.position ≤ s.available
    → Onward s (append_frames pcm s) []
append_frames-Onward pcm s v h =
    let e = append_frames-spool pcm s in
    let (a, p) = append_frames-available pcm s in
    record {
      longer = λ ys start st. rw e (Stands-append ys s.spool pcm start st);
      heard_ok = rw e (
          silent (s.spool ++ pcm) (s.position * 2)
            (omega (arith, v.spool_ok, length-append s.spool pcm)));
      moved_ok = omega (arith, p);
      range_ok = omega (arith, p, a);
    }

pub append-Onward :
    (pcm : List ℕ) (s : Spool) → IsSpool s → s.position ≤ s.available → Onward s (append pcm s).1 []
unfolding append
append-Onward pcm s v h =
    let still = Same-Onward s s v h (alike s s refl refl refl) in
    elim (Bool-cases (length pcm % 2 == 0)) [
      | inl whole ↦ elim (Bool-cases (s.sealed || s.closed)) [
        | inl shut ↦ rw (whole, shut) still
        | inr free ↦ rw (whole, free) (append_frames-Onward pcm s v h)
      ]
      | inr torn ↦ rw torn still
    ]

pub read-Onward :
    (n : ℕ) (s : Spool)
    → IsSpool s
    → s.position ≤ s.available
    → Onward s (read n s).1 (read n s).0.pcm
unfolding read
read-Onward n s v h =
    let k = min n s.ring.frames * 2 in
    let len = length-read n s.ring v.ring_ok in
    record {
      longer = λ ys start st. st;
      heard_ok = (
        read-fits n s v h,
        λ i b.
            let low : i < k = omega (arith, len) in
            ap (λ l. nth l i) (read-taken n s.ring v.ring_ok)
            ∙ ground (arith, nth-take k (contents s.ring) i, v.bytes_ok i (omega arith)),
      );
      moved_ok = omega (arith, len);
      range_ok = omega (arith, len, read-fits n s v h, v.spool_ok);
    }
  where
    read-fits :
        (n : ℕ) (s : Spool)
        → IsSpool s
        → s.position ≤ s.available
        → s.position * 2 + length (Ring.read n s.ring).0 ≤ length s.spool
    read-fits n s v h = elim v.held_ok [
      | inl bare ↦ omega (arith, length-read n s.ring v.ring_ok, v.spool_ok)
      | inr fits ↦ omega (arith, length-read n s.ring v.ring_ok, v.spool_ok, v.fed_ok)
    ]
