-- ===== src/Pcm/Spool/Fed.antt =====
-- What the ring of a stream of src/aitts/streaming.py holds, whatever the threads do.
use ai_tts.Common.{
  ℕ, ◌+◌, ◌-◌, ◌*◌, ◌/◌, ◌%◌, ◌≤◌, ◌<◌, ◌≡◌, ◌⊎◌, ap, subst, ◌∙◌, ◌||◌, List, ◌++◌, arith, length,
  length-append, ltb, ◌==◌, inl, inr, Bool-cases,
}
use ai_tts.Common.Arrays.{take, nth, nth-append, nth-take}
use ai_tts.Pcm.Ring.{Ring, accepted, write_frames}
use ai_tts.Pcm.Ring.Layout.{IsRing, contents, length-contents}
use ai_tts.Pcm.Ring.Write.{write_frames-contents, write_frames-IsRing, frames_after}
use ai_tts.Pcm.Spool.{
  Feeding, idle, claimed, fetched, stopped, Spool, take_in, append_frames, append,
}

-- The bytes stand in the spool from the byte at `start` on.
abbrev pub Stands : List ℕ → ℕ → List ℕ → Type 0
Stands pcm start spool =
    (start + length pcm ≤ length spool)
    × ((i : ℕ) → i < length pcm → nth pcm i ≡ nth spool (start + i))

-- The feeder has claimed something, and what it has read, it read from the file.
abbrev pub Carries : Feeding → List ℕ → Type 0
Carries idle spool = Unit
Carries (claimed offset epoch count) spool = 1 ≤ count
Carries (fetched offset epoch pcm) spool = Stands pcm (offset * 2) spool
Carries stopped spool = Unit

-- The ring holds the samples of the spool from the playhead up to those still to be fed.
pub record IsFed (r : Ring) (spool : List ℕ) (available fed position : ℕ) (f : Feeding)
    : Type 0 where
  pub ring_ok : IsRing r
  pub spool_ok : length spool ≡ available * 2
  pub fed_ok : fed ≡ position + r.frames
  pub bytes_ok : (i : ℕ) → i < r.frames * 2 → nth (contents r) i ≡ nth spool (position * 2 + i)
  pub held_ok : (r.frames ≡ 0) ⊎ (fed ≤ available)
  pub feeding_ok : Carries f spool

abbrev pub IsSpool : Spool → Type 0
IsSpool s = IsFed s.ring s.spool s.available s.fed s.position s.feeding

pub Stands-append :
    (pcm spool more : List ℕ) (start : ℕ)
    → Stands pcm start spool
    → Stands pcm start (spool ++ more)
Stands-append pcm spool more start (fits, same) = (
  omega (arith, length-append spool more),
  λ i h. ground (arith, same i h, nth-append spool more (start + i)),
)

Carries-append : (f : Feeding) (spool more : List ℕ) → Carries f spool → Carries f (spool ++ more)
Carries-append idle spool more h = tt
Carries-append (claimed o e n) spool more h = h
Carries-append (fetched o e pcm) spool more h = Stands-append pcm spool more (o * 2) h
Carries-append stopped spool more h = tt

-- Bytes that stand in the spool where the ring ends may be written to the ring.
module _ (pcm : List ℕ) (s : Spool) (v : IsSpool s) (stands : Stands pcm (s.fed * 2) s.spool) where
  more_frames : (write_frames pcm s.ring).frames ≡ s.ring.frames + accepted pcm s.ring
  more_frames = frames_after pcm s.ring v.ring_ok

  old_bytes :
      (i : ℕ)
      → i < s.ring.frames * 2
      → nth (contents (write_frames pcm s.ring)) i ≡ nth s.spool (s.position * 2 + i)
  old_bytes i h =
      ap (λ l. nth l i) (write_frames-contents pcm s.ring v.ring_ok)
      ∙ ground (
        arith,
        nth-append (contents s.ring) (take (accepted pcm s.ring * 2) pcm) i,
        length-contents s.ring,
        v.bytes_ok i h,
      )

  new_bytes :
      (k : ℕ)
      → k < accepted pcm s.ring * 2
      → nth (contents (write_frames pcm s.ring)) (s.ring.frames * 2 + k)
        ≡ nth s.spool (s.position * 2 + (s.ring.frames * 2 + k))
  new_bytes k h =
      let i = s.ring.frames * 2 + k in
      let back : i - s.ring.frames * 2 ≡ k = omega arith in
      let place : s.fed * 2 + k ≡ s.position * 2 + i = omega (arith, v.fed_ok) in
      ap (λ l. nth l i) (write_frames-contents pcm s.ring v.ring_ok)
      ∙ ground (
        arith,
        nth-append (contents s.ring) (take (accepted pcm s.ring * 2) pcm) i,
        length-contents s.ring,
        nth-take (accepted pcm s.ring * 2) pcm k,
      )
      ∙ stands.1 k (omega arith)
      ∙ ap (nth s.spool) place

  pub take_in-IsSpool : IsSpool (take_in pcm s)
  unfolding take_in
  take_in-IsSpool = record {
    ring_ok = write_frames-IsRing pcm s.ring v.ring_ok;
    spool_ok = v.spool_ok;
    fed_ok = omega (arith, more_frames, v.fed_ok);
    bytes_ok = λ i h. elim (Bool-cases (ltb i (s.ring.frames * 2))) [
      | inl old ↦ old_bytes i (ground arith)
      | inr fresh ↦
          let low : s.ring.frames * 2 ≤ i = ground arith in
          let e : s.ring.frames * 2 + (i - s.ring.frames * 2) ≡ i = omega arith in
          subst (λ k. nth (contents (write_frames pcm s.ring)) k ≡ nth s.spool (s.position * 2 + k))
            e (new_bytes (i - s.ring.frames * 2) (omega (arith, more_frames)))
    ];
    held_ok = inr (omega (arith, stands.0, v.spool_ok));
    feeding_ok = v.feeding_ok;
  }

append-longer :
    (pcm : List ℕ) (s : Spool)
    → IsSpool s
    → length pcm % 2 ≡ 0
    → IsFed s.ring (s.spool ++ pcm) (s.available + length pcm / 2) s.fed s.position s.feeding
append-longer pcm s v whole = record {
  ring_ok = v.ring_ok;
  spool_ok = omega (arith, length-append s.spool pcm, v.spool_ok);
  fed_ok = v.fed_ok;
  bytes_ok = λ i h. ground (
    arith,
    v.bytes_ok i h,
    nth-append s.spool pcm (s.position * 2 + i),
    v.held_ok,
    v.fed_ok,
    v.spool_ok,
  );
  held_ok = elim v.held_ok [ inl bare ↦ inl bare | inr fits ↦ inr (omega arith) ];
  feeding_ok = Carries-append s.feeding s.spool pcm v.feeding_ok;
}

-- An appended chunk stands at the end of the spool.
appended-Stands :
    (pcm spool : List ℕ) (start : ℕ) → start ≡ length spool → Stands pcm start (spool ++ pcm)
appended-Stands pcm spool start e = (
  omega (arith, length-append spool pcm),
  λ i h. ground (arith, nth-append spool pcm (start + i)),
)

append_frames-IsSpool :
    (pcm : List ℕ) (s : Spool) → IsSpool s → length pcm % 2 ≡ 0 → IsSpool (append_frames pcm s)
unfolding append_frames
append_frames-IsSpool pcm s v whole =
    let longer = append-longer pcm s v whole in
    elim (Bool-cases (s.fed == s.available)) [
      | inl live ↦
          let e : s.fed * 2 ≡ length s.spool = ground (arith, v.spool_ok) in
          rw live (
            take_in-IsSpool pcm
              (record s { spool = s.spool ++ pcm; available = s.available + length pcm / 2 }) longer
              (appended-Stands pcm s.spool (s.fed * 2) e))
      | inr behind ↦ rw behind longer
    ]

pub append-IsSpool : (pcm : List ℕ) (s : Spool) → IsSpool s → IsSpool (append pcm s).1
unfolding append
append-IsSpool pcm s v = elim (Bool-cases (length pcm % 2 == 0)) [
  | inl whole ↦ elim (Bool-cases (s.sealed || s.closed)) [
    | inl shut ↦ rw (whole, shut) v
    | inr free ↦ rw (whole, free) (append_frames-IsSpool pcm s v (ground arith))
  ]
  | inr torn ↦ rw torn v
]
