-- ===== src/Pcm/Spool/Heard.antt =====
-- What the player of a stream of src/aitts/streaming.py hears, in every interleaving.
use ai_tts.Common.{
  ℕ, ◌+◌, ◌-◌, ◌*◌, ◌≤◌, ◌≡◌, refl, sym, ap, subst, ◌∙◌, Bool, true, false, not, ◌&&◌, ◌||◌, List,
  [], ◌∷◌, ◌++◌, arith, length, length-append, ltb, inl, inr, Bool-cases,
}
use ai_tts.Common.Arrays.{
  replicate, length-replicate, take, nth, length-take, nth-append, nth-take, list_ext,
}
use ai_tts.Store.{ok}
use ai_tts.Pcm.Ring.{Ring, new_ring}
use ai_tts.Pcm.Spool.{
  Spool, seal, finish, read, feed, Move, after, appends, seals, finishes, reads, seeks, retains,
  releases, closes, feeds, run, new_spool, opened,
}
use ai_tts.Pcm.Spool.Fed.{Stands, IsSpool}
use ai_tts.Pcm.Spool.Kept.{after-IsSpool}
use ai_tts.Pcm.Spool.Onward.{
  Onward, alike, close-Same, release-Same, retain-Same, feed_from-Same, Same-Onward, append-Onward,
  read-Onward,
}

-- The samples of all reads, one after the other.
abbrev pub heard : List Move → Spool → List ℕ
heard [] s = []
heard (reads n ∷ ms) s = (read n s).0.pcm ++ heard ms (after (reads n) s)
heard (m ∷ ms) s = heard ms (after m s)

abbrev pub is_seek : Move → Bool
is_seek (seeks p) = true
is_seek _ = false

abbrev pub seekless : List Move → Bool
seekless [] = true
seekless (m ∷ ms) = not (is_seek m) && seekless ms

Onward-trans :
    (s t u : Spool) (xs ys : List ℕ) → Onward s t xs → Onward t u ys → Onward s u (xs ++ ys)
Onward-trans s t u xs ys p q =
    let first = q.longer xs (s.position * 2) p.heard_ok in
    let joined = length-append xs ys in
    record {
      longer = λ zs a st. q.longer zs a (p.longer zs a st);
      heard_ok = (
        omega (arith, joined, p.moved_ok, q.heard_ok.0),
        λ i h. elim (Bool-cases (ltb i (length xs))) [
          | inl old ↦ ground (arith, nth-append xs ys i, first.1 i (ground arith))
          | inr fresh ↦
              let low : length xs ≤ i = ground arith in
              let place : t.position * 2 + (i - length xs) ≡ s.position * 2 + i =
                omega (arith, p.moved_ok) in
              ground (arith, nth-append xs ys i)
              ∙ q.heard_ok.1 (i - length xs) (omega (arith, joined))
              ∙ ap (nth u.spool) place
        ],
      );
      moved_ok = omega (arith, joined, p.moved_ok, q.moved_ok);
      range_ok = q.range_ok;
    }

-- The samples that one move hears.
abbrev heard_by : Move → Spool → List ℕ
heard_by (reads n) s = (read n s).0.pcm
heard_by _ s = []

after-Onward :
    (m : Move) (s : Spool)
    → is_seek m ≡ false
    → IsSpool s
    → s.position ≤ s.available
    → Onward s (after m s) (heard_by m s)
unfolding after seal finish feed
after-Onward (appends pcm) s e v h = append-Onward pcm s v h
after-Onward seals s e v h = Same-Onward s _ v h (alike s _ refl refl refl)
after-Onward (finishes x) s e v h = Same-Onward s _ v h (alike s _ refl refl refl)
after-Onward (reads n) s e v h = read-Onward n s v h
after-Onward (seeks p) s e v h = cc
after-Onward retains s e v h = Same-Onward s _ v h (retain-Same s)
after-Onward releases s e v h = Same-Onward s _ v h (release-Same s)
after-Onward closes s e v h = Same-Onward s _ v h (close-Same s)
after-Onward feeds s e v h = Same-Onward s _ v h (feed_from-Same s.feeding s)

heard-cons :
    (m : Move) (ms : List Move) (s : Spool)
    → heard (m ∷ ms) s ≡ heard_by m s ++ heard ms (after m s)
heard-cons (appends pcm) ms s = refl
heard-cons seals ms s = refl
heard-cons (finishes e) ms s = refl
heard-cons (reads n) ms s = refl
heard-cons (seeks p) ms s = refl
heard-cons retains ms s = refl
heard-cons releases ms s = refl
heard-cons closes ms s = refl
heard-cons feeds ms s = refl

run-Onward :
    (ms : List Move) (s : Spool)
    → seekless ms ≡ true
    → IsSpool s
    → s.position ≤ s.available
    → Onward s (run ms s) (heard ms s) × IsSpool (run ms s)
unfolding run
run-Onward [] s e v h = (Same-Onward s s v h (alike s s refl refl refl), v)
run-Onward (m ∷ ms) s e v h =
    let one = after-Onward m s (ground arith) v h in
    let (all_moves, w) =
      run-Onward ms (after m s) (ground arith) (after-IsSpool m s v) one.range_ok in
    (
      rw (heard-cons m ms s) (
          Onward-trans s (after m s) (run ms (after m s)) (heard_by m s) (heard ms (after m s)) one
            all_moves),
      w,
    )

Stands-whole : (xs spool : List ℕ) → Stands xs 0 spool → xs ≡ take (length xs) spool
Stands-whole xs spool (fits, same) =
    list_ext xs (take (length xs) spool) (omega (arith, length-take (length xs) spool))
      (λ i h. ground (arith, same i h, nth-take (length xs) spool i))

pub new_spool-IsSpool :
    (capacity : ℕ) (s : Spool) → new_spool capacity ≡ ok s → IsSpool s × (s.position ≡ 0)
unfolding new_spool new_ring
new_spool-IsSpool capacity s e = elim (Bool-cases (ltb capacity 1)) [
  | inl empty ↦ absurd (ground (arith, rw empty at e))
  | inr room ↦
      let same : opened (fresh capacity) [] false ≡ s = ground (arith, rw room at e) in
      subst (λ t. IsSpool t × (t.position ≡ 0)) same
        (
          record {
            ring_ok = record {
              size_ok = length-replicate (capacity * 2) 0;
              head_ok = ground (arith, length-replicate (capacity * 2) 0);
              frames_ok = omega arith;
            };
            spool_ok = omega arith;
            fed_ok = omega arith;
            bytes_ok = λ i h. absurd (omega arith);
            held_ok = inl refl;
            feeding_ok = tt;
          },
          refl,
        )
]
  where
    fresh : ℕ → Ring
    fresh capacity = record {
      bytes = replicate (capacity * 2) 0;
      head = 0;
      frames = 0;
      capacity_frames = capacity;
    }

read-spool : (n : ℕ) (s : Spool) → (read n s).1.spool ≡ s.spool
unfolding read
read-spool n s = refl

read-available : (n : ℕ) (s : Spool) → (read n s).1.available ≡ s.available
unfolding read
read-available n s = refl

read-drained :
    (n : ℕ) (s : Spool)
    → ((read n s).0.ended || (read n s).0.complete) ≡ true
    → s.available ≤ (read n s).1.position
unfolding read
read-drained n s h = ground arith

module _ (capacity : ℕ) (ms : List Move) (s : Spool) (created : new_spool capacity ≡ ok s)
    (stays : seekless ms ≡ true) where
  onward : Onward s (run ms s) (heard ms s) × IsSpool (run ms s)
  onward =
      let (v, start) = new_spool-IsSpool capacity s created in
      run-Onward ms s stays v (omega (arith, start))

  length-heard : (run ms s).position * 2 ≡ length (heard ms s)
  length-heard = omega (arith, onward.0.moved_ok, (new_spool-IsSpool capacity s created).1)

  heard-Stands : Stands (heard ms s) 0 (run ms s).spool
  heard-Stands =
      let start : s.position * 2 ≡ 0 = omega (arith, (new_spool-IsSpool capacity s created).1) in
      subst (λ a. Stands (heard ms s) a (run ms s).spool) start onward.0.heard_ok

  -- On a new stream, whatever the order in which the engine appends, the feeder feeds, the player
  -- reads and the owners come and go, as long as no one seeks, what the player has heard is what
  -- the file holds up to the playhead: no sample is lost, repeated or out of order.
  pub heard_in_order : heard ms s ≡ take ((run ms s).position * 2) (run ms s).spool
  heard_in_order =
      Stands-whole (heard ms s) (run ms s).spool heard-Stands
      ∙ ap (λ n. take n (run ms s).spool) (sym length-heard)

  -- If on a new stream no one has sought and the next read reports that the stream has ended, or
  -- that it is complete, then with that read the player has heard all that the file holds.
  pub heard-complete :
      (n : ℕ)
      → ((read n (run ms s)).0.ended || (read n (run ms s)).0.complete) ≡ true
      → heard ms s ++ (read n (run ms s)).0.pcm ≡ (run ms s).spool
  heard-complete n h =
      let t = run ms s in
      let u = (read n t).1 in
      let pcm = (read n t).0.pcm in
      let next = read-Onward n t onward.1 onward.0.range_ok in
      let both = Onward-trans s t u (heard ms s) pcm onward.0 next in
      let start : s.position * 2 ≡ 0 = omega (arith, (new_spool-IsSpool capacity s created).1) in
      let stands : Stands (heard ms s ++ pcm) 0 t.spool =
        subst (λ a. Stands (heard ms s ++ pcm) a t.spool) start
          (rw (read-spool n t) at both.heard_ok) in
      let whole : length (heard ms s ++ pcm) ≡ length t.spool = omega (
        arith,
        both.moved_ok,
        start,
        next.range_ok,
        read-drained n t h,
        onward.1.spool_ok,
        read-available n t,
      ) in
      list_ext (heard ms s ++ pcm) t.spool whole
        (λ i l. stands.1 i l ∙ ap (nth t.spool) (omega arith))
