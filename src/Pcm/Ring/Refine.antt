-- ===== src/Pcm/Ring/Refine.antt =====
-- The ring of src/aitts/streaming.py implements a bounded queue of bytes.
use ai_tts.Common.{
  ℕ, ◌-◌, ◌*◌, ◌/◌, ◌%◌, ◌≤◌, ◌≡◌, refl, ap, min, false, List, [], ◌∷◌, ◌++◌, arith, length, ltb,
  ◌==◌, if◌then◌else◌, inl, inr, Bool-cases,
}
use ai_tts.Common.Arrays.{take, drop, replicate, length-replicate}
use ai_tts.Store.{Result, ok, raised, value_error}
use ai_tts.Pcm.Ring.{Ring, new_ring, write_frames, write, read, clear}
use ai_tts.Pcm.Ring.Layout.{IsRing, contents, length-contents}
use ai_tts.Pcm.Ring.Write.{write_frames-contents, write_frames-IsRing}
use ai_tts.Pcm.Ring.Read.{read-IsRing, read-taken, read-left}

-- The calls of a client, and what they return: the outcome of a write, or the bytes of a read.
pub data Op : Type 0 where
  writes : List ℕ → Op
  reads : ℕ → Op
  clears : Op

pub data Reply : Type 0 where
  wrote : Result ℕ → Reply
  got : List ℕ → Reply
  cleared : Reply

unfoldable pub step : Op → Ring → Reply × Ring
step (writes pcm) r = let (n, after) = write pcm r in (wrote n, after)
step (reads n) r = let (pcm, after) = read n r in (got pcm, after)
step clears r = (cleared, clear r)

-- The queue holds bytes, oldest first, of at most `capacity` frames of two bytes.
unfoldable pub queue_step : ℕ → Op → List ℕ → Reply × List ℕ
queue_step capacity (writes pcm) q =
    let n = min (length pcm / 2) (capacity - length q / 2) in
    if length pcm % 2 == 0
    then (wrote (ok n), q ++ take (n * 2) pcm)
    else (wrote (raised value_error), q)
queue_step capacity (reads n) q = let k = min n (length q / 2) * 2 in (got (take k q), drop k q)
queue_step capacity clears q = (cleared, [])

abbrev pub replies : List Op → Ring → List Reply
replies [] r = []
replies (o ∷ os) r = (step o r).0 ∷ replies os (step o r).1

abbrev pub queue_replies : ℕ → List Op → List ℕ → List Reply
queue_replies capacity [] q = []
queue_replies capacity (o ∷ os) q =
    (queue_step capacity o q).0 ∷ queue_replies capacity os (queue_step capacity o q).1

frames_of : (r : Ring) → length (contents r) / 2 ≡ r.frames
frames_of r = omega (arith, length-contents r)

-- One call answers as the queue does, leaves what the queue is left with, and keeps the capacity.
record Simulates (o : Op) (r : Ring) : Type 0 where
  reply_ok : (step o r).0 ≡ (queue_step r.capacity_frames o (contents r)).0
  after_ok : contents (step o r).1 ≡ (queue_step r.capacity_frames o (contents r)).1
  ring_ok : IsRing (step o r).1
  capacity_ok : (step o r).1.capacity_frames ≡ r.capacity_frames

write-Simulates : (pcm : List ℕ) (r : Ring) → IsRing r → Simulates (writes pcm) r
unfolding step queue_step write
write-Simulates pcm r v = elim (Bool-cases (length pcm % 2 == 0)) [
  | inl whole ↦ record {
    reply_ok = rw (whole, frames_of r) refl;
    after_ok = rw (whole, frames_of r) (write_frames-contents pcm r v);
    ring_ok = rw whole (write_frames-IsRing pcm r v);
    capacity_ok = rw whole (unfold write_frames in refl);
  }
  | inr torn ↦ record {
    reply_ok = rw torn refl;
    after_ok = rw torn refl;
    ring_ok = rw torn v;
    capacity_ok = rw torn refl;
  }
]

read-Simulates : (n : ℕ) (r : Ring) → IsRing r → Simulates (reads n) r
unfolding step queue_step
read-Simulates n r v = record {
  reply_ok = rw (frames_of r) (ap got (read-taken n r v));
  after_ok = rw (frames_of r) (read-left n r v);
  ring_ok = read-IsRing n r v;
  capacity_ok = unfold read in refl;
}

clear-Simulates : (r : Ring) → IsRing r → Simulates clears r
unfolding step queue_step clear contents
clear-Simulates r v = record {
  reply_ok = refl;
  after_ok = refl;
  ring_ok = record {
    size_ok = v.size_ok;
    head_ok = omega (arith, v.head_ok);
    frames_ok = omega arith;
  };
  capacity_ok = refl;
}

step-Simulates : (o : Op) (r : Ring) → IsRing r → Simulates o r
step-Simulates (writes pcm) r v = write-Simulates pcm r v
step-Simulates (reads n) r v = read-Simulates n r v
step-Simulates clears r v = clear-Simulates r v

replies_follow :
    (os : List Op) (r : Ring)
    → IsRing r
    → replies os r ≡ queue_replies r.capacity_frames os (contents r)
replies_follow [] r v = refl
replies_follow (o ∷ os) r v =
    let sim = step-Simulates o r v in
    rw (sim.reply_ok, replies_follow os (step o r).1 sim.ring_ok, sim.capacity_ok, sim.after_ok)
      refl

-- A new ring of at least one frame answers every sequence of writes, reads and clears as a queue
-- of bytes does that is empty at first and never holds more frames than the ring's capacity.
pub replies_refine :
    (capacity : ℕ) (os : List Op)
    → 1 ≤ capacity
    → (r : Ring) × (new_ring capacity ≡ ok r) × (replies os r ≡ queue_replies capacity os [])
unfolding new_ring contents
replies_refine capacity os h =
    let r : Ring = record {
      bytes = replicate (capacity * 2) 0;
      head = 0;
      frames = 0;
      capacity_frames = capacity;
    } in
    let small : ltb capacity 1 ≡ false = ground arith in
    let v : IsRing r = record {
      size_ok = length-replicate (capacity * 2) 0;
      head_ok = omega (arith, length-replicate (capacity * 2) 0);
      frames_ok = omega arith;
    } in
    (r, rw small refl, replies_follow os r v)
