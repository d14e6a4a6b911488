-- ===== src/Pcm/Ring.antt =====
-- `CircularAudioBuffer` of src/aitts/streaming.py. A byte is only moved and never computed with, so
-- any number; a method returns or raises, beside the buffer after it.
pub mod Layout
pub mod Store
pub mod Write
pub mod Read
pub mod Refine
use ai_tts.Common.{
  ℕ, ◌+◌, ◌-◌, ◌*◌, ◌/◌, ◌%◌, min, Bool, not, List, [], ◌∷◌, ◌++◌, length, ltb, ◌==◌, if◌then◌else◌,
}
use ai_tts.Common.Arrays.{take, slice, assign, replicate}
use ai_tts.Store.{Result, ok, raised, value_error}

pub record Ring : Type 0 where
  pub bytes : List ℕ
  pub head : ℕ
  pub frames : ℕ
  pub capacity_frames : ℕ

unfoldable pub new_ring : ℕ → Result Ring
new_ring capacity_frames =
    if ltb capacity_frames 1
    then raised value_error
    else ok (record {
      bytes = replicate (capacity_frames * 2) 0;
      head = 0;
      frames = 0;
      capacity_frames = capacity_frames;
    })

-- The two slice assignments of `write`: `count` bytes from `tail` on, the rest from the beginning.
unfoldable pub store_bytes : ℕ → List ℕ → Ring → List ℕ
store_bytes count pcm r =
    let tail = (r.head + r.frames * 2) % length r.bytes in
    let first = min count (length r.bytes - tail) in
    assign 0 (count - first) (slice first count pcm)
      (assign tail (tail + first) (take first pcm) r.bytes)

abbrev pub accepted : List ℕ → Ring → ℕ
accepted pcm r = min (length pcm / 2) (r.capacity_frames - r.frames)

-- The body of `write` for whole frames.
unfoldable pub write_frames : List ℕ → Ring → Ring
write_frames pcm r = record r {
  bytes = store_bytes (accepted pcm r * 2) pcm r;
  frames = r.frames + accepted pcm r;
}

unfoldable pub write : List ℕ → Ring → Result ℕ × Ring
write pcm r =
    if not (length pcm % 2 == 0)
    then (raised value_error, r)
    else (ok (accepted pcm r), write_frames pcm r)

-- `read`; a count below 0 raises ValueError in the source and is no natural number.
unfoldable pub read : ℕ → Ring → List ℕ × Ring
read frames r =
    let count = min frames r.frames * 2 in
    let first = min count (length r.bytes - r.head) in
    (
      slice r.head (r.head + first) r.bytes ++ slice 0 (count - first) r.bytes,
      record r { head = (r.head + count) % length r.bytes; frames = r.frames - count / 2 },
    )

unfoldable pub clear : Ring → Ring
clear r = record r { head = 0; frames = 0 }
