-- ===== src/Pcm/Ring/Layout.antt =====
-- The ring of src/aitts/streaming.py as a queue of bytes: which bytes are in it, and where.
use native.Mathlib.Nat.{mod-eq_of_lt, mod-eq-sub-mod}
use ai_tts.Common.{
  ℕ, ◌+◌, ◌-◌, ◌*◌, ◌%◌, ◌≤◌, ◌<◌, ◌≡◌, ◌∙◌, List, arith, length, ltb, if◌then◌else◌, inl, inr,
  Bool-cases,
}
use ai_tts.Common.Arrays.{nth, tabulate, length-tabulate, nth-tabulate}
use ai_tts.Pcm.Ring.{Ring}

-- The buffer has room for its frames, and its head is a position of it.
pub record IsRing (r : Ring) : Type 0 where
  pub size_ok : length r.bytes ≡ r.capacity_frames * 2
  pub head_ok : r.head < length r.bytes
  pub frames_ok : r.frames ≤ r.capacity_frames

-- A position that runs over the end once.
unfoldable pub wrap : ℕ → ℕ → ℕ
wrap x size = if ltb x size then x else x - size

pub mod-wrap : (x size : ℕ) → 0 < size → x < size + size → x % size ≡ wrap x size
unfolding wrap
mod-wrap x size p h = elim (Bool-cases (ltb x size)) [
  | inl low ↦ rw low (mod-eq_of_lt (ground arith))
  | inr high ↦ rw high (mod-eq-sub-mod (ground arith) ∙ mod-eq_of_lt (ground arith))
]

-- The bytes in the queue, oldest first.
unfoldable pub contents : Ring → List ℕ
unfolding wrap
contents r = tabulate (r.frames * 2) (λ i. nth r.bytes (wrap (r.head + i) (length r.bytes)))

pub length-contents : (r : Ring) → length (contents r) ≡ r.frames * 2
unfolding contents
length-contents r = length-tabulate (r.frames * 2) _

pub nth-contents :
    (r : Ring) (i : ℕ)
    → i < r.frames * 2
    → nth (contents r) i ≡ nth r.bytes (wrap (r.head + i) (length r.bytes))
unfolding contents
nth-contents r i h = nth-tabulate (r.frames * 2) _ i h
