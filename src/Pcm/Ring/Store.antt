-- ===== src/Pcm/Ring/Store.antt =====
-- What the two slice assignments of a write leave at each position of the ring of
-- src/aitts/streaming.py.
use ai_tts.Common.{
  ℕ, ◌+◌, ◌-◌, ◌*◌, ◌≤◌, ◌<◌, ◌≡◌, refl, ◌∙◌, min, List, arith, length, ltb, if◌then◌else◌,
}
use ai_tts.Common.Arrays.{
  take, slice, assign, nth, length-take, length-slice, length-assign, nth-take, nth-slice,
  nth-assign,
}
use ai_tts.Pcm.Ring.{Ring, store_bytes}
use ai_tts.Pcm.Ring.Layout.{IsRing, wrap, mod-wrap}

module _ (r : Ring) (v : IsRing r) (count : ℕ) (pcm : List ℕ)
    (room : r.frames * 2 + count ≤ length r.bytes) (given : count ≤ length pcm) where
  abbrev tail : ℕ
  tail = wrap (r.head + r.frames * 2) (length r.bytes)

  abbrev first : ℕ
  first = min count (length r.bytes - tail)

  tail-lt : tail < length r.bytes
  unfolding wrap
  tail-lt = ground (arith, v.head_ok, v.size_ok, v.frames_ok)

  store_bytes-assign :
      store_bytes count pcm r
      ≡ assign 0
          (count - first)
          (slice first count pcm)
          (assign tail (tail + first) (take first pcm) r.bytes)
  unfolding store_bytes
  store_bytes-assign =
      rw
        (mod-wrap (r.head + r.frames * 2) (length r.bytes) (omega (arith, v.head_ok))
          (omega (arith, v.head_ok, v.size_ok, v.frames_ok)))
        refl

  inner_length : length (assign tail (tail + first) (take first pcm) r.bytes) ≡ length r.bytes
  inner_length =
      length-assign tail (tail + first) (take first pcm) r.bytes
        (omega (arith, length-take first pcm)) (omega (arith, tail-lt))

  pub length-store_bytes : length (store_bytes count pcm r) ≡ length r.bytes
  length-store_bytes = rw store_bytes-assign (
      length-assign 0 (count - first) (slice first count pcm)
        (assign tail (tail + first) (take first pcm) r.bytes)
        (omega (arith, length-slice first count pcm)) (omega (arith, inner_length))
      ∙ inner_length)

  nth-store_bytes :
      (k : ℕ)
      → nth (store_bytes count pcm r) k ≡ (
          if ltb k (count - first)
          then nth pcm (first + k)
          else if ltb k tail
          then nth r.bytes k
          else if ltb k (tail + first)
          then nth pcm (k - tail)
          else nth r.bytes k)
  nth-store_bytes k = rw store_bytes-assign (
      ground (
        arith,
        nth-assign 0 (count - first) (slice first count pcm)
            (assign tail (tail + first) (take first pcm) r.bytes) k
            (omega (arith, length-slice first count pcm)) (omega (arith, inner_length)),
        nth-assign tail (tail + first) (take first pcm) r.bytes k
            (omega (arith, length-take first pcm)) (omega (arith, tail-lt)),
        nth-slice first count pcm k,
        nth-take first pcm (k - tail),
      ))

  -- What the writes leave at the positions of the queue and behind it.
  pub kept_position :
      (i : ℕ)
      → i < r.frames * 2
      → nth (store_bytes count pcm r) (wrap (r.head + i) (length r.bytes))
        ≡ nth r.bytes (wrap (r.head + i) (length r.bytes))
  unfolding wrap
  kept_position i h =
      ground (arith, nth-store_bytes (wrap (r.head + i) (length r.bytes)), v.head_ok)

  pub new_position :
      (i : ℕ)
      → i < count
      → nth (store_bytes count pcm r) (wrap (r.head + r.frames * 2 + i) (length r.bytes))
        ≡ nth pcm i
  unfolding wrap
  new_position i h =
      ground (arith, nth-store_bytes (wrap (r.head + r.frames * 2 + i) (length r.bytes)), v.head_ok)
