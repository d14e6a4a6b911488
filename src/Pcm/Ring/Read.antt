-- ===== src/Pcm/Ring/Read.antt =====
-- A read from the ring of src/aitts/streaming.py takes from the front of the queue.
use ai_tts.Common.{ℕ, ◌+◌, ◌-◌, ◌*◌, ◌%◌, ◌<◌, ◌≡◌, sym, ap, ◌∙◌, min, arith, length, length-append}
use ai_tts.Common.Arrays.{
  take, drop, slice, nth, length-take, length-drop, length-slice, nth-append, nth-take, nth-drop,
  nth-slice, list_ext,
}
use ai_tts.Pcm.Ring.{Ring, read}
use ai_tts.Pcm.Ring.Layout.{IsRing, wrap, mod-wrap, contents, length-contents, nth-contents}

module _ (n : ℕ) (r : Ring) (v : IsRing r) where
  abbrev taken : ℕ
  taken = min n r.frames * 2

  abbrev run : ℕ
  run = min taken (length r.bytes - r.head)

  head-wrap : (r.head + taken) % length r.bytes ≡ wrap (r.head + taken) (length r.bytes)
  head-wrap =
      mod-wrap (r.head + taken) (length r.bytes) (omega (arith, v.head_ok))
        (omega (arith, v.head_ok, v.size_ok, v.frames_ok))

  pub read-IsRing : IsRing (read n r).1
  unfolding read wrap
  read-IsRing = rw head-wrap (record {
    size_ok = v.size_ok;
    head_ok = ground (arith, v.head_ok, v.size_ok, v.frames_ok);
    frames_ok = omega (arith, v.frames_ok);
  })

  pub length-read : length (read n r).0 ≡ taken
  unfolding read
  length-read = omega (
    arith,
    v.head_ok,
    v.size_ok,
    v.frames_ok,
    length-append (slice r.head (r.head + run) r.bytes) (slice 0 (taken - run) r.bytes),
    length-slice r.head (r.head + run) r.bytes,
    length-slice 0 (taken - run) r.bytes,
  )

  nth-read : (i : ℕ) → i < taken → nth (read n r).0 i ≡ nth (contents r) i
  unfolding read wrap
  nth-read i h = ground (
    arith,
    v.head_ok,
    v.size_ok,
    v.frames_ok,
    nth-append (slice r.head (r.head + run) r.bytes) (slice 0 (taken - run) r.bytes) i,
    length-slice r.head (r.head + run) r.bytes,
    nth-slice r.head (r.head + run) r.bytes i,
    nth-slice 0 (taken - run) r.bytes (i - run),
    nth-contents r i (omega arith),
  )

  -- A read takes its bytes from the front of the queue.
  pub read-taken : (read n r).0 ≡ take taken (contents r)
  read-taken =
      list_ext (read n r).0 (take taken (contents r))
        (omega (arith, length-read, length-take taken (contents r), length-contents r))
        (λ i h.
          let low : i < taken = omega (arith, h, length-read) in
          ground (arith, nth-read i low, nth-take taken (contents r) i))

  pub frames_left : (read n r).1.frames ≡ r.frames - min n r.frames
  unfolding read
  frames_left = omega arith

  nth-left :
      (i : ℕ)
      → i < (r.frames - min n r.frames) * 2
      → nth (contents (read n r).1) i ≡ nth (contents r) (taken + i)
  unfolding read wrap
  nth-left i h =
      nth-contents (read n r).1 i (omega (arith, frames_left))
      ∙ ap (λ k. nth r.bytes (wrap (k + i) (length r.bytes))) head-wrap
      ∙ ap (nth r.bytes) (ground (arith, v.head_ok, v.size_ok, v.frames_ok))
      ∙ sym (nth-contents r (taken + i) (omega arith))

  -- What is left in the queue is what stood behind the bytes read.
  pub read-left : contents (read n r).1 ≡ drop taken (contents r)
  read-left =
      list_ext (contents (read n r).1) (drop taken (contents r))
        (omega (
          arith,
          length-contents (read n r).1,
          frames_left,
          length-drop taken (contents r),
          length-contents r,
        ))
        (λ i h.
          let low : i < (r.frames - min n r.frames) * 2 =
            omega (arith, h, length-contents (read n r).1, frames_left) in
          ground (arith, nth-left i low, nth-drop taken (contents r) i))
