-- ===== src/Pcm/Ring/Write.antt =====
-- A write to the ring of src/aitts/streaming.py appends to the queue.
use ai_tts.Common.{
  ℕ, ◌+◌, ◌-◌, ◌*◌, ◌≤◌, ◌<◌, ◌≡◌, refl, sym, ap, subst, ◌∙◌, List, ◌++◌, arith, length,
  length-append, ltb, inl, inr, Bool-cases,
}
use ai_tts.Common.Arrays.{take, nth, length-take, nth-append, nth-take, list_ext}
use ai_tts.Pcm.Ring.{Ring, store_bytes, accepted, write_frames}
use ai_tts.Pcm.Ring.Layout.{IsRing, wrap, contents, length-contents, nth-contents}
use ai_tts.Pcm.Ring.Store.{length-store_bytes, kept_position, new_position}

accepted-room :
    (pcm : List ℕ) (r : Ring)
    → IsRing r
    → (r.frames * 2 + accepted pcm r * 2 ≤ length r.bytes) × (accepted pcm r * 2 ≤ length pcm)
accepted-room pcm r v = (omega (arith, v.size_ok, v.frames_ok), omega arith)

pub write_frames-IsRing : (pcm : List ℕ) (r : Ring) → IsRing r → IsRing (write_frames pcm r)
unfolding write_frames
write_frames-IsRing pcm r v =
    let (room, given) = accepted-room pcm r v in
    let same = length-store_bytes r v (accepted pcm r * 2) pcm room given in
    record {
      size_ok = omega (arith, same, v.size_ok);
      head_ok = omega (arith, same, v.head_ok);
      frames_ok = omega (arith, v.frames_ok);
    }

module _ (pcm : List ℕ) (r : Ring) (v : IsRing r) where
  pub frames_after : (write_frames pcm r).frames ≡ r.frames + accepted pcm r
  unfolding write_frames
  frames_after = refl

  length-write_frames : length (contents (write_frames pcm r)) ≡ r.frames * 2 + accepted pcm r * 2
  length-write_frames = omega (arith, length-contents (write_frames pcm r), frames_after)

  same_size : length (write_frames pcm r).bytes ≡ length r.bytes
  unfolding write_frames
  same_size =
      let (room, given) = accepted-room pcm r v in
      length-store_bytes r v (accepted pcm r * 2) pcm room given

  nth-write_frames :
      (i : ℕ)
      → i < r.frames * 2 + accepted pcm r * 2
      → nth (contents (write_frames pcm r)) i
        ≡ nth (store_bytes (accepted pcm r * 2) pcm r) (wrap (r.head + i) (length r.bytes))
  unfolding write_frames
  nth-write_frames i h =
      nth-contents (write_frames pcm r) i (omega (arith, frames_after))
      ∙ ap (λ n. nth (store_bytes (accepted pcm r * 2) pcm r) (wrap (r.head + i) n)) same_size

  old_byte :
      (i : ℕ)
      → i < r.frames * 2
      → nth (contents (write_frames pcm r)) i ≡ nth (contents r ++ take (accepted pcm r * 2) pcm) i
  old_byte i h =
      let (room, given) = accepted-room pcm r v in
      ground (
        arith,
        nth-write_frames i (omega arith),
        kept_position r v (accepted pcm r * 2) pcm room given i h,
        nth-contents r i h,
        nth-append (contents r) (take (accepted pcm r * 2) pcm) i,
        length-contents r,
      )

  new_byte :
      (i : ℕ)
      → i < accepted pcm r * 2
      → nth (contents (write_frames pcm r)) (r.frames * 2 + i)
        ≡ nth (contents r ++ take (accepted pcm r * 2) pcm) (r.frames * 2 + i)
  new_byte i h =
      let (room, given) = accepted-room pcm r v in
      let place : r.head + (r.frames * 2 + i) ≡ r.head + r.frames * 2 + i = omega arith in
      let at : r.frames * 2 + i - r.frames * 2 ≡ i = omega arith in
      nth-write_frames (r.frames * 2 + i) (omega arith)
      ∙ ap (λ n. nth (store_bytes (accepted pcm r * 2) pcm r) (wrap n (length r.bytes))) place
      ∙ new_position r v (accepted pcm r * 2) pcm room given i h
      ∙ sym (
          ground (
            arith,
            nth-append (contents r) (take (accepted pcm r * 2) pcm) (r.frames * 2 + i),
            length-contents r,
            nth-take (accepted pcm r * 2) pcm i,
          ))

  -- A write appends the bytes that it accepts to the queue.
  pub write_frames-contents :
      contents (write_frames pcm r) ≡ contents r ++ take (accepted pcm r * 2) pcm
  write_frames-contents =
      let c = accepted pcm r * 2 in
      let (room, given) = accepted-room pcm r v in
      list_ext (contents (write_frames pcm r)) (contents r ++ take c pcm)
        (omega (
          arith,
          length-write_frames,
          length-contents r,
          length-append (contents r) (take c pcm),
          length-take c pcm,
        ))
        (λ i h. elim (Bool-cases (ltb i (r.frames * 2))) [
          | inl old ↦ old_byte i (ground arith)
          | inr fresh ↦
              let low : r.frames * 2 ≤ i = ground arith in
              let e : r.frames * 2 + (i - r.frames * 2) ≡ i = omega arith in
              subst (λ k. nth (contents (write_frames pcm r)) k ≡ nth (contents r ++ take c pcm) k)
                e (new_byte (i - r.frames * 2) (omega (arith, h, length-write_frames)))
        ])
