-- ===== src/Tests/Pcm.antt =====
-- The theorems about the transport of PCM samples at a ring of two frames and a stream over it.
use ai_tts.Common.{
  leb, some, String, ℕ, ◌++◌, ◌*◌, ◌≡◌, ◌⊎◌, refl, arith, true, false, ◌||◌, none, List, [], ◌∷◌,
}
use ai_tts.Common.Arrays.{slice, assign, take, replicate}
use ai_tts.Store.{ok, raised, runtime_error}
use ai_tts.Pcm.Ring
use ai_tts.Pcm.Spool
use ai_tts.Pcm.Streams
use ai_tts.Pcm.Streams.{Streams}
use ai_tts.Pcm.Streams.Close.{close-get}
use ai_tts.Pcm.Ring.{Ring, new_ring, store_bytes, write_frames}
use ai_tts.Pcm.Ring.Refine.{Op, writes, reads, clears, replies, queue_replies, replies_refine}
use ai_tts.Pcm.Spool.{
  Spool, Move, opened, new_spool, read, feed, after, append, append_frames, take_in, seal, finish,
  claim, fetch, put, run, idle, appends, seals, finishes, reads, feeds,
}
use ai_tts.Pcm.Spool.Fed.{IsSpool}
use ai_tts.Pcm.Spool.Kept.{after-IsSpool}
use ai_tts.Pcm.Spool.Heard.{heard, new_spool-IsSpool, heard_in_order, heard-complete}
use ai_tts.Pcm.Spool.Progress.{feed-fills}

-- The fourth call wraps round the end of the ring's four bytes.
abbrev calls : List Op
calls =
    writes (1 ∷ 2 ∷ 3 ∷ 4 ∷ 5 ∷ 6 ∷ [])
    ∷ reads 1
    ∷ writes (7 ∷ [])
    ∷ writes (5 ∷ 6 ∷ [])
    ∷ reads 3
    ∷ clears
    ∷ []

replies_refine_example :
    (r : Ring) × (new_ring 2 ≡ ok r) × (replies calls r ≡ queue_replies 2 calls [])
replies_refine_example = replies_refine 2 calls (omega arith)

abbrev empty_ring : Ring
empty_ring = record { bytes = replicate 4 0; head = 0; frames = 0; capacity_frames = 2 }

abbrev empty_spool : Spool
empty_spool = opened empty_ring [] false

created : new_spool 2 ≡ ok empty_spool
unfolding new_spool new_ring
created = refl

-- Three frames arrive, of which two fit; the feeder fetches the third from the file once the player
-- has read one.
abbrev moves : List Move
moves =
    appends (1 ∷ 2 ∷ 3 ∷ 4 ∷ 5 ∷ 6 ∷ [])
    ∷ reads 1
    ∷ feeds
    ∷ seals
    ∷ feeds
    ∷ finishes none
    ∷ feeds
    ∷ []

empty_spool-IsSpool : IsSpool empty_spool
empty_spool-IsSpool = (new_spool-IsSpool 2 empty_spool created).0

heard_in_order_example :
    heard moves empty_spool
    ≡ take ((run moves empty_spool).position * 2) (run moves empty_spool).spool
heard_in_order_example = heard_in_order 2 moves empty_spool created refl

heard-moves : heard moves empty_spool ≡ 1 ∷ 2 ∷ []
unfolding after append append_frames take_in seal finish read feed claim fetch put write_frames
    store_bytes Ring.read slice assign
heard-moves = refl

ended :
    ((read 5 (run moves empty_spool)).0.ended || (read 5 (run moves empty_spool)).0.complete) ≡ true
unfolding after append append_frames take_in seal finish read feed claim fetch put write_frames
    store_bytes Ring.read run slice assign
ended = refl

heard-complete_example :
    heard moves empty_spool ++ (read 5 (run moves empty_spool)).0.pcm
    ≡ (run moves empty_spool).spool
heard-complete_example = heard-complete 2 moves empty_spool created refl 5 ended

abbrev chunk : List ℕ
chunk = 1 ∷ 2 ∷ 3 ∷ 4 ∷ 5 ∷ 6 ∷ []

-- A third frame in the file, and room for it in the ring.
abbrev behind : Spool
behind = after (reads 1) (after (appends chunk) empty_spool)

after-IsSpool_example : IsSpool (after (appends chunk) empty_spool)
after-IsSpool_example = after-IsSpool (appends chunk) empty_spool empty_spool-IsSpool

behind-IsSpool : IsSpool behind
behind-IsSpool =
    after-IsSpool (reads 1) (after (appends chunk) empty_spool)
      (after-IsSpool (appends chunk) empty_spool empty_spool-IsSpool)

behind-idle : behind.feeding ≡ idle
unfolding after append append_frames take_in read write_frames store_bytes Ring.read
behind-idle = refl

feed-fills_example :
    (let t = feed (feed (feed behind)) in
      (t.ring.frames ≡ behind.ring.capacity_frames) ⊎ (t.fed ≡ behind.available))
unfolding after append append_frames take_in read write_frames store_bytes Ring.read
feed-fills_example = feed-fills behind behind-IsSpool refl refl (omega arith)

-- One stream is registered, and a player retains it.
abbrev shared : Streams
shared = record {
  heap = λ h. (Spool.retain empty_spool).1;
  sources = ("clip", 0) ∷ [];
  closed = false;
}

close-get_example :
    (((Streams.close shared).heap 0).finished ≡ true)
    × (((Streams.close shared).heap 0).error ≡ some "daemon stopped during generation")
    × ((n : ℕ)
        → let r = read n ((Streams.close shared).heap 0) in
          (r.0.error ≡ some "daemon stopped during generation")
          × (r.0.ended ≡ leb r.1.available r.1.position))
    × ((a : String) → Streams.get a (Streams.close shared) ≡ none)
    × ((a : String) (k : ℕ) → (Streams.add a k (Streams.close shared)).0 ≡ raised runtime_error)
unfolding Streams.get
close-get_example = close-get shared "clip" 0 refl
