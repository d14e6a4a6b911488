-- ===== src/Pcm/Spool.antt =====
-- `SpoolingPCMStream` of src/aitts/streaming.py. The object's attributes are a record, with the
-- samples of the WAV file as the list `spool`; each block under the lock is one step, so that a
-- sequence of moves is an interleaving of the engine, the player and the feeder thread. The feeder
-- holds no lock between its two blocks, and its state there is `feeding`.
pub mod Fed
pub mod Kept
pub mod Onward
pub mod Heard
pub mod Progress
use ai_tts.Common.{
  ℕ, suc, ◌+◌, ◌-◌, ◌*◌, ◌/◌, ◌%◌, min, Bool, true, false, not, ◌&&◌, ◌||◌, String, Option, none,
  some, List, [], ◌∷◌, ◌++◌, length, text_eq, is_none, ltb, leb, ◌==◌, if◌then◌else◌,
}
use ai_tts.Common.Arrays.{slice}
use ai_tts.Common.Int.{ℤ, pos, ◌+ℤ◌, ◌-ℤ◌, eq_ℤ}
use ai_tts.Store.{Result, ok, raised, value_error, runtime_error}
use ai_tts.Pcm.{sample_rate}
use ai_tts.Pcm.Ring
use ai_tts.Pcm.Ring.{Ring, new_ring, accepted, write_frames, clear}

-- Where the feeder thread is: at its wait, between its first block and the read of the file, between
-- that read and its second block, or returned.
pub data Feeding : Type 0 where
  idle : Feeding
  claimed : ℕ → ℕ → ℕ → Feeding
  fetched : ℕ → ℕ → List ℕ → Feeding
  stopped : Feeding

pub record Spool : Type 0 where
  pub ring : Ring
  pub spool : List ℕ
  pub available : ℕ
  pub fed : ℕ
  pub position : ℕ
  pub epoch : ℕ
  pub cached : Bool
  pub sealed : Bool
  pub finished : Bool
  pub closed : Bool
  pub owners : ℤ
  pub error : Option String
  pub feeding : Feeding

pub record PcmRead : Type 0 where
  pub pcm : List ℕ
  pub position_frames : ℕ
  pub ended : Bool
  pub error : Option String
  pub complete : Bool

abbrev pub opened : Ring → List ℕ → Bool → Spool
opened ring spool cached = record {
  ring = ring;
  spool = spool;
  available = length spool / 2;
  fed = 0;
  position = 0;
  epoch = 0;
  cached = cached;
  sealed = cached;
  finished = cached;
  closed = false;
  owners = pos 1;
  error = none;
  feeding = idle;
}

abbrev pub with_ring : List ℕ → Bool → Result Ring → Result Spool
with_ring spool cached (ok ring) = ok (opened ring spool cached)
with_ring spool cached (raised e) = raised e

-- A new stream over an empty candidate file.
unfoldable pub new_spool : ℕ → Result Spool
new_spool capacity_frames = with_ring [] false (new_ring capacity_frames)

-- `from_cached`, over the samples of a compatible WAV file.
unfoldable pub from_cached : List ℕ → Result Spool
from_cached samples = with_ring samples true (new_ring sample_rate)

-- `self._fed += self._ring.write(pcm)`.
unfoldable pub take_in : List ℕ → Spool → Spool
take_in pcm s = record s { ring = write_frames pcm s.ring; fed = s.fed + accepted pcm s.ring }

-- The writes of a permitted `append`.
unfoldable pub append_frames : List ℕ → Spool → Spool
append_frames pcm s =
    let longer = record s { spool = s.spool ++ pcm; available = s.available + length pcm / 2 } in
    if s.fed == s.available then take_in pcm longer else longer

unfoldable pub append : List ℕ → Spool → Result (Unit {0}) × Spool
append pcm s =
    if not (length pcm % 2 == 0)
    then (raised value_error, s)
    else if s.sealed || s.closed
    then (raised runtime_error, s)
    else (ok tt, append_frames pcm s)

-- `seal` returns the duration in milliseconds.
unfoldable pub seal : Spool → ℕ × Spool
seal s = (
  s.available * 1000 / sample_rate,
  record s { sealed = if not s.sealed && not s.cached then true else s.sealed },
)

-- `error or self._error`.
abbrev pub or_error : Option String → Option String → Option String
or_error none old = old
or_error (some e) old = if text_eq e "" then old else some e

unfoldable pub finish : Option String → Spool → Spool
finish error s = record s { error = or_error error s.error; finished = true }

unfoldable pub read : ℕ → Spool → PcmRead × Spool
read frames s =
    let (pcm, ring) = Ring.read frames s.ring in
    let position = s.position + length pcm / 2 in
    let drained = leb s.available position in
    (
      record {
        pcm = pcm;
        position_frames = position;
        ended = s.finished && drained;
        error = s.error;
        complete = (s.sealed || s.finished) && drained;
      },
      record s { ring = ring; position = position },
    )

-- `seek`; a position below 0 raises ValueError in the source and is no natural number.
unfoldable pub seek : ℕ → Spool → Spool
seek position s =
    if position == s.position
    then s
    else record s { epoch = suc s.epoch; ring = clear s.ring; position = position; fed = position }

unfoldable pub retain : Spool → Result (Unit {0}) × Spool
retain s =
    if s.closed then (raised runtime_error, s) else (ok tt, record s { owners = s.owners +ℤ pos 1 })

-- `close`; the feeder returns when it next takes the lock.
unfoldable pub close : Spool → Spool
close s = if s.closed then s else (seal (record s { closed = true })).1

unfoldable pub release : Spool → Spool
release s =
    let fewer = record s { owners = s.owners -ℤ pos 1 } in
    if eq_ℤ fewer.owners (pos 0) then close fewer else fewer

-- The feeder's first block, once its condition holds.
unfoldable pub claim : Spool → Spool
claim s =
    if s.closed
    then record s { feeding = stopped }
    else if ltb s.fed s.available && ltb s.ring.frames s.ring.capacity_frames
    then record s {
      feeding =
          claimed s.fed s.epoch
            (min (s.available - s.fed) (s.ring.capacity_frames - s.ring.frames));
    }
    else s

-- The read of the file, which ends the feeder if it is short.
unfoldable pub fetch : ℕ → ℕ → ℕ → Spool → Spool
fetch offset epoch count s =
    let pcm = slice (offset * 2) (offset * 2 + count * 2) s.spool in
    if length pcm == count * 2
    then record s { feeding = fetched offset epoch pcm }
    else finish (some "PCM spool returned incomplete frames") (record s { feeding = stopped })

-- The feeder's second block: what was read is dropped if a seek came between.
unfoldable pub put : ℕ → ℕ → List ℕ → Spool → Spool
put offset epoch pcm s =
    let waiting = record s { feeding = idle } in
    if epoch == s.epoch && offset == s.fed then take_in pcm waiting else waiting

abbrev pub feed_from : Feeding → Spool → Spool
feed_from idle s = claim s
feed_from (claimed offset epoch count) s = fetch offset epoch count s
feed_from (fetched offset epoch pcm) s = put offset epoch pcm s
feed_from stopped s = s

-- One step of the feeder thread.
unfoldable pub feed : Spool → Spool
feed s = feed_from s.feeding s

-- The moves of the engine, the player, the owners and the feeder.
pub data Move : Type 0 where
  appends : List ℕ → Move
  seals : Move
  finishes : Option String → Move
  reads : ℕ → Move
  seeks : ℕ → Move
  retains : Move
  releases : Move
  closes : Move
  feeds : Move

unfoldable pub after : Move → Spool → Spool
after (appends pcm) s = (append pcm s).1
after seals s = (seal s).1
after (finishes e) s = finish e s
after (reads n) s = (read n s).1
after (seeks p) s = seek p s
after retains s = (retain s).1
after releases s = release s
after closes s = close s
after feeds s = feed s

unfoldable pub run : List Move → Spool → Spool
run [] s = s
run (m ∷ ms) s = run ms (after m s)
