-- ===== src/Pcm/Streams.antt =====
-- `StreamingRegistry` of src/aitts/streaming.py. The registry and the player share the stream objects,
-- so that the registry holds references into a heap of streams.
pub mod Close
use ai_tts.Common.{
  ℕ, Bool, true, false, not, String, Option, none, some, List, [], ◌∷◌, text_eq, ◌==◌,
  if◌then◌else◌,
}
use ai_tts.Common.Table.{find, select_where}
use ai_tts.Store.{Result, ok, raised, runtime_error}
use ai_tts.Pcm.Spool
use ai_tts.Pcm.Spool.{Spool}

pub record Streams : Type 0 where
  pub heap : ℕ → Spool
  pub sources : List (String × ℕ)
  pub closed : Bool

abbrev pub has_artifact : String → String × ℕ → Bool
has_artifact id (a, h) = text_eq a id

abbrev pub change : ℕ → (Spool → Spool) → (ℕ → Spool) → ℕ → Spool
change h f heap k = if k == h then f (heap k) else heap k

unfoldable pub add : String → ℕ → Streams → Result (Unit {0}) × Streams
add id h s =
    if s.closed then (raised runtime_error, record s { heap = change h Spool.close s.heap }) else (
      ok tt,
      record s { sources = (id, h) ∷ select_where (λ e. not (has_artifact id e)) s.sources },
    )

abbrev pub reference : Option (String × ℕ) → Option ℕ
reference none = none
reference (some (a, h)) = some h

unfoldable pub get : String → Streams → Option ℕ
get id s = reference (find (has_artifact id) s.sources)

-- The source is told that it is finished, and released.
unfoldable pub retire : Option String → ℕ → (ℕ → Spool) → ℕ → Spool
retire error h heap = change h (λ x. Spool.release (Spool.finish error x)) heap

abbrev pub retire_found : Option String → Option ℕ → (ℕ → Spool) → ℕ → Spool
retire_found error none heap = heap
retire_found error (some h) heap = retire error h heap

unfoldable pub finish : String → Option String → Streams → Streams
finish id error s = record s {
  heap = retire_found error (get id s) s.heap;
  sources = select_where (λ e. not (has_artifact id e)) s.sources;
}

unfoldable pub retire_all : Option String → List (String × ℕ) → (ℕ → Spool) → ℕ → Spool
retire_all error [] heap = heap
retire_all error ((a, h) ∷ rest) heap = retire_all error rest (retire error h heap)

unfoldable pub close : Streams → Streams
close s = record s {
  heap = retire_all (some "daemon stopped during generation") s.sources s.heap;
  sources = [];
  closed = true;
}
