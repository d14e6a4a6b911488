-- ===== src/Cache.antt =====
-- src/aitts/application/cache.py: the bounded cache of rendered audio, over the store and a file
-- port. The port's three operations are arguments; what they act on is a `Disk` of the caller's
-- choice, and an `OSError` of theirs is the result `none`.
pub mod Bound
use ai_tts.Common.{
  ℕ, ◌+◌, ◌-◌, Bool, true, false, ◌&&◌, ◌||◌, not, String, Option, none, some, List, [], ◌∷◌, ◌++◌,
  text_eq, mem_text, leb, ltb, ◌==◌, if◌then◌else◌,
}
use ai_tts.Common.Table.{select_where, sort_by}
use Prim.Native.String.{compare}
use Prim.Native.Nat.{Ordering}
use ai_tts.Store.Reads.{is_protected}
use ai_tts.Store.{Store, Result, ok, raised, value_error}
use ai_tts.Store.Queue.{forget_terminal_audio}

-- `DEFAULT_CACHE_MAX_BYTES`, 1024 ** 3.
abbrev pub default_cache_max_bytes : ℕ
default_cache_max_bytes = 1073741824

pub record CacheEntry : Type 0 where
  pub path : String
  pub size_bytes : ℕ
  pub last_access_ns : ℕ

pub record CacheEnforcementReport : Type 0 where
  pub before_bytes : ℕ
  pub after_bytes : ℕ
  pub max_bytes : ℕ
  pub evicted_paths : List String
  pub failed_paths : List String

pub record CachePurgeReport : Type 0 where
  pub removed_entries : List CacheEntry
  pub protected_entries : List CacheEntry
  pub failed_entries : List CacheEntry

abbrev pub total_bytes : List CacheEntry → ℕ
total_bytes [] = 0
total_bytes (e ∷ es) = e.size_bytes + total_bytes es

abbrev pub within_limit : CacheEnforcementReport → Bool
within_limit r = leb r.after_bytes r.max_bytes

abbrev pub removed_bytes : CachePurgeReport → ℕ
removed_bytes r = total_bytes r.removed_entries

abbrev pub protected_bytes : CachePurgeReport → ℕ
protected_bytes r = total_bytes r.protected_entries

abbrev pub failed_bytes : CachePurgeReport → ℕ
failed_bytes r = total_bytes r.failed_entries

-- `AudioCachePort`, on a disk of type `D`.
pub record AudioCachePort (D : Type 0) : Type 0 where
  pub inventory : D → List CacheEntry
  pub delete : String → D → Option Bool × D
  pub touch : String → D → Option Bool × D

abbrev path_leb : String → String → Bool
path_leb a b = elim (compare a b) [ Ordering.gt ↦ false | _ ↦ true ]

-- The sort key `(last_access_ns, str(path))`.
abbrev pub by_access : CacheEntry → CacheEntry → Bool
by_access a b =
    ltb a.last_access_ns b.last_access_ns
    || (a.last_access_ns == b.last_access_ns && path_leb a.path b.path)

-- `str(entry.path) in protected`.
abbrev pub is_kept : Store → List String → CacheEntry → Bool
is_kept s additional e = is_protected e.path s || mem_text e.path additional

-- What the loop of `enforce` has done so far. The bytes that remain are those of the entries that
-- have not been evicted, of which each is evicted once, so that the subtraction does not stop at 0.
pub record Eviction (D : Type 0) : Type 0 where
  pub store : Store
  pub disk : D
  pub remaining_bytes : ℕ
  pub evicted : List String
  pub failed : List String

-- What `purge` has done so far.
pub record Purge (D : Type 0) : Type 0 where
  pub store : Store
  pub disk : D
  pub removed : List CacheEntry
  pub failed : List CacheEntry

module _ {D : Type 0} (port : AudioCachePort D) where
  abbrev pub evicted_one : CacheEntry → Eviction D → Option Bool × D → Eviction D
  evicted_one e w (none, d) = record w { disk = d; failed = w.failed ++ e.path ∷ [] }
  evicted_one e w (some existed, d) =
      let s = (forget_terminal_audio e.path w.store).1 in
      if existed
      then record w {
        disk = d;
        store = s;
        evicted = w.evicted ++ e.path ∷ [];
        remaining_bytes = w.remaining_bytes - e.size_bytes;
      }
      else record w { disk = d; store = s }

  abbrev pub evict : ℕ → List CacheEntry → Eviction D → Eviction D
  evict max_bytes [] w = w
  evict max_bytes (e ∷ es) w =
      let next = evict max_bytes es (evicted_one e w (port.delete e.path w.disk)) in
      if leb w.remaining_bytes max_bytes then w else next

  -- The entries that may be evicted, in the order in which they are.
  unfoldable pub candidates : Store → List String → List CacheEntry → List CacheEntry
  candidates s additional before =
      sort_by by_access (select_where (λ e. not (is_kept s additional e)) before)

  abbrev pub enforcement : ℕ → List String → Store → D → Eviction D
  enforcement max_bytes additional s d =
      let before = port.inventory d in
      evict max_bytes (candidates s additional before) (record {
        store = s;
        disk = d;
        remaining_bytes = total_bytes before;
        evicted = [];
        failed = [];
      })

  -- `enforce`; a `max_bytes` below 0 raises ValueError in the source and is no natural number.
  unfoldable pub enforce : ℕ → List String → Store → D → CacheEnforcementReport × (Store × D)
  enforce max_bytes additional s d =
      let w = enforcement max_bytes additional s d in
      (
        record {
          before_bytes = total_bytes (port.inventory d);
          after_bytes = total_bytes (port.inventory w.disk);
          max_bytes = max_bytes;
          evicted_paths = w.evicted;
          failed_paths = w.failed;
        },
        (w.store, w.disk),
      )

  abbrev pub purged_one : CacheEntry → Purge D → Option Bool × D → Purge D
  purged_one e w (none, d) = record w { disk = d; failed = w.failed ++ e ∷ [] }
  purged_one e w (some existed, d) =
      let s = (forget_terminal_audio e.path w.store).1 in
      if existed
      then record w { disk = d; store = s; removed = w.removed ++ e ∷ [] }
      else record w { disk = d; store = s }

  -- The loop of `purge`; `kept` is membership in the protected paths.
  abbrev pub purge_each : (CacheEntry → Bool) → List CacheEntry → Purge D → Purge D
  purge_each kept [] w = w
  purge_each kept (e ∷ es) w =
      purge_each kept es (if kept e then w else purged_one e w (port.delete e.path w.disk))

  unfoldable pub purge : List String → Store → D → CachePurgeReport × (Store × D)
  purge additional s d =
      let entries = port.inventory d in
      let w =
        purge_each (is_kept s additional) entries
          (record { store = s; disk = d; removed = []; failed = [] }) in
      (
        record {
          removed_entries = w.removed;
          protected_entries = select_where (is_kept s additional) entries;
          failed_entries = w.failed;
        },
        (w.store, w.disk),
      )

  abbrev pub touched : Option Bool × D → Bool × D
  touched (none, d) = (false, d)
  touched (some existed, d) = (existed, d)

  unfoldable pub note_access : String → D → Bool × D
  note_access path d = touched (port.touch path d)
