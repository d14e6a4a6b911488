-- ===== src/Cache/Bound.antt =====
-- The cache never deletes audio that is still owed to the listener.
use ai_tts.Common.{
  ℕ, ◌≡◌, refl, Bool, true, false, ◌||◌, not, String, Option, none, some, List, [], ◌∷◌, All, leb,
  Bool-cases, text_eq, mem_text, ap, eq_iff, inl, inr, if◌then◌else◌,
}
use ai_tts.Common.Table.{select_where}
use ai_tts.Common.Sorting.{In, All-sort_by}
use ai_tts.Store.{Store}
use ai_tts.Store.Reads.{is_protected}
use ai_tts.Cache.{
  CacheEntry, AudioCachePort, Eviction, Purge, by_access, is_kept, evicted_one, evict, candidates,
  enforce, purged_one, purge_each, purge,
}

module _ (s : Store) (additional : List String) (f : CacheEntry)
    (kept : is_kept s additional f ≡ true) where
  other_path : (e : CacheEntry) → is_kept s additional e ≡ false → text_eq f.path e.path ≡ false
  other_path e h = elim (Bool-cases (text_eq f.path e.path)) [
    | inl same ↦
        let p : f.path ≡ e.path = (eq_iff f.path e.path).0 same in
        let q : is_kept s additional f ≡ is_kept s additional e =
          ap (λ t. is_protected t s || mem_text t additional) p in
        cc
    | inr other ↦ other
  ]

  unkept :
      (es : List CacheEntry)
      → All
          (λ e. is_kept s additional e ≡ false)
          (select_where (λ e. not (is_kept s additional e)) es)
  unkept [] = tt
  unkept (e ∷ es) = elim (Bool-cases (is_kept s additional e)) [
    | inl k ↦ rw k (unkept es)
    | inr k ↦ rw k (k, unkept es)
  ]

  module _ {D : Type 0} (port : AudioCachePort D)
      (spares : (e g : CacheEntry) (d : D)
        → text_eq g.path e.path ≡ false
        → In g (port.inventory d)
        → In g (port.inventory (port.delete e.path d).1)) where
    evicted_one-disk :
        (e : CacheEntry) (w : Eviction D) (r : Option Bool × D)
        → (evicted_one port e w r).disk ≡ r.1
    evicted_one-disk e w (none, d) = refl
    evicted_one-disk e w (some true, d) = refl
    evicted_one-disk e w (some false, d) = refl

    evict-In :
        (max_bytes : ℕ) (es : List CacheEntry) (w : Eviction D)
        → All (λ e. is_kept s additional e ≡ false) es
        → In f (port.inventory w.disk)
        → In f (port.inventory (evict port max_bytes es w).disk)
    evict-In max_bytes [] w h i = i
    evict-In max_bytes (e ∷ es) w h i = elim (Bool-cases (leb w.remaining_bytes max_bytes)) [
      | inl fits ↦ rw fits i
      | inr over ↦ rw over (
          evict-In max_bytes es (evicted_one port e w (port.delete e.path w.disk)) h.1 (
            rw (evicted_one-disk e w (port.delete e.path w.disk))
              (spares e f w.disk (other_path e h.0) i)))
    ]

    purged_one-disk :
        (e : CacheEntry) (w : Purge D) (r : Option Bool × D) → (purged_one port e w r).disk ≡ r.1
    purged_one-disk e w (none, d) = refl
    purged_one-disk e w (some true, d) = refl
    purged_one-disk e w (some false, d) = refl

    purge_step-In :
        (e : CacheEntry) (w : Purge D) (b : Bool)
        → is_kept s additional e ≡ b
        → In f (port.inventory w.disk)
        → In f
            (port.inventory (if b then w else purged_one port e w (port.delete e.path w.disk)).disk)
    purge_step-In e w true h i = i
    purge_step-In e w false h i =
        rw (purged_one-disk e w (port.delete e.path w.disk)) (spares e f w.disk (other_path e h) i)

    purge_each-In :
        (es : List CacheEntry) (w : Purge D)
        → In f (port.inventory w.disk)
        → In f (port.inventory (purge_each port (is_kept s additional) es w).disk)
    purge_each-In [] w i = i
    purge_each-In (e ∷ es) w i =
        purge_each-In es _ (purge_step-In e w (is_kept s additional e) refl i)

    -- Enforcing any limit leaves on the disk every entry that was there and whose path is protected
    -- by the store or by the caller, if a deletion leaves the entries of other paths alone.
    pub enforce-protected :
        (max_bytes : ℕ) (d : D)
        → In f (port.inventory d)
        → In f (port.inventory (enforce port max_bytes additional s d).1.1)
    unfolding enforce candidates
    enforce-protected max_bytes d i =
        evict-In max_bytes (candidates port s additional (port.inventory d)) _
          (All-sort_by by_access _ _ (unkept (port.inventory d))) i

    -- A purge leaves on the disk every entry that was there and whose path is protected by the
    -- store or by the caller, if a deletion leaves the entries of other paths alone.
    pub purge-protected :
        (d : D) → In f (port.inventory d) → In f (port.inventory (purge port additional s d).1.1)
    unfolding purge
    purge-protected d i = purge_each-In (port.inventory d) _ i
