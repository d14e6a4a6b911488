-- ===== src/Tests/Cache.antt =====
-- The theorems about the cache at a disk that is a list of files, from which a deletion removes the
-- files of one path.
use ai_tts.Common.{
  ◌≡◌, refl, Bool, false, String, some, List, [], ◌∷◌, is_some, inl, inr, text_eq, Bool-cases,
}
use ai_tts.Common.Table.{find, delete_where}
use ai_tts.Common.Sorting.{In}
use ai_tts.Cache.{CacheEntry, AudioCachePort, enforce, purge}
use ai_tts.Cache.Bound.{enforce-protected, purge-protected}
use ai_tts.Store.Reads.{is_protected}
use ai_tts.Tests.Data.{three}

abbrev at_path : String → CacheEntry → Bool
at_path p e = text_eq e.path p

abbrev list_port : AudioCachePort (List CacheEntry)
list_port = record {
  inventory = λ d. d;
  delete = λ p d. (some (is_some (find (at_path p) d)), delete_where (at_path p) d);
  touch = λ p d. (some (is_some (find (at_path p) d)), d);
}

list_port-spares :
    (e g : CacheEntry) (d : List CacheEntry)
    → text_eq g.path e.path ≡ false
    → In g d
    → In g (delete_where (at_path e.path) d)
list_port-spares e g [] h i = i
list_port-spares e g (x ∷ d) h (inl here) = rw (here, h) (inl refl)
list_port-spares e g (x ∷ d) h (inr later) = elim (Bool-cases (at_path e.path x)) [
  | inl gone ↦ rw gone (list_port-spares e g d h later)
  | inr stays ↦ rw stays (inr (list_port-spares e g d h later))
]

abbrev owed : CacheEntry
owed = record { path = "owed.wav"; size_bytes = 700; last_access_ns = 1 }

abbrev heard : CacheEntry
heard = record { path = "heard.wav"; size_bytes = 400; last_access_ns = 2 }

enforce-protected_example :
    In owed (enforce list_port 800 ("owed.wav" ∷ []) three (heard ∷ owed ∷ [])).1.1
unfolding is_protected
enforce-protected_example =
    enforce-protected three ("owed.wav" ∷ []) owed refl list_port list_port-spares 800
      (heard ∷ owed ∷ []) (inr (inl refl))

purge-protected_example : In owed (purge list_port ("owed.wav" ∷ []) three (heard ∷ owed ∷ [])).1.1
unfolding is_protected
purge-protected_example =
    purge-protected three ("owed.wav" ∷ []) owed refl list_port list_port-spares (heard ∷ owed ∷ [])
      (inr (inl refl))
