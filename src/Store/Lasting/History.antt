-- ===== src/Store/Lasting/History.antt =====
-- What lasts in an utterance through every call of the store, deletions included.
use ai_tts.Common.{
  ◌≡◌, refl, ◌⊎◌, inl, inr, Bool, true, false, ◌&&◌, String, none, some, List, [], ◌∷◌, map, eq_iff,
  arith, distinct, mem_text, Bool-cases,
}
use ai_tts.Common.Table.{find, delete_where, find-delete_where_spared}
use ai_tts.Model.{Utterance, state_in, terminal}
use ai_tts.Store.{Store}
use ai_tts.Store.Reads.{has_id, get}
use ai_tts.Store.Queue.{delete_utterances, remove_history, clear_history}
use ai_tts.Store.Calls.{
  Call, after, deletes, submits, moves, moves_segment, claims, starts_streaming, discards_job,
  finishes, fails, restarts, resets_from, skips, suspends, heads, clears_queue, clears_pending,
  reorders, removes, clears_history, forgets_audio, binds_engine, claims_voice, pins_voice,
  releases_voice, sets, recovers,
}
use ai_tts.Store.Lasting.{
  Lasting, Lasting-refl, Lasts, IsKeyed, transition-Lasts, transition_segment-Lasts,
}
use ai_tts.Store.Lasting.Methods.{
  submit-Lasts, claim-Lasts, start_streaming-Lasts, discard_streaming_job-Lasts,
  finish_synthesis-Lasts, fail_synthesis-Lasts,
}
use ai_tts.Store.Lasting.Playback.{
  restart-Lasts, reset-Lasts, skip-Lasts, suspend-Lasts, move_to_head-Lasts, clear_queue-Lasts,
  clear_pending-Lasts, reorder-Lasts, forget-Lasts, bind_legacy-Lasts, claim_voice-Lasts,
  pin_voice-Lasts, release_voice-Lasts, set_setting-Lasts, recover-Lasts,
}

-- A call that deletes no history keeps every utterance and what lasts in it.
pub after-Lasts : (s : Store) (c : Call) → deletes c ≡ false → Lasts s (after s c)
unfolding after
after-Lasts s (submits id sub) h = (submit-Lasts id sub).at s
after-Lasts s (moves id to ch) h = (transition-Lasts id to ch).at s
after-Lasts s (moves_segment id i to ch) h = (transition_segment-Lasts id i to ch).at s
after-Lasts s (claims held unbound) h = (claim-Lasts held unbound).at s
after-Lasts s (starts_streaming w) h = (start_streaming-Lasts w).at s
after-Lasts s (discards_job a) h = (discard_streaming_job-Lasts a).at s
after-Lasts s (finishes w path d) h = (finish_synthesis-Lasts w path d).at s
after-Lasts s (fails w error) h = (fail_synthesis-Lasts w error).at s
after-Lasts s (restarts id) h = (restart-Lasts id).at s
after-Lasts s (resets_from id i) h = (reset-Lasts id i).at s
after-Lasts s (skips id i position total) h = (skip-Lasts id i position total).at s
after-Lasts s (suspends id i position) h = (suspend-Lasts id i position).at s
after-Lasts s (heads id) h = (move_to_head-Lasts id).at s
after-Lasts s (clears_queue q) h = (clear_queue-Lasts q).at s
after-Lasts s clears_pending h = clear_pending-Lasts.at s
after-Lasts s (reorders ids) h = (reorder-Lasts ids).at s
after-Lasts s (removes id) h = cc
after-Lasts s clears_history h = cc
after-Lasts s (forgets_audio path) h = (forget-Lasts path).at s
after-Lasts s (binds_engine name) h = (bind_legacy-Lasts name).at s
after-Lasts s (claims_voice source voice) h = (claim_voice-Lasts source voice).at s
after-Lasts s (pins_voice source voice) h = (pin_voice-Lasts source voice).at s
after-Lasts s (releases_voice source) h = (release_voice-Lasts source).at s
after-Lasts s (sets key value) h = (set_setting-Lasts key value).at s
after-Lasts s recovers h = recover-Lasts.at s

-- Deleting rows leaves the others' identifiers distinct.
mem-delete :
    (p : Utterance → Bool) (id : String) (us : List Utterance)
    → mem_text id (map (λ u. u.id) us) ≡ false
    → mem_text id (map (λ u. u.id) (delete_where p us)) ≡ false
mem-delete p id [] h = refl
mem-delete p id (u ∷ us) h = ground (arith, mem-delete p id us)

distinct-delete :
    (p : Utterance → Bool) (us : List Utterance)
    → distinct (map (λ u. u.id) us) ≡ true
    → distinct (map (λ u. u.id) (delete_where p us)) ≡ true
distinct-delete p [] d = refl
distinct-delete p (u ∷ us) d = ground (arith, distinct-delete p us, mem-delete p u.id us)

absent_row :
    (p : Utterance → Bool) (id : String) (us : List Utterance)
    → mem_text id (map (λ u. u.id) us) ≡ false
    → find (has_id id) (delete_where p us) ≡ none
absent_row p id [] h = refl
absent_row p id (u ∷ us) h = ground (arith, absent_row p id us, eq_iff id u.id, eq_iff u.id id)

-- Where identifiers are distinct, a deleted row is found no more.
find-delete_where_hit :
    (p : Utterance → Bool) (id : String) (us : List Utterance) (u : Utterance)
    → distinct (map (λ u. u.id) us) ≡ true
    → find (has_id id) us ≡ some u
    → p u ≡ true
    → find (has_id id) (delete_where p us) ≡ none
find-delete_where_hit p id [] u d e h = refl
find-delete_where_hit p id (x ∷ us) u d e h =
    ground
      (arith, find-delete_where_hit p id us u, absent_row p id us, eq_iff id x.id, eq_iff x.id id)

-- What becomes of an utterance: it stays, unchanged in what lasts, or it was closed and is deleted.
abbrev pub Fate : String → Utterance → Store → Type 0
Fate id u t =
    ((v : Utterance) × (get id t ≡ some v) × Lasting u v)
    ⊎ ((state_in u.state terminal ≡ true) × (get id t ≡ none))

delete-Fate :
    (p : Utterance → Bool) (s : Store) (id : String) (u : Utterance)
    → ((x : Utterance) → p x ≡ true → state_in x.state terminal ≡ true)
    → IsKeyed s
    → get id s ≡ some u
    → Fate id u (delete_utterances p s).1
unfolding delete_utterances get
delete-Fate p s id u closed d e = elim (Bool-cases (p u)) [
  | inl hit ↦ inr (closed u hit, find-delete_where_hit p id s.utterances u d e hit)
  | inr spared ↦
      inl (u, find-delete_where_spared (has_id id) p s.utterances {x = u} e spared, Lasting-refl u)
]

-- Whatever method is called, and whether it returns or raises, an utterance of the database is
-- still there afterwards with its identifier, text, voice, speed, sensitivity, priority, time of
-- submission, source and original, with its engine if it had one, and in the same state if that
-- was terminal; or its state was terminal and the call has deleted it. The condition is that no
-- two rows of the database have one identifier.
pub after-Fate :
    (s : Store) (c : Call) (id : String) (u : Utterance)
    → IsKeyed s
    → get id s ≡ some u
    → Fate id u (after s c)
unfolding after remove_history clear_history delete_utterances
after-Fate s (removes j) id u d e =
    delete-Fate (λ x. has_id j x && state_in x.state terminal) s id u (λ x h. ground arith) d e
after-Fate s clears_history id u d e =
    delete-Fate (λ x. state_in x.state terminal) s id u (λ x h. h) d e
after-Fate s c id u d e = inl ((after-Lasts s c refl).at id u e)

-- If no two utterances of the database have one identifier then neither do any two after a call of
-- any method, whether it returns or raises.
pub after-IsKeyed : (s : Store) (c : Call) → IsKeyed s → IsKeyed (after s c)
unfolding after remove_history clear_history delete_utterances
after-IsKeyed s (removes j) d = distinct-delete _ s.utterances d
after-IsKeyed s clears_history d = distinct-delete _ s.utterances d
after-IsKeyed s c d = (after-Lasts s c refl).keyed d
