-- ===== src/Pcm/Streams/Close.antt =====
-- What the close of the registry of src/aitts/streaming.py tells the players.
use ai_tts.Common.{
  if_either, ℕ, ◌≡◌, refl, subst, true, String, none, some, List, [], ◌∷◌, text_eq, ◌==◌, arith,
  Bool-cases, inl, inr, leb,
}
use ai_tts.Common.Int.{pos, ◌-ℤ◌, eq_ℤ}
use ai_tts.Common.Table.{find}
use ai_tts.Store.{raised, runtime_error}
use ai_tts.Pcm.Spool
use ai_tts.Pcm.Spool.{Spool, seal, or_error}
use ai_tts.Pcm.Streams.{Streams, has_artifact, add, reference, get, retire, retire_all, close}

abbrev stopped : String
stopped = "daemon stopped during generation"

-- The stream is finished, with that error.
abbrev Told : Spool → Type 0
Told x = (x.finished ≡ true) × (x.error ≡ some stopped)

close-Told : (x : Spool) → Told x → Told (Spool.close x)
unfolding Spool.close seal
close-Told x t = if_either Told x.closed _ _ (λ h. t) (λ h. t)

release-Told : (x : Spool) → Told x → Told (Spool.release x)
unfolding Spool.release
release-Told x t =
    let fewer = record x { owners = x.owners -ℤ pos 1 } in
    if_either Told (eq_ℤ fewer.owners (pos 0)) _ _ (λ h. close-Told fewer t) (λ h. t)

finish-Told : (x : Spool) → Told (Spool.release (Spool.finish (some stopped) x))
unfolding Spool.finish
finish-Told x =
    release-Told (record x { error = or_error (some stopped) x.error; finished = true })
      (refl, refl)

-- Retiring one source leaves those that were told so.
retire-Told : (h k : ℕ) (heap : ℕ → Spool) → Told (heap k) → Told (retire (some stopped) h heap k)
unfolding retire
retire-Told h k heap t = if_either Told (k == h) _ _ (λ e. finish-Told (heap k)) (λ e. t)

retired-Told : (h : ℕ) (heap : ℕ → Spool) → Told (retire (some stopped) h heap h)
unfolding retire
retired-Told h heap =
    if_either Told (h == h) _ _ (λ e. finish-Told (heap h)) (λ e. absurd (ground arith))

retire_all-Told :
    (rest : List (String × ℕ)) (k : ℕ) (heap : ℕ → Spool)
    → Told (heap k)
    → Told (retire_all (some stopped) rest heap k)
unfolding retire_all
retire_all-Told [] k heap t = t
retire_all-Told ((a, h) ∷ rest) k heap t =
    retire_all-Told rest k (retire (some stopped) h heap) (retire-Told h k heap t)

registered-Told :
    (id : String) (sources : List (String × ℕ)) (k : ℕ) (heap : ℕ → Spool)
    → reference (find (has_artifact id) sources) ≡ some k
    → Told (retire_all (some stopped) sources heap k)
unfolding retire_all
registered-Told id [] k heap e = absurd (ground arith)
registered-Told id ((a, h) ∷ rest) k heap e = elim (Bool-cases (text_eq a id)) [
  | inl here ↦
      let same : h ≡ k = ground (arith, rw here at e) in
      subst (λ j. Told (retire_all (some stopped) rest (retire (some stopped) h heap) j)) same
        (retire_all-Told rest h (retire (some stopped) h heap) (retired-Told h heap))
  | inr later ↦ registered-Told id rest k (retire (some stopped) h heap) (rw later at e)
]

-- What a player reads of such a stream: it gets the error, and the end with the last frame of the file.
read-Told :
    (n : ℕ) (x : Spool)
    → Told x
    → let r = Spool.read n x in
      (r.0.error ≡ some stopped) × (r.0.ended ≡ leb r.1.available r.1.position)
unfolding Spool.read
read-Told n x (f, e) = (e, rw f refl)

-- Once the registry is closed, every stream that it held is marked as finished, and each read of it
-- carries the error that the daemon has stopped and reports the end exactly if it reaches the last frame
-- of the file; the registry gives out no stream any more and raises RuntimeError for a new one.
pub close-get :
    (s : Streams) (id : String) (h : ℕ)
    → get id s ≡ some h
    → (((close s).heap h).finished ≡ true)
      × (((close s).heap h).error ≡ some "daemon stopped during generation")
      × ((n : ℕ)
          → let r = Spool.read n ((close s).heap h) in
            (r.0.error ≡ some "daemon stopped during generation")
            × (r.0.ended ≡ leb r.1.available r.1.position))
      × ((a : String) → get a (close s) ≡ none)
      × ((a : String) (k : ℕ) → (add a k (close s)).0 ≡ raised runtime_error)
unfolding get close add
close-get s id h e =
    let told = registered-Told id s.sources h s.heap e in
    (told.0, told.1, (λ n. read-Told n _ told), λ a. refl, λ a k. refl)
