-- ===== src/Synthesis/Settled.antt =====
-- What becomes of a unit of work in src/aitts/synthesis.py.
use ai_tts.Common.{
  ℕ, ◌≡◌, refl, ◌∙◌, Bool, true, false, String, Option, none, some, List, [], ◌∷◌, arith,
  Bool-cases, Option-cases, inl, inr, is_some, ◌⊎◌,
}
use ai_tts.Common.Table.{find, delete_where}
use ai_tts.Model.{SynthesisWork, Utterance, is_segment}
use ai_tts.Store.{Store, Error, Result, ok, raised}
use ai_tts.Store.Reads.{get, get_segment}
use ai_tts.Store.Streaming.{
  is_job, streaming_job, synthesis_work_is_active, discard_streaming_job, finish_synthesis,
  fail_synthesis,
}
use ai_tts.Pcm.Streams.{Streams}
use ai_tts.Synthesis.{
  Outcome, gives, fails, Pool, Desk, pure, continue, check, publish, record_failure, discard, own,
  settle, finish, retire, finish_stream, stream_error, duration_of, validated, relabelled, render,
  ◌>>=◌, synthesize_at, synthesize_one,
}
use ai_tts.Synthesis.Concluded.{Concluded}
use ai_tts.Synthesis.Part.{fail_part, finish_part}
use ai_tts.Synthesis.Whole.{fail_whole, finish_whole}

find-deleted :
    {A : Type 0} (p : A → Bool) (xs : List A) → is_some (find p (delete_where p xs)) ≡ false
find-deleted p [] = refl
find-deleted p (x ∷ xs) = elim (Bool-cases (p x)) [
  | inl gone ↦ rw gone (find-deleted p xs)
  | inr kept ↦ rw (kept, kept) (find-deleted p xs)
]

-- A result is no exception, where that is certain.
abbrev Returns : {A : Type 0} → Bool → Result A → Type 0
Returns certain (ok a) = Unit
Returns true (raised e) = ⊥
Returns false (raised e) = Unit

abbrev Settled : SynthesisWork → Store → Type 0
Settled w s = (streaming_job w s ≡ false) × (synthesis_work_is_active w s ≡ false)

abbrev without_job : SynthesisWork → Store → Store
without_job w s = record s { streaming_jobs = delete_where (is_job w.id) s.streaming_jobs }

without_job-streaming : (w : SynthesisWork) (s : Store) → streaming_job w (without_job w s) ≡ false
unfolding streaming_job
without_job-streaming w s = find-deleted (is_job w.id) s.streaming_jobs

-- What no job streams is as active without its job.
without_job-active :
    (w : SynthesisWork) (s : Store) (o : Option Utterance)
    → streaming_job w s ≡ false
    → get w.utterance_id s ≡ o
    → synthesis_work_is_active w (without_job w s) ≡ synthesis_work_is_active w s
unfolding synthesis_work_is_active get get_segment
without_job-active w s none j e = simp e refl
without_job-active w s (some u) j e = simp (e, j, without_job-streaming w s) refl

without_job-Settled : (w : SynthesisWork) (s : Store) → Settled w s → Settled w (without_job w s)
without_job-Settled w s (j, h) =
    (without_job-streaming w s, without_job-active w s (get w.utterance_id s) j refl ∙ h)

module _ (w : SynthesisWork) (certain : Bool)
    (failing : (error : String) (s : Store)
      → streaming_job w s ≡ false
      → synthesis_work_is_active w s ≡ true
      → let r = fail_synthesis w error s in Returns certain r.0 × Settled w r.1 × Concluded w r.1)
    (finishing : (path : String) (duration : Option ℕ) (s : Store)
      → streaming_job w s ≡ false
      → synthesis_work_is_active w s ≡ true
      → let t = (finish_synthesis w path duration s).1 in Settled w t × Concluded w t)
    (TakenAway : Type 0) {D : Type 0} (pool : Pool D) (message : Error → String) where
  abbrev Settles : {A : Type 0} → Result A × Desk D → Type 0
  Settles r = Returns certain r.0 × Settled w r.1.store × (Concluded w r.1.store ⊎ TakenAway)

  record_failure-Settles :
      (error : String) (d : Desk D)
      → streaming_job w d.store ≡ false
      → (synthesis_work_is_active w d.store ≡ false → Concluded w d.store ⊎ TakenAway)
      → Settles (record_failure w error d)
  unfolding record_failure
  record_failure-Settles error d j gone = elim (Bool-cases (synthesis_work_is_active w d.store)) [
    | inl active ↦
        let (certainly, settled, concluded) = failing error d.store j active in
        simp active (certainly, settled, inl concluded)
    | inr over ↦ simp over (tt, (j, refl), gone over)
  ]

  then_Settles :
      {A B : Type 0} (r : Result A × Desk D) (b : B)
      → Settles r
      → Settles (continue r (λ _. pure b))
  then_Settles (ok a, d) b (x, i, c) = (tt, i, c)
  then_Settles {A = A} {B = B} (raised e, d) b (x, i, c) = (by_certain certain x, i, c)
    where
      by_certain : (c : Bool) → Returns {A = A} c (raised e) → Returns {A = B} c (raised e)
      by_certain true x = x
      by_certain false x = tt

  own-Settles :
      (published : String) (r : Result (Unit {0})) (d : Desk D)
      → Settled w d.store
      → Concluded w d.store
      → Settles (own pool message w published r d)
  unfolding discard
  own-Settles published (ok _) d h c = (tt, h, inl c)
  own-Settles published (raised e) d h c =
      let next = record d { disk = (pool.artifacts.discard published d.disk).1 } in
      then_Settles (record_failure w _ next) false
        (record_failure-Settles _ next h.0 (λ over. inl c))

  settle-Settles :
      (path : String) (duration : Option ℕ) (published : Outcome String) (d : Desk D)
      → streaming_job w d.store ≡ false
      → synthesis_work_is_active w d.store ≡ true
      → Settles (settle pool message w path duration published d)
  unfolding discard
  settle-Settles path duration (fails text) d j a =
      let next = record d { disk = (pool.artifacts.discard path d.disk).1 } in
      then_Settles (record_failure w text next) false
        (record_failure-Settles text next j (λ over. absurd (ground (arith, over, a))))
  settle-Settles path duration (gives published) d j a =
      let (r, s) = finish_synthesis w published duration d.store in
      own-Settles published r (record d { store = s }) (finishing published duration d.store j a).0
        (finishing published duration d.store j a).1

  publish-Settles :
      (path : String) (duration : Option ℕ) (checked : Outcome (Unit {0})) (d : Desk D)
      → streaming_job w d.store ≡ false
      → synthesis_work_is_active w d.store ≡ true
      → Settles (
          continue
            (publish pool w path checked d)
            (λ published. settle pool message w path duration published))
  publish-Settles path duration (fails text) d j a = settle-Settles path duration (fails text) d j a
  publish-Settles path duration (gives _) d j a =
      let (published, disk) = pool.artifacts.publish w.id path d.disk in
      settle-Settles path duration (relabelled "artifact publication failed: " published)
        (record d { disk = disk }) j a

  check-Settles :
      (r : Outcome ℕ) (path : String) (d : Desk D)
      → streaming_job w d.store ≡ false
      → synthesis_work_is_active w d.store ≡ true
      → Settles (
          continue (check pool path r d) (λ checked. publish pool w path checked >>= λ published.
          settle pool message w path (duration_of r) published))
  check-Settles (fails text) path d j a = publish-Settles path none (fails text) d j a
  check-Settles (gives duration) path d j a =
      let (usable, disk) = pool.artifacts.is_usable path d.disk in
      publish-Settles path (some duration) (validated usable) (record d { disk = disk }) j a

  finish-Settles :
      (r : Outcome ℕ) (path : String) (d : Desk D)
      → streaming_job w d.store ≡ false
      → (synthesis_work_is_active w d.store ≡ false → TakenAway)
      → Settles (finish pool message w r path d)
  unfolding finish discard
  finish-Settles r path d j gone = elim (Bool-cases (synthesis_work_is_active w d.store)) [
    | inr over ↦ simp over (tt, (j, refl), inr (gone over))
    | inl active ↦ simp active (check-Settles r path d j active)
  ]

  retire-Settles :
      (error : Option String) (streams : Option Streams) (d : Desk D)
      → Settled w d.store
      → Concluded w d.store ⊎ TakenAway
      → Settles (retire w error streams d)
  unfolding discard_streaming_job get get_segment
  retire-Settles error none d h c = (tt, h, c)
  retire-Settles error (some streams) d h c = (tt, without_job-Settled w d.store h, c)

  finished_then :
      (r : Outcome ℕ) (f : Result Bool × Desk D)
      → Settles f
      → Settles (continue f (λ published. finish_stream w (stream_error r published)))
  unfolding finish_stream
  finished_then r (ok b, d) (x, h, c) = retire-Settles (stream_error r b) d.streams d h c
  finished_then r (raised e, d) (x, h, c) = (by_certain certain x, h, c)
    where
      by_certain :
          (c : Bool) → Returns {A = Bool} c (raised e) → Returns {A = Unit {0}} c (raised e)
      by_certain true x = x
      by_certain false x = tt

  synthesize_at-Settles :
      (meanwhile : Desk D → Desk D) (target : Outcome String) (d : Desk D)
      → streaming_job w d.store ≡ false
      → ((x : Desk D)
          → streaming_job w x.store ≡ false
          → streaming_job w (meanwhile x).store ≡ false)
      → (synthesis_work_is_active w d.store ≡ false → TakenAway)
      → ((path : String)
          → target ≡ gives path
          → synthesis_work_is_active w
              (meanwhile (record d { disk = (render pool w path d.disk).1 })).store
            ≡ false
          → TakenAway)
      → Settles (synthesize_at pool message meanwhile w target d)
  unfolding synthesize_at
  synthesize_at-Settles meanwhile (fails text) d j m gone left =
      record_failure-Settles _ d j (λ over. inr (gone over))
  synthesize_at-Settles meanwhile (gives path) d j m gone left =
      let (r, disk) = render pool w path d.disk in
      let back = meanwhile (record d { disk = disk }) in
      finished_then r (finish pool message w r path back)
        (finish-Settles r path back (m (record d { disk = disk }) j) (left path refl))

returned : (r : Result (Unit {0})) → Returns true r → r ≡ ok tt
returned (ok _) h = refl
returned (raised e) h = absurd h

uncertain : (r : Result (Unit {0})) → Returns false r
uncertain (ok _) = tt
uncertain (raised e) = tt

-- The unit was no longer active when the worker took it up, or after the other tasks had run, once
-- the target was given and the unit was rendered to it.
abbrev pub TakenAway : {D : Type 0} → Pool D → SynthesisWork → (Desk D → Desk D) → Desk D → Type 0
TakenAway pool w meanwhile d =
    let (target, disk) = pool.artifacts.target w.id d.disk in
    (synthesis_work_is_active w d.store ≡ false)
    ⊎ ((path : String) × (target ≡ gives path)
        × (synthesis_work_is_active w
              (meanwhile (record d { disk = (render pool w path disk).1 })).store
            ≡ false))

-- Whatever the engines, the artifact port and the other tasks do, a unit of work that a worker has
-- synthesized is no longer active: its row is ready or failed, or it was no longer active already
-- when the worker took it up or once the other tasks had run; and the worker returns without an
-- exception if the unit is a whole utterance. The conditions are that nothing streams the unit at
-- first and that the other tasks start no stream of it.
pub synthesize_one-settled :
    {D : Type 0} (pool : Pool D) (message : Error → String) (meanwhile : Desk D → Desk D)
    (w : SynthesisWork) (d : Desk D)
    → streaming_job w d.store ≡ false
    → ((x : Desk D) → streaming_job w x.store ≡ false → streaming_job w (meanwhile x).store ≡ false)
    → let r = synthesize_one pool message meanwhile w d in
      (synthesis_work_is_active w r.1.store ≡ false)
      × (Concluded w r.1.store ⊎ TakenAway pool w meanwhile d)
      × (is_segment w ≡ false → r.0 ≡ ok tt)
unfolding synthesize_one is_segment
synthesize_one-settled pool message meanwhile w d j m =
    let (target, disk) = pool.artifacts.target w.id d.disk in
    let start = record d { disk = disk } in
    elim (Option-cases w.segment_index) [
      | inl whole ↦
          let (certain, h, c) =
            synthesize_at-Settles w true
              (λ error s k a.
                let (e, f, g, st) = fail_whole w whole error s k a in (rw e tt, (f, g), inr st))
              (λ path duration s k a.
                let (_, f, g, st) = finish_whole w whole path duration s k a in ((f, g), inl st))
              (TakenAway pool w meanwhile d) pool message meanwhile target start j m (λ h. inl h)
              (λ path e h. inr (path, e, h)) in
          (h.1, c, λ _. returned (synthesize_at pool message meanwhile w target start).0 certain)
      | inr (i, part) ↦
          let (_, h, c) =
            synthesize_at-Settles w false
              (λ error s k a.
                let (f, g, st) = fail_part w i error s part k a in
                (uncertain (fail_synthesis w error s).0, (f, g), inr st))
              (λ path duration s k a.
                let (f, g, st) = finish_part w i path duration s part k a in ((f, g), inl st))
              (TakenAway pool w meanwhile d) pool message meanwhile target start j m (λ h. inl h)
              (λ path e h. inr (path, e, h)) in
          (h.1, c, λ n. absurd (ground (arith, n, part)))
    ]
