-- ===== src/Synthesis/Private.antt =====
-- Which engines src/aitts/synthesis.py lets have a text.
use ai_tts.Common.{
  ◌≡◌, refl, ap, sym, true, false, String, some, List, [], ◌∷◌, arith, distinct, mem_text, text_eq,
  eq_iff, Bool-cases, inl, inr,
}
use ai_tts.Model.{SynthesisWork}
use ai_tts.Store.{Error}
use ai_tts.Voices.{or_default}
use ai_tts.Synthesis.{
  Engine, Pool, Desk, is_public, names, local_names, eligible_engine_names, engine_named, render,
  speak, synthesize_one, synthesize_at, Outcome, gives, fails, finish, discard,
}

-- Two lists of engines under the same names, of which the local ones are the same.
abbrev pub SameLocal : {D : Type 0} → List (String × Engine D) → List (String × Engine D) → Type 0
SameLocal [] [] = Unit
SameLocal [] (f ∷ fs) = ⊥
SameLocal (e ∷ es) [] = ⊥
SameLocal ((n, e) ∷ es) ((m, f) ∷ fs) =
    (n ≡ m) × (e.is_local ≡ f.is_local) × (e.is_local ≡ true → e ≡ f) × SameLocal es fs

module _ {D : Type 0} where
  local_names-SameLocal :
      (es fs : List (String × Engine D)) → SameLocal es fs → local_names es ≡ local_names fs
  local_names-SameLocal [] [] h = refl
  local_names-SameLocal [] (f ∷ fs) h = absurd h
  local_names-SameLocal (e ∷ es) [] h = absurd h
  local_names-SameLocal ((n, e) ∷ es) ((m, f) ∷ fs) (same, l, _, rest) =
      rw (same, l, local_names-SameLocal es fs rest)

  local_names-mem_text :
      (name : String) (es : List (String × Engine D))
      → mem_text name (local_names es) ≡ true
      → mem_text name (names es) ≡ true
  local_names-mem_text name [] h = h
  local_names-mem_text name ((n, e) ∷ es) h =
      ground (arith, local_names-mem_text name es, Bool-cases e.is_local)

  -- Of engines with distinct names, one whose name is that of a local engine is local.
  engine_named-SameLocal :
      (name : String) (es fs : List (String × Engine D))
      → SameLocal es fs
      → distinct (names es) ≡ true
      → mem_text name (local_names es) ≡ true
      → engine_named name es ≡ engine_named name fs
  engine_named-SameLocal name [] fs s d h = absurd (ground arith)
  engine_named-SameLocal name (e ∷ es) [] s d h = absurd s
  engine_named-SameLocal name ((n, e) ∷ es) ((m, f) ∷ fs) (same, l, eq, rest) d h =
      elim (Bool-cases (text_eq n name)) [
        | inl here ↦
            let named : n ≡ name = (eq_iff n name).0 here in
            let apart : mem_text name (names es) ≡ false =
              (let free : mem_text n (names es) ≡ false = ground (arith, d) in rw named at free) in
            let local : e.is_local ≡ true =
              ground (arith, h, apart, local_names-mem_text name es) in
            rw (here, rw same at here) (ap some (eq local))
        | inr there ↦
            let elsewhere : text_eq m name ≡ false = rw same at there in
            let swapped : text_eq name n ≡ false =
              ground (arith, there, eq_iff name n, eq_iff n name) in
            rw (there, elsewhere)
              (engine_named-SameLocal name es fs rest (ground (arith, d))
                (ground (arith, h, swapped, Bool-cases e.is_local)))
      ]

  render-SameLocal :
      (pool : Pool D) (fs : List (String × Engine D)) (w : SynthesisWork) (path : String) (disk : D)
      → SameLocal pool.engines fs
      → distinct (names pool.engines) ≡ true
      → is_public w.sensitivity ≡ false
      → render pool w path disk ≡ render (record pool { engines = fs }) w path disk
  unfolding render eligible_engine_names
  render-SameLocal pool fs w path disk s d p =
      let name = or_default w.engine pool.engine_name in
      let same = local_names-SameLocal pool.engines fs s in
      elim (Bool-cases (mem_text name (local_names pool.engines))) [
        | inl eligible ↦
            rw (p, sym same, eligible)
              (ap (speak pool w name path disk)
                (engine_named-SameLocal name pool.engines fs s d eligible))
        | inr refused ↦ rw (p, sym same, refused)
      ]

  synthesize_at-SameLocal :
      (pool : Pool D) (fs : List (String × Engine D)) (message : Error → String)
      (meanwhile : Desk D → Desk D) (w : SynthesisWork) (target : Outcome String) (d : Desk D)
      → ((path : String)
          → render pool w path d.disk ≡ render (record pool { engines = fs }) w path d.disk)
      → synthesize_at pool message meanwhile w target d
        ≡ synthesize_at (record pool { engines = fs }) message meanwhile w target d
  unfolding synthesize_at finish discard
  synthesize_at-SameLocal pool fs message meanwhile w (fails text) d same = refl
  synthesize_at-SameLocal pool fs message meanwhile w (gives path) d same = rw (same path) refl

  -- What a worker does with text that is not public does not depend on the engines that are not
  -- local: with others in their place it does the same, if the engines have distinct names.
  pub synthesize_one-SameLocal :
      (pool : Pool D) (fs : List (String × Engine D)) (message : Error → String)
      (meanwhile : Desk D → Desk D) (w : SynthesisWork) (d : Desk D)
      → SameLocal pool.engines fs
      → distinct (names pool.engines) ≡ true
      → is_public w.sensitivity ≡ false
      → synthesize_one pool message meanwhile w d
        ≡ synthesize_one (record pool { engines = fs }) message meanwhile w d
  unfolding synthesize_one
  synthesize_one-SameLocal pool fs message meanwhile w d s n p =
      let (target, disk) = pool.artifacts.target w.id d.disk in
      synthesize_at-SameLocal pool fs message meanwhile w target (record d { disk = disk })
        (λ path. render-SameLocal pool fs w path disk s n p)
