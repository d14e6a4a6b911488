-- ===== src/Synthesis.antt =====
-- src/aitts/synthesis.py and `eligible_engine_names` of src/aitts/engine.py: how a worker of the pool
-- turns a claimed unit of work into audio. The artifact port and the engines act on a `Disk` of the
-- caller's choice. What the other tasks of the event loop do while the renderer's thread runs is an
-- argument. No engine streams, and the evidence recorder is absent.
pub mod Private
pub mod Rest
pub mod Part
pub mod Whole
pub mod Concluded
pub mod Settled
use Prim.Native.String.{◌++◌}
use ai_tts.Common.{
  ℕ, suc, ◌-◌, Bool, true, false, String, Option, none, some, List, [], ◌∷◌, text_eq, mem_text,
  if◌then◌else◌,
}
use ai_tts.Model.{Sensitivity, public, SynthesisWork}
use ai_tts.Store.{Store, Error, Result, ok, raised}
use ai_tts.Store.Exec.{Exec}
use ai_tts.Store.Synthesis.{claim_for_synthesis}
use ai_tts.Store.Streaming.{
  discard_streaming_job, synthesis_work_is_active, finish_synthesis, fail_synthesis,
}
use ai_tts.Pcm.Streams
use ai_tts.Pcm.Streams.{Streams}
use ai_tts.Voices.{or_default}

-- What a call gives, or the text of the exception that it raises.
pub data Outcome (A : Type 0) : Type 0 where
  gives : A → Outcome A
  fails : String → Outcome A

-- `AudioArtifactPort`.
pub record AudioArtifactPort (D : Type 0) : Type 0 where
  pub target : String → D → Outcome String × D
  pub is_usable : String → D → Outcome Bool × D
  pub publish : String → String → D → Outcome String × D
  pub discard : String → D → Outcome Bool × D

-- `Engine`; `synthesize` takes the text, the voice, the speed and the path.
pub record Engine (D : Type 0) : Type 0 where
  pub is_local : Bool
  pub synthesize : String → String → ℕ → String → D → Outcome ℕ × D

abbrev pub is_public : Sensitivity → Bool
is_public public = true
is_public Sensitivity.internal = false
is_public Sensitivity.confidential = false

-- The engines by name.
abbrev pub names : {D : Type 0} → List (String × Engine D) → List String
names [] = []
names ((name, e) ∷ es) = name ∷ names es

abbrev pub local_names : {D : Type 0} → List (String × Engine D) → List String
local_names [] = []
local_names ((name, e) ∷ es) = let rest = local_names es in if e.is_local then name ∷ rest else rest

unfoldable pub eligible_engine_names :
    {D : Type 0} → List (String × Engine D) → Sensitivity → List String
eligible_engine_names engines sensitivity =
    if is_public sensitivity then names engines else local_names engines

abbrev pub engine_named : {D : Type 0} → String → List (String × Engine D) → Option (Engine D)
engine_named key [] = none
engine_named key ((name, e) ∷ es) = if text_eq name key then some e else engine_named key es

-- What a `SynthesisPool` is made of: `_engine.name`, `_engines`, `_prepare_engine`, `_artifacts`.
pub record Pool (D : Type 0) : Type 0 where
  pub engine_name : String
  pub engines : List (String × Engine D)
  pub prepare_engine : String → D → Outcome (Unit {0}) × D
  pub artifacts : AudioArtifactPort D

-- What the pool's workers act on.
pub record Desk (D : Type 0) : Type 0 where
  pub store : Store
  pub disk : D
  pub streams : Option Streams
  pub active_jobs : ℕ
  pub parks : ℕ

abbrev pub Job : Type 0 → Type 0 → Type 0
Job D A = Desk D → Result A × Desk D

abbrev pub pure : {D A : Type 0} → A → Job D A
pure a d = (ok a, d)

abbrev pub continue : {D A B : Type 0} → Result A × Desk D → (A → Job D B) → Result B × Desk D
continue (ok a, d) f = f a d
continue (raised e, d) f = (raised e, d)

infixl 5 ◌>>=◌ ◌>>◌
abbrev pub ◌>>=◌ : {D A B : Type 0} → Job D A → (A → Job D B) → Job D B
◌>>=◌ m f d = continue (m d) f

abbrev pub ◌>>◌ : {D A B : Type 0} → Job D A → Job D B → Job D B
m >> k = m >>= λ _. k

abbrev pub gets : {D A : Type 0} → (Desk D → A) → Job D A
gets f d = (ok (f d), d)

abbrev pub modify : {D : Type 0} → (Desk D → Desk D) → Job D (Unit {0})
modify f d = (ok tt, f d)

abbrev pub on_disk : {D A : Type 0} → (D → A × D) → Job D A
on_disk f d = let (a, disk) = f d.disk in (ok a, record d { disk = disk })

abbrev pub on_store : {D A : Type 0} → Exec A → Job D A
on_store m d = let (r, s) = m d.store in (r, record d { store = s })

-- A call of the store under `except Exception`.
abbrev pub attempt : {D A : Type 0} → Exec A → Job D (Result A)
attempt m d = let (r, s) = m d.store in (ok r, record d { store = s })

-- `repr` of a name without quotes and escapes.
abbrev pub quoted : String → String
quoted name = "'" ++ name ++ "'"

abbrev pub call_engine :
    {D : Type 0} → Engine D → SynthesisWork → String → Outcome (Unit {0}) × D → Outcome ℕ × D
call_engine e w path (fails text, disk) = (fails text, disk)
call_engine e w path (gives _, disk) = e.synthesize w.text w.voice w.speed path disk

-- `self._engines[name]`, then its preparation and its call.
abbrev pub speak :
    {D : Type 0} → Pool D → SynthesisWork → String → String → D → Option (Engine D) → Outcome ℕ × D
speak pool w name path disk none = (fails (quoted name), disk)
speak pool w name path disk (some e) = call_engine e w path (pool.prepare_engine name disk)

unfoldable pub render : {D : Type 0} → Pool D → SynthesisWork → String → D → Outcome ℕ × D
render pool w path disk =
    let name = or_default w.engine pool.engine_name in
    if mem_text name (eligible_engine_names pool.engines w.sensitivity)
    then speak pool w name path disk (engine_named name pool.engines)
    else (
      fails
          ("engine " ++ quoted name ++ " is unavailable or disallowed for this clip's sensitivity"),
      disk,
    )

-- `_discard`: a failure is only logged.
unfoldable pub discard : {D : Type 0} → Pool D → String → Job D (Unit {0})
discard pool path = do _ ← on_disk (pool.artifacts.discard path); pure tt

unfoldable pub record_failure : {D : Type 0} → SynthesisWork → String → Job D (Unit {0})
record_failure w error = do
  active ← gets (λ d. synthesis_work_is_active w d.store)
  if active then on_store (fail_synthesis w error) else pure tt

abbrev pub validated : Outcome Bool → Outcome (Unit {0})
validated (fails text) = fails ("artifact validation failed: " ++ text)
validated (gives false) = fails "synthesis produced no usable audio artifact"
validated (gives true) = gives tt

abbrev pub relabelled : String → Outcome String → Outcome String
relabelled label (fails text) = fails (label ++ text)
relabelled label (gives path) = gives path

-- The candidate is checked, unless the render failed.
abbrev pub check : {D : Type 0} → Pool D → String → Outcome ℕ → Job D (Outcome (Unit {0}))
check pool path (fails text) = pure (fails text)
check pool path (gives duration) = do
  usable ← on_disk (pool.artifacts.is_usable path)
  pure (validated usable)

abbrev pub publish :
    {D : Type 0} → Pool D → SynthesisWork → String → Outcome (Unit {0}) → Job D (Outcome String)
publish pool w path (fails text) = pure (fails text)
publish pool w path (gives _) = do
  published ← on_disk (pool.artifacts.publish w.id path)
  pure (relabelled "artifact publication failed: " published)

abbrev pub duration_of : Outcome ℕ → Option ℕ
duration_of (gives duration) = some duration
duration_of (fails text) = none

-- The store has become the owner of what is published, or it is discarded; `message` is `str(exc)`.
abbrev pub own :
    {D : Type 0}
    → Pool D
    → (Error → String)
    → SynthesisWork
    → String
    → Result (Unit {0})
    → Job D Bool
own pool message w published (ok _) = pure true
own pool message w published (raised e) = do
  discard pool published
  record_failure w ("artifact metadata failed: " ++ message e)
  pure false

abbrev pub settle :
    {D : Type 0}
    → Pool D
    → (Error → String)
    → SynthesisWork
    → String
    → Option ℕ
    → Outcome String
    → Job D Bool
settle pool message w path duration (fails text) = do
  discard pool path
  record_failure w text
  pure false
settle pool message w path duration (gives published) = do
  owned ← attempt (finish_synthesis w published duration)
  own pool message w published owned

-- `_finish`, of a render that gave a duration or failed.
unfoldable pub finish :
    {D : Type 0} → Pool D → (Error → String) → SynthesisWork → Outcome ℕ → String → Job D Bool
finish pool message w rendered path = do
  active ← gets (λ d. synthesis_work_is_active w d.store)
  if active
      then (do
        checked ← check pool path rendered
        published ← publish pool w path checked
        settle pool message w path (duration_of rendered) published)
      else discard pool path >> pure false

abbrev pub retire : {D : Type 0} → SynthesisWork → Option String → Option Streams → Job D (Unit {0})
retire w error none = pure tt
retire w error (some streams) = do
  on_store (discard_streaming_job w.id)
  modify (λ d. record d { streams = some (Streams.finish w.id error streams) })

unfoldable pub finish_stream : {D : Type 0} → SynthesisWork → Option String → Job D (Unit {0})
finish_stream w error = do streams ← gets (λ d. d.streams); retire w error streams

abbrev pub stream_error : Outcome ℕ → Bool → Option String
stream_error (fails text) published = some text
stream_error (gives duration) true = none
stream_error (gives duration) false = some "stream publication failed"

-- From the path that the artifact port has given, or failed to give.
unfoldable pub synthesize_at :
    {D : Type 0}
    → Pool D
    → (Error → String)
    → (Desk D → Desk D)
    → SynthesisWork
    → Outcome String
    → Job D (Unit {0})
synthesize_at pool message meanwhile w (fails text) =
    record_failure w ("artifact target failed: " ++ text)
synthesize_at pool message meanwhile w (gives path) = do
  rendered ← on_disk (render pool w path)
  modify meanwhile
  published ← finish pool message w rendered path
  finish_stream w (stream_error rendered published)

unfoldable pub synthesize_one :
    {D : Type 0} → Pool D → (Error → String) → (Desk D → Desk D) → SynthesisWork → Job D (Unit {0})
synthesize_one pool message meanwhile w = do
  target ← on_disk (pool.artifacts.target w.id)
  synthesize_at pool message meanwhile w target

-- `try: …; finally: self.active_jobs -= 1`.
abbrev pub leave : {D : Type 0} → Result (Unit {0}) × Desk D → Result (Unit {0}) × Desk D
leave (r, d) = (r, record d { active_jobs = d.active_jobs - 1 })

abbrev pub enter : {D : Type 0} → Desk D → Desk D
enter d = record d { active_jobs = suc d.active_jobs }

abbrev pub work_on :
    {D : Type 0}
    → Pool D
    → (Error → String)
    → (Desk D → Desk D)
    → Option SynthesisWork
    → Job D (Unit {0})
work_on pool message meanwhile none d = (ok tt, record d { parks = suc d.parks })
work_on pool message meanwhile (some w) d =
    leave (synthesize_one pool message meanwhile w (enter d))

-- One turn of `_worker` while the pool is enabled, up to where it parks; `held` are the held engines.
unfoldable pub worker_turn :
    {D : Type 0} → Pool D → (Error → String) → (Desk D → Desk D) → List String → Job D (Unit {0})
worker_turn pool message meanwhile held = do
  claimed ← on_store (claim_for_synthesis held pool.engine_name)
  work_on pool message meanwhile claimed
