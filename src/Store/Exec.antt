-- ===== src/Store/Exec.antt =====
-- Actions on the database, and relations between the database before and after one.
use ai_tts.Common.{
  ℕ, suc, Bool, true, false, Option, none, some, List, [], ◌∷◌, ◌++◌, if◌then◌else◌,
}
use ai_tts.Store.{Store, Event, Error, Result, ok, raised}

abbrev pub Exec : Type 0 → Type 0
Exec A = Store → Result A × Store

abbrev pub pure : {A : Type 0} → A → Exec A
pure a s = (ok a, s)

abbrev pub raise : {A : Type 0} → Error → Exec A
raise e s = (raised e, s)

abbrev pub gets : {A : Type 0} → (Store → A) → Exec A
gets f s = (ok (f s), s)

-- An SQL statement that writes.
abbrev pub execute : (Store → Store) → Exec (Unit {0})
execute f s = (ok tt, f s)

abbrev pub continue : {A B : Type 0} → Result A × Store → (A → Exec B) → Result B × Store
continue (ok a, s) f = f a s
continue (raised e, s) f = (raised e, s)

infixl 5 ◌>>=◌ ◌>>◌
abbrev pub ◌>>=◌ : {A B : Type 0} → Exec A → (A → Exec B) → Exec B
◌>>=◌ m f s = continue (m s) f

abbrev pub ◌>>◌ : {A B : Type 0} → Exec A → Exec B → Exec B
m >> k = m >>= λ _. k

-- `time.time()`.
abbrev pub time : Exec ℕ
time s = (ok (s.clock s.readings), record s { readings = suc s.readings })

abbrev pub emit : Event → Exec (Unit {0})
emit e s = (ok tt, record s { events = s.events ++ e ∷ [] })

abbrev pub require : {A : Type 0} → Option A → Error → Exec A
require none e = raise e
require (some a) e = pure a

abbrev pub when : Bool → Exec (Unit {0}) → Exec (Unit {0})
when b m = if b then m else pure tt

-- `if x is not None: body(x)`.
unfoldable pub if_found : {A : Type 0} → Option A → (A → Exec (Unit {0})) → Exec (Unit {0})
if_found none body = pure tt
if_found (some a) body = body a

-- `for x in xs: body(x)`.
unfoldable pub for_each : {A : Type 0} → List A → (A → Exec (Unit {0})) → Exec (Unit {0})
for_each [] body = pure tt
for_each (x ∷ xs) body = body x >> for_each xs body

-- A relation between the database before and after that composes.
pub record IsOrder (R : Store → Store → Type 0) : Type 0 where
  pub same : (s : Store) → R s s
  pub compose : {s t u : Store} → R s t → R t u → R s u

-- `m` relates the database before it to the one after it, whether it returns or raises.
pub record Keeps {A : Type 0} (R : Store → Store → Type 0) (m : Exec A) : Type 0 where
  pub at : (s : Store) → R s (m s).1

module _ {R : Store → Store → Type 0} (o : IsOrder R) where
  continue-Keeps :
      {A B : Type 0} (s : Store) (r : Result A × Store) (f : A → Exec B)
      → R s r.1
      → ((a : A) → Keeps R (f a))
      → R s (continue r f).1
  continue-Keeps s (ok a, t) f h k = o.compose h ((k a).at t)
  continue-Keeps s (raised e, t) f h k = h

  pub Keeps-bind :
      {A B : Type 0} (m : Exec A) (f : A → Exec B)
      → Keeps R m
      → ((a : A) → Keeps R (f a))
      → Keeps R (m >>= f)
  Keeps-bind m f h k = record { at = λ s. continue-Keeps s (m s) f (h.at s) k }

  pub Keeps-pure : {A : Type 0} (a : A) → Keeps R (pure a)
  Keeps-pure a = record { at = o.same }

  pub Keeps-raise : {A : Type 0} (e : Error) → Keeps R (raise {A = A} e)
  Keeps-raise e = record { at = o.same }

  pub Keeps-gets : {A : Type 0} (f : Store → A) → Keeps R (gets f)
  Keeps-gets f = record { at = o.same }

  pub Keeps-require : {A : Type 0} (a : Option A) (e : Error) → Keeps R (require a e)
  Keeps-require none e = record { at = o.same }
  Keeps-require (some a) e = record { at = o.same }

  pub Keeps-if :
      {A : Type 0} (b : Bool) (m k : Exec A) → Keeps R m → Keeps R k → Keeps R (if b then m else k)
  Keeps-if true m k hm hk = hm
  Keeps-if false m k hm hk = hk

  pub Keeps-if_found :
      {A : Type 0} (x : Option A) (body : A → Exec (Unit {0}))
      → ((a : A) → Keeps R (body a))
      → Keeps R (if_found x body)
  unfolding if_found
  Keeps-if_found none body k = Keeps-pure tt
  Keeps-if_found (some a) body k = k a

  pub Keeps-for_each :
      {A : Type 0} (xs : List A) (body : A → Exec (Unit {0}))
      → ((a : A) → Keeps R (body a))
      → Keeps R (for_each xs body)
  unfolding for_each
  Keeps-for_each [] body k = Keeps-pure tt
  Keeps-for_each (x ∷ xs) body k =
      Keeps-bind (body x) (λ _. for_each xs body) (k x) (λ _. Keeps-for_each xs body k)
