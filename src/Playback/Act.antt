-- ===== src/Playback/Act.antt =====
-- Actions of the controller of src/aitts/playback.py: they return or raise, and what they wrote before
-- raising stays written.
use ai_tts.Common.{Bool, if◌then◌else◌}
use ai_tts.Store.{Error, Result, ok, raised}
use ai_tts.Store.Exec.{Exec}
use ai_tts.Playback.{Player}

abbrev pub Play : Type 0 → Type 0
Play A = Player → Result A × Player

abbrev pub pure : {A : Type 0} → A → Play A
pure a p = (ok a, p)

abbrev pub raise : {A : Type 0} → Error → Play A
raise e p = (raised e, p)

abbrev pub gets : {A : Type 0} → (Player → A) → Play A
gets f p = (ok (f p), p)

abbrev pub modify : (Player → Player) → Play (Unit {0})
modify f p = (ok tt, f p)

-- A method of the store.
abbrev pub on_store : {A : Type 0} → Exec A → Play A
on_store m p = let (r, s) = m p.store in (r, record p { store = s })

abbrev pub continue : {A B : Type 0} → Result A × Player → (A → Play B) → Result B × Player
continue (ok a, p) f = f a p
continue (raised e, p) f = (raised e, p)

infixl 5 ◌>>=◌ ◌>>◌
abbrev pub ◌>>=◌ : {A B : Type 0} → Play A → (A → Play B) → Play B
◌>>=◌ m f p = continue (m p) f

abbrev pub ◌>>◌ : {A B : Type 0} → Play A → Play B → Play B
m >> k = m >>= λ _. k

abbrev pub when : Bool → Play (Unit {0}) → Play (Unit {0})
when b m = if b then m else pure tt

abbrev pub done : {A : Type 0} → Play A → Play (Unit {0})
done m = m >> pure tt
