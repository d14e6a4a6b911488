-- ===== src/Playback/Sound.antt =====
-- The device in src/aitts/playback.py: an active sink is marked as such, and nothing has overlapped; rules
-- for what keeps it so.
pub mod Device
pub mod Restore
pub mod Plan
pub mod Control
pub mod Transport
pub mod Watch
pub mod Steps
use ai_tts.Common.{
  ℕ, ◌≡◌, refl, sym, ◌∙◌, Bool, true, false, not, Option, none, some, List, [], ◌∷◌, String, arith,
  is_none, if◌then◌else◌, Bool-cases, inl, inr,
}
use ai_tts.Store.{Store, Error, Result, ok, raised}
use ai_tts.Store.Exec.{Exec}
use ai_tts.Playback.{Player}
use ai_tts.Playback.Act.{
  Play, pure, raise, gets, modify, on_store, when, done, continue, ◌>>=◌, ◌>>◌,
}

-- No clip is active, and the device is not marked active either.
unfoldable pub IsFree : Player → Type 0
IsFree p = (p.sink.active ≡ false) × (p.sink.overlaps ≡ 0) × (p.sink_active ≡ false)

-- An active clip is marked; while the closing cue plays, no clip waits to be restored.
unfoldable pub IsSound : Player → Type 0
IsSound p =
    (p.sink.active ≡ true → p.sink_active ≡ true)
    × (p.sink.overlaps ≡ 0)
    × (p.sink_active ≡ true → p.current_id ≡ none → p.preempted_stack ≡ [])

pub free-IsSound : (p : Player) → IsFree p → IsSound p
unfolding IsFree IsSound
free-IsSound p (quiet, clean, unmarked) =
    (λ h. absurd (ground arith), clean, λ h e. absurd (ground arith))

pub unmarked-IsFree : (p : Player) → IsSound p → p.sink_active ≡ false → IsFree p
unfolding IsFree IsSound
unmarked-IsFree p (marks, clean, outro) h = elim (Bool-cases p.sink.active) [
  | inl active ↦ absurd (ground (arith, marks active))
  | inr quiet ↦ (quiet, clean, h)
]

-- From `P` the action comes to `Q`, whether it returns or raises.
pub record Holds {A : Type 0} (P Q : Player → Type 0) (m : Play A) : Type 0 where
  pub at : (p : Player) → P p → Q (m p).1

continue-Holds :
    {A B : Type 0} (P Q : Player → Type 0) (r : Result A × Player) (f : A → Play B)
    → P r.1
    → ((a : A) → Holds P Q (f a))
    → ((p : Player) → P p → Q p)
    → Q (continue r f).1
continue-Holds P Q (ok a, q) f h k w = (k a).at q h
continue-Holds P Q (raised e, q) f h k w = w q h

pub Holds-bind :
    {A B : Type 0} {P R Q : Player → Type 0} (m : Play A) (f : A → Play B)
    → Holds P R m
    → ((a : A) → Holds R Q (f a))
    → ((p : Player) → R p → Q p)
    → Holds P Q (m >>= f)
Holds-bind {R = R} {Q = Q} m f h k w = record {
  at = λ p v. continue-Holds R Q (m p) f (h.at p v) k w;
}

-- A read and a change do not raise.
pub gets_then :
    {A B : Type 0} {P Q : Player → Type 0} (f : Player → A) (k : A → Play B)
    → ((a : A) → Holds P Q (k a))
    → Holds P Q (gets f >>= k)
gets_then f k h = record { at = λ p v. (h (f p)).at p v }

pub modify_then :
    {B : Type 0} {P R Q : Player → Type 0} (g : Player → Player) (m : Play B)
    → ((p : Player) → P p → R (g p))
    → Holds R Q m
    → Holds P Q (modify g >> m)
modify_then g m k h = record { at = λ p v. h.at (g p) (k p v) }

pub bind-Free :
    {A B : Type 0} (m : Play A) (f : A → Play B)
    → Holds IsFree IsFree m
    → ((a : A) → Holds IsFree IsFree (f a))
    → Holds IsFree IsFree (m >>= f)
bind-Free m f h k = Holds-bind m f h k (λ p v. v)

pub bind-Start :
    {A B : Type 0} (m : Play A) (f : A → Play B)
    → Holds IsFree IsFree m
    → ((a : A) → Holds IsFree IsSound (f a))
    → Holds IsFree IsSound (m >>= f)
bind-Start m f h k = Holds-bind m f h k free-IsSound

pub bind-Sound :
    {A B : Type 0} (m : Play A) (f : A → Play B)
    → Holds IsSound IsSound m
    → ((a : A) → Holds IsSound IsSound (f a))
    → Holds IsSound IsSound (m >>= f)
bind-Sound m f h k = Holds-bind m f h k (λ p v. v)

pub bind-Release :
    {A B : Type 0} (m : Play A) (f : A → Play B)
    → Holds IsSound IsFree m
    → ((a : A) → Holds IsFree IsSound (f a))
    → Holds IsSound IsSound (m >>= f)
bind-Release m f h k = Holds-bind m f h k free-IsSound

module _ {A : Type 0} where
  pub pure-Free : (a : A) → Holds IsFree IsFree (pure a)
  pure-Free a = record { at = λ p v. v }

  pub pure-Start : (a : A) → Holds IsFree IsSound (pure a)
  pure-Start a = record { at = free-IsSound }

  pub pure-Sound : (a : A) → Holds IsSound IsSound (pure a)
  pure-Sound a = record { at = λ p v. v }

  pub raise-Start : (e : Error) → Holds IsFree IsSound (raise {A = A} e)
  raise-Start e = record { at = free-IsSound }

  pub raise-Sound : (e : Error) → Holds IsSound IsSound (raise {A = A} e)
  raise-Sound e = record { at = λ p v. v }

  pub gets-Free : (f : Player → A) → Holds IsFree IsFree (gets f)
  gets-Free f = record { at = λ p v. v }

  pub gets-Sound : (f : Player → A) → Holds IsSound IsSound (gets f)
  gets-Sound f = record { at = λ p v. v }

  pub store-Free : (m : Exec A) → Holds IsFree IsFree (on_store m)
  unfolding IsFree
  store-Free m = record { at = λ p v. v }

  pub store-Sound : (m : Exec A) → Holds IsSound IsSound (on_store m)
  unfolding IsSound
  store-Sound m = record { at = λ p v. v }

  pub if-Holds :
      {P Q : Player → Type 0} (b : Bool) (m k : Play A)
      → Holds P Q m
      → Holds P Q k
      → Holds P Q (if b then m else k)
  if-Holds true m k hm hk = hm
  if-Holds false m k hm hk = hk

  pub start_of : (m : Play A) → Holds IsFree IsFree m → Holds IsFree IsSound m
  start_of m h = record { at = λ p v. free-IsSound (m p).1 (h.at p v) }

-- Changes of other fields.
pub modify-Free :
    (g : Player → Player)
    → ((p : Player) → (g p).sink.active ≡ p.sink.active)
    → ((p : Player) → (g p).sink.overlaps ≡ p.sink.overlaps)
    → ((p : Player) → (g p).sink_active ≡ p.sink_active)
    → Holds IsFree IsFree (modify g)
unfolding IsFree
modify-Free g a o s = record { at = λ p v. (a p ∙ v.0, o p ∙ v.1, s p ∙ v.2) }

pub modify-Sound :
    (g : Player → Player)
    → ((p : Player) → (g p).sink.active ≡ p.sink.active)
    → ((p : Player) → (g p).sink.overlaps ≡ p.sink.overlaps)
    → ((p : Player) → (g p).sink_active ≡ p.sink_active)
    → ((p : Player) → (g p).current_id ≡ p.current_id)
    → ((p : Player) → (g p).preempted_stack ≡ p.preempted_stack)
    → Holds IsSound IsSound (modify g)
unfolding IsSound
modify-Sound g a o s c t = record {
  at = λ p v.
      (λ h. s p ∙ v.0 (sym (a p) ∙ h), o p ∙ v.1, λ h e. t p ∙ v.2 (sym (s p) ∙ h) (sym (c p) ∙ e));
}

pub ruleset play_rules = (
  bind-Free, bind-Start, bind-Sound, pure-Free, pure-Start, pure-Sound, raise-Start, raise-Sound,
  gets-Free, gets-Sound, store-Free, store-Sound, if-Holds,
)
