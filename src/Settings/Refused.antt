-- ===== src/Settings/Refused.antt =====
-- A request of src/aitts/settings.py is applied as a whole or not at all.
use ai_tts.Common.{◌≡◌, refl, ◌∙◌, ap, not, String, List, [], ◌∷◌, Bool-cases, inl, inr}
use ai_tts.Common.Table.{select_where}
use ai_tts.Common.Sorting.{In, In-select_where}
use mathlib.Core.List.{◌++◌ as append}
use ai_tts.Store.{Store, Error, Result, ok, raised, bad_request}
use ai_tts.Settings.{Json, Floats, SettingsEnvironment}
use ai_tts.Settings.Plan.{Effect, plan, plan_all, added, is_engine, engine_first}
use ai_tts.Settings.Service.{
  value_of, selected_engine, leaves_no_voice, perform_planned, apply_with, apply_to, apply,
}

module _ {F : Type 0} where
  added-raised :
      (x : Result (Effect F)) (r : Result (List (Effect F)))
      → (e : Error) × (r ≡ raised e)
      → (e : Error) × (added x r ≡ raised e)
  added-raised (raised e) r h = (e, refl)
  added-raised (ok x) r (e, h) = (e, rw h refl)

  added-refused :
      (x : Result (Effect F)) (r : Result (List (Effect F))) (e : Error)
      → x ≡ raised e
      → (e : Error) × (added x r ≡ raised e)
  added-refused x r e h = (e, rw h refl)

  -- A refused update refuses them all.
  plan_all-refused :
      (p : String → Json F → Result (Effect F)) (updates : List (String × Json F)) (key : String)
      (value : Json F) (e : Error)
      → In (key, value) updates
      → p key value ≡ raised e
      → (e : Error) × (plan_all p updates ≡ raised e)
  plan_all-refused p [] key value e i h = absurd i
  plan_all-refused p ((k, v) ∷ updates) key value e (inl same) h =
      added-refused (p k v) (plan_all p updates) e ((ap (λ u. p u.0 u.1) same) ∙ h)
  plan_all-refused p ((k, v) ∷ updates) key value e (inr i) h =
      added-raised (p k v) (plan_all p updates) (plan_all-refused p updates key value e i h)

  In-left : (u : String × Json F) (xs ys : List (String × Json F)) → In u xs → In u (append xs ys)
  In-left u [] ys i = absurd i
  In-left u (x ∷ xs) ys (inl e) = inl e
  In-left u (x ∷ xs) ys (inr i) = inr (In-left u xs ys i)

  In-right : (u : String × Json F) (xs ys : List (String × Json F)) → In u ys → In u (append xs ys)
  In-right u [] ys i = i
  In-right u (x ∷ xs) ys i = inr (In-right u xs ys i)

  In-engine_first :
      (u : String × Json F) (updates : List (String × Json F))
      → In u updates
      → In u (engine_first updates)
  In-engine_first u updates i = elim (Bool-cases (is_engine u)) [
    | inl engine ↦
        In-left u (select_where is_engine updates) _ (In-select_where is_engine u updates i engine)
    | inr other ↦
        In-right u (select_where is_engine updates) _
          (In-select_where (λ x. not (is_engine x)) u updates i (rw other refl))
  ]

module _ {E F : Type 0} (floats : Floats F) (env : SettingsEnvironment E F) where
  -- A request is refused with nothing done.
  abbrev Refused : Store × E → Result (Unit {0}) × (Store × E) → Type 0
  Refused w r = (e : Error) × (r ≡ (raised e, w))

  perform_planned-Refused :
      (r : Result (List (Effect F))) (w : Store × E)
      → (e : Error) × (r ≡ raised e)
      → Refused w (perform_planned env r w)
  perform_planned-Refused r w (e, h) = (e, rw h refl)

  module _ (updates : List (String × Json F)) (key : String) (value : Json F) (s : Store) (live : E)
      (here : In (key, value) updates) where
    apply_with-Refused :
        (voices : Result (List String))
        → ((catalog : List String)
            → voices ≡ ok catalog
            → (e : Error) × (plan floats env live catalog key value ≡ raised e))
        → Refused (s, live) (apply_with floats env updates voices (s, live))
    apply_with-Refused (raised e) h = (e, refl)
    apply_with-Refused (ok catalog) h =
        let (e, refused) = h catalog refl in
        elim (Bool-cases (leaves_no_voice s catalog updates)) [
          | inl silent ↦ (bad_request, rw silent refl)
          | inr spoken ↦ rw spoken (
              perform_planned-Refused
                (plan_all (plan floats env live catalog) (engine_first updates)) (s, live)
                (plan_all-refused (plan floats env live catalog) (engine_first updates) key value e
                  (In-engine_first (key, value) updates here) refused))
        ]

    apply_to-Refused :
        (name : Result String)
        → ((n : String) (catalog : List String)
            → name ≡ ok n
            → env.engine_voices n live ≡ ok catalog
            → (e : Error) × (plan floats env live catalog key value ≡ raised e))
        → Refused (s, live) (apply_to floats env updates name (s, live))
    apply_to-Refused (raised e) h = (e, refl)
    apply_to-Refused (ok n) h =
        apply_with-Refused (env.engine_voices n live) (λ catalog c. h n catalog refl c)

  -- If one update of a request is refused, as it is for the voices of the engine that the request
  -- selects, then the request is, and the database and the live components stay as they were,
  -- whatever its other updates are.
  pub apply-refused :
      (updates : List (String × Json F)) (key : String) (value : Json F) (s : Store) (live : E)
      → In (key, value) updates
      → ((name : String) (catalog : List String)
          → selected_engine (env.engine_name live) (value_of "engine" updates) ≡ ok name
          → env.engine_voices name live ≡ ok catalog
          → (e : Error) × (plan floats env live catalog key value ≡ raised e))
      → (e : Error) × (apply floats env updates (s, live) ≡ (raised e, (s, live)))
  unfolding apply
  apply-refused updates key value s live here h =
      apply_to-Refused updates key value s live here
        (selected_engine (env.engine_name live) (value_of "engine" updates)) h
