-- ===== src/Store/Lasting.antt =====
-- What no method of the store changes in an utterance, and the rules to prove it of a method.
pub mod From
pub mod Methods
pub mod Playback
pub mod History
use ai_tts.Common.{
  ℕ, suc, ◌≡◌, refl, ◌∙◌, ap, sym, subst, Bool, true, false, Bool-cases, inl, inr, arith, String,
  Option, none, some, is_none, eq_iff, ◌∷◌, map, distinct, Option-cases, text_eq, List, List.[],
}
use ai_tts.Common.Int.{ℤ}
use ai_tts.Common.Table.{find-update_where, updated, find, find_holds, update_where}
use ai_tts.Model.{Utterance, UtteranceSegment, State, state_in, terminal, can_transition}
use ai_tts.Store.{Store, Event, on_transition, on_segment_transition, key_error}
use ai_tts.Store.Exec.{
  IsOrder, Keeps, Keeps-bind, Keeps-pure, Keeps-raise, Keeps-gets, Keeps-require, Keeps-if,
  Keeps-if_found, Keeps-for_each, ◌>>=◌, ◌>>◌, require, gets, when, emit, pure, time,
}
use ai_tts.Store.Reads.{has_id, get}
use ai_tts.Store.Transition.{
  Changes, set_utterance, update_utterances, write_utterances, write_segments, cancel_children,
  announce, announce_segment, move, transition, move_segment, transition_segment,
}

-- What stays of an utterance: its identity and what the client asked for, its engine once one is
-- chosen, and a terminal state.
pub record Lasting (u v : Utterance) : Type 0 where
  pub id : v.id ≡ u.id
  pub text : v.text ≡ u.text
  pub voice : v.voice ≡ u.voice
  pub speed : v.speed ≡ u.speed
  pub sensitivity : v.sensitivity ≡ u.sensitivity
  pub priority : v.priority ≡ u.priority
  pub submitted_at : v.submitted_at ≡ u.submitted_at
  pub source : v.source ≡ u.source
  pub replay_of : v.replay_of ≡ u.replay_of
  pub engine : is_none u.engine ≡ false → v.engine ≡ u.engine
  pub closed : state_in u.state terminal ≡ true → v.state ≡ u.state

pub Lasting-refl : (u : Utterance) → Lasting u u
Lasting-refl u = record {
  id = refl;
  text = refl;
  voice = refl;
  speed = refl;
  sensitivity = refl;
  priority = refl;
  submitted_at = refl;
  source = refl;
  replay_of = refl;
  engine = λ _. refl;
  closed = λ _. refl;
}

pub Lasting-trans : {u v w : Utterance} → Lasting u v → Lasting v w → Lasting u w
Lasting-trans {u} {v} {w} h k = record {
  id = k.id ∙ h.id;
  text = k.text ∙ h.text;
  voice = k.voice ∙ h.voice;
  speed = k.speed ∙ h.speed;
  sensitivity = k.sensitivity ∙ h.sensitivity;
  priority = k.priority ∙ h.priority;
  submitted_at = k.submitted_at ∙ h.submitted_at;
  source = k.source ∙ h.source;
  replay_of = k.replay_of ∙ h.replay_of;
  engine = λ c. k.engine (rw (h.engine c) c) ∙ h.engine c;
  closed = λ c. k.closed (rw (h.closed c) c) ∙ h.closed c;
}

-- No two rows have one identifier.
abbrev pub IsKeyed : Store → Type 0
IsKeyed s = distinct (map (λ u. u.id) s.utterances) ≡ true

-- Every utterance of the first database is in the second, unchanged in what lasts, and the
-- identifiers stay distinct.
pub record Lasts (s t : Store) : Type 0 where
  pub keyed : IsKeyed s → IsKeyed t
  pub at :
      (id : String) (u : Utterance)
      → get id s ≡ some u
      → (v : Utterance) × (get id t ≡ some v) × Lasting u v

pub Lasts-IsOrder : IsOrder Lasts
Lasts-IsOrder = record {
  same = λ s. record { keyed = λ h. h; at = λ id u e. (u, e, Lasting-refl u) };
  compose = λ h k. record {
    keyed = λ d. k.keyed (h.keyed d);
    at = λ id u e.
        let (v, ev, hv) = h.at id u e in
        let (w, ew, hw) = k.at id v ev in (w, ew, Lasting-trans hv hw);
  };
}

ids-update_where :
    (p : Utterance → Bool) (f : Utterance → Utterance) (us : List Utterance)
    → ((u : Utterance) → (f u).id ≡ u.id)
    → map (λ u. u.id) (update_where p f us) ≡ map (λ u. u.id) us
ids-update_where p f [] same = refl
ids-update_where p f (u ∷ us) same = ground (arith, same u, ids-update_where p f us same)

-- An UPDATE of the utterances.
pub update-Lasts :
    (p : Utterance → Bool) (f : Utterance → Utterance) (s : Store)
    → ((u : Utterance) → (f u).id ≡ u.id)
    → ((id : String) (u : Utterance) → get id s ≡ some u → p u ≡ true → Lasting u (f u))
    → Lasts s (update_utterances p f s)
unfolding get
update-Lasts p f s same good = record {
  keyed = λ d. rw (ids-update_where p f s.utterances same) d;
  at = λ id u e.
      let moved : find (has_id id) (update_where p f s.utterances) ≡ some (updated p f u) =
        find-update_where (has_id id) p f s.utterances (λ x. rw (same x)) ∙ rw e in
      elim (Bool-cases (p u)) [
        | inl hit ↦ (f u, moved ∙ rw hit, good id u e hit)
        | inr miss ↦ (u, moved ∙ rw miss, Lasting-refl u)
      ];
}

-- The row that an identifier finds is the row that its own identifier finds.
pub get_agree :
    (id j : String) (u : Utterance) (s : Store)
    → get j s ≡ some u
    → has_id id u ≡ true
    → get id s ≡ some u
unfolding get
get_agree id j u s e h =
    let own : u.id ≡ j = (eq_iff u.id j).0 (find_holds (has_id j) s.utterances e) in
    let same : id ≡ j = sym ((eq_iff u.id id).0 h) ∙ own in rw same e

-- An UPDATE of the row with a given identifier.
pub write-Lasts :
    (id : String) (f : Utterance → Utterance) (s : Store) (current : Utterance)
    → get id s ≡ some current
    → ((u : Utterance) → (f u).id ≡ u.id)
    → Lasting current (f current)
    → Lasts s (update_utterances (has_id id) f s)
write-Lasts id f s current e same good = update-Lasts (has_id id) f s same λ j u ej hit.
    let same_row : current ≡ u = cc (e, get_agree id j u s ej hit) in
    subst (λ x. Lasting x (f x)) same_row good

-- A method that writes other tables only.
pub elsewhere-Lasts : (s t : Store) → t.utterances ≡ s.utterances → Lasts s t
unfolding get
elsewhere-Lasts s t e = record { keyed = λ d. rw e d; at = λ id u h. (u, rw e h, Lasting-refl u) }

pub not_terminal : (a b : State) → can_transition a b ≡ true → state_in a terminal ≡ false
unfolding can_transition
not_terminal a b h = ground arith

set_utterance-Lasting :
    (u : Utterance) (to : State) (ch : Changes) (now : ℕ)
    → can_transition u.state to ≡ true
    → Lasting u (set_utterance to ch now u)
set_utterance-Lasting u to ch now h = record {
  id = refl;
  text = refl;
  voice = refl;
  speed = refl;
  sensitivity = refl;
  priority = refl;
  submitted_at = refl;
  source = refl;
  replay_of = refl;
  engine = λ _. refl;
  closed = λ c. cc (not_terminal u.state to h);
}

pub write_segments-Lasts :
    (p : UtteranceSegment → Bool) (f : UtteranceSegment → UtteranceSegment)
    → Keeps Lasts (write_segments p f)
unfolding write_segments
write_segments-Lasts p f = record { at = λ s. elsewhere-Lasts s _ refl }

pub cancel_children-Lasts : (id : String) → Keeps Lasts (cancel_children id)
unfolding cancel_children
cancel_children-Lasts id = write_segments-Lasts _ _

pub emit-Lasts : (e : Event) → Keeps Lasts (emit e)
emit-Lasts e = record { at = λ s. elsewhere-Lasts s _ refl }

pub ruleset lasting_rules = (
  Keeps-bind, Keeps-pure, Keeps-raise, Keeps-gets, Keeps-require, Keeps-if, Keeps-if_found,
  Keeps-for_each, Lasts-IsOrder, emit-Lasts, write_segments-Lasts, cancel_children-Lasts,
)

announce-Lasts : (id : String) (before : State) → Keeps Lasts (announce id before)
unfolding announce
announce-Lasts id before = search lasting_rules

after_write-Lasts :
    (id : String) (to before : State)
    → Keeps Lasts (when (state_in to terminal) (cancel_children id) >> announce id before)
after_write-Lasts id to before = search (lasting_rules, announce-Lasts)

move-Lasts :
    (id : String) (to : State) (ch : Changes) (s : Store) (current : Utterance)
    → get id s ≡ some current
    → can_transition current.state to ≡ true
    → Lasts s (move id to ch current.state s).1
unfolding move write_utterances get
move-Lasts id to ch s current e h =
    let timed : Store = record s { readings = suc s.readings } in
    let now : ℕ = s.clock s.readings in
    Lasts-IsOrder.compose (elsewhere-Lasts s timed refl) (
      Lasts-IsOrder.compose
        (write-Lasts id (set_utterance to ch now) timed current e (λ u. refl)
          (set_utterance-Lasting current to ch now h))
        ((after_write-Lasts id to current.state).at _))

pub transition-Lasts : (id : String) (to : State) (ch : Changes) → Keeps Lasts (transition id to ch)
unfolding transition
transition-Lasts id to ch = record {
  at = λ s. elim (Option-cases (get id s)) [
    | inl absent ↦ rw absent (Lasts-IsOrder.same s)
    | inr (u, e) ↦ rw e (elim (Bool-cases (can_transition u.state to)) [
      | inl yes_ ↦ rw yes_ (move-Lasts id to ch s u e yes_)
      | inr no_ ↦ rw no_ (Lasts-IsOrder.same s)
    ])
  ];
}

announce_segment-Lasts :
    (id : String) (index : ℕ) (before : State) → Keeps Lasts (announce_segment id index before)
unfolding announce_segment
announce_segment-Lasts id index before = search lasting_rules

move_segment-Lasts :
    (id : String) (index : ℕ) (to : State) (ch : Changes) (before : State)
    → Keeps Lasts (move_segment id index to ch before)
unfolding move_segment
move_segment-Lasts id index to ch before = search (lasting_rules, announce_segment-Lasts)

pub transition_segment-Lasts :
    (id : String) (index : ℕ) (to : State) (ch : Changes)
    → Keeps Lasts (transition_segment id index to ch)
unfolding transition_segment
transition_segment-Lasts id index to ch = search (lasting_rules, move_segment-Lasts) depth 8

pub time-Lasts : Keeps Lasts time
time-Lasts = record { at = λ s. elsewhere-Lasts s _ refl }

-- The other columns may change freely.
pub columns-Lasting :
    (u : Utterance) (key : ℤ) (now : ℕ) (error : Option String) (duration played : Option ℕ)
    (path generation : Option String)
    → Lasting u (record u {
      order_key = key;
      state_changed_at = now;
      error = error;
      duration_ms = duration;
      played_ms = played;
      audio_path = path;
      generation_artifact_id = generation;
    })
columns-Lasting u key now error duration played path generation = record {
  id = refl;
  text = refl;
  voice = refl;
  speed = refl;
  sensitivity = refl;
  priority = refl;
  submitted_at = refl;
  source = refl;
  replay_of = refl;
  engine = λ _. refl;
  closed = λ _. refl;
}

-- Those of a row that is still open too.
pub open-Lasting :
    (u : Utterance) (st : State) (now : ℕ) (played : Option ℕ) (path : Option String)
    → state_in u.state terminal ≡ false
    → Lasting u
        (record u { state = st; state_changed_at = now; played_ms = played; audio_path = path })
open-Lasting u st now played path h = record {
  id = refl;
  text = refl;
  voice = refl;
  speed = refl;
  sensitivity = refl;
  priority = refl;
  submitted_at = refl;
  source = refl;
  replay_of = refl;
  engine = λ _. refl;
  closed = λ c. cc;
}

pub write_utterances-Lasts :
    (p : Utterance → Bool) (f : Utterance → Utterance)
    → ((u : Utterance) → Lasting u (f u))
    → Keeps Lasts (write_utterances p f)
unfolding write_utterances
write_utterances-Lasts p f good = record {
  at = λ s. update-Lasts p f s (λ u. (good u).id) (λ id u _ _. good u);
}

pub write_where-Lasts :
    (p : Utterance → Bool) (f : Utterance → Utterance)
    → ((u : Utterance) → (f u).id ≡ u.id)
    → ((u : Utterance) → p u ≡ true → Lasting u (f u))
    → Keeps Lasts (write_utterances p f)
unfolding write_utterances
write_where-Lasts p f same good = record {
  at = λ s. update-Lasts p f s same (λ id u _ hit. good u hit);
}

-- An engine is chosen for a row that has none.
pub unbound-Lasting :
    (u : Utterance) (name : String)
    → is_none u.engine ≡ true
    → Lasting u (record u { engine = some name })
unbound-Lasting u name h = record {
  id = refl;
  text = refl;
  voice = refl;
  speed = refl;
  sensitivity = refl;
  priority = refl;
  submitted_at = refl;
  source = refl;
  replay_of = refl;
  engine = λ c. cc;
  closed = λ _. refl;
}
