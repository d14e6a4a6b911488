-- ===== src/Store/Lasting/From.antt =====
-- Actions that write a row which they have read before: what lasts is kept if the row was open.
use ai_tts.Common.{
  ℕ, ◌≡◌, refl, ◌∙◌, Bool, true, false, Option, none, some, String, if◌then◌else◌, eq_iff,
}
use ai_tts.Model.{Utterance, UtteranceSegment, SynthesisWork, State}
use ai_tts.Store.{Store, Result, ok, raised, StreamingJob}
use ai_tts.Store.Exec.{
  Exec, IsOrder, Keeps, Keeps-bind, Keeps-pure, Keeps-raise, Keeps-gets, Keeps-require, Keeps-if,
  Keeps-if_found, ◌>>=◌, ◌>>◌, continue, gets, emit, time, pure, when,
}
use ai_tts.Store.Reads.{has_id, get}
use ai_tts.Store.Transition.{write_utterances, write_segments}
use ai_tts.Store.Streaming.{insert_job, set_child_state}
use ai_tts.Store.Replay.{pause_child, change_time}
use ai_tts.Store.Registry.{set_setting}
use ai_tts.Store.Recover.{requeue_child}
use ai_tts.Store.Lasting.{Lasting, Lasts, Lasts-IsOrder, write-Lasts, get_agree, elsewhere-Lasts}

-- The table of utterances is as it was.
pub record SameUtterances (s t : Store) : Type 0 where
  pub rows : t.utterances ≡ s.utterances

pub SameUtterances-IsOrder : IsOrder SameUtterances
SameUtterances-IsOrder = record {
  same = λ s. record { rows = refl };
  compose = λ h k. record { rows = k.rows ∙ h.rows };
}

-- From a database in which `id` finds `u`.
pub record LastsFrom {A : Type 0} (id : String) (u : Utterance) (m : Exec A) : Type 0 where
  pub at : (s : Store) → get id s ≡ some u → Lasts s (m s).1

module _ {A B : Type 0} (id : String) (u : Utterance) (f : A → Exec B) where
  continue-same :
      (s : Store) (r : Result A × Store)
      → SameUtterances s r.1
      → ((a : A) → LastsFrom id u (f a))
      → get id s ≡ some u
      → Lasts s (continue r f).1
  unfolding get
  continue-same s (ok a, t) h k e =
      Lasts-IsOrder.compose (elsewhere-Lasts s t h.rows) ((k a).at t (rw h.rows e))
  continue-same s (raised x, t) h k e = elsewhere-Lasts s t h.rows

  pub same-bind-LastsFrom :
      (m : Exec A)
      → Keeps SameUtterances m
      → ((a : A) → LastsFrom id u (f a))
      → LastsFrom id u (m >>= f)
  same-bind-LastsFrom m h k = record { at = λ s. continue-same s (m s) (h.at s) k }

  continue-after :
      (s : Store) (r : Result A × Store)
      → Lasts s r.1
      → ((a : A) → Keeps Lasts (f a))
      → Lasts s (continue r f).1
  continue-after s (ok a, t) h k = Lasts-IsOrder.compose h ((k a).at t)
  continue-after s (raised x, t) h k = h

  pub bind-LastsFrom :
      (m : Exec A) → LastsFrom id u m → ((a : A) → Keeps Lasts (f a)) → LastsFrom id u (m >>= f)
  bind-LastsFrom m h k = record { at = λ s e. continue-after s (m s) (h.at s e) k }

pub get_own : (id : String) (u : Utterance) (s : Store) → get id s ≡ some u → get u.id s ≡ some u
get_own id u s e = get_agree u.id id u s e ((eq_iff u.id u.id).1 refl)

pub write-LastsFrom :
    (id : String) (u : Utterance) (f : Utterance → Utterance)
    → ((x : Utterance) → (f x).id ≡ x.id)
    → Lasting u (f u)
    → LastsFrom id u (write_utterances (has_id id) f)
unfolding write_utterances
write-LastsFrom id u f same good = record { at = λ s e. write-Lasts id f s u e same good }

pub Keeps-LastsFrom :
    {A : Type 0} (id : String) (u : Utterance) (m : Exec A) → Keeps Lasts m → LastsFrom id u m
Keeps-LastsFrom id u m h = record { at = λ s e. h.at s }

pub if-LastsFrom :
    {A : Type 0} (id : String) (u : Utterance) (b : Bool) (m k : Exec A)
    → LastsFrom id u m
    → LastsFrom id u k
    → LastsFrom id u (if b then m else k)
if-LastsFrom id u true m k h j = h
if-LastsFrom id u false m k h j = j

-- The statements that leave the utterances alone.
pub write_segments-Same :
    (p : UtteranceSegment → Bool) (f : UtteranceSegment → UtteranceSegment)
    → Keeps SameUtterances (write_segments p f)
unfolding write_segments
write_segments-Same p f = record { at = λ s. record { rows = refl } }

pub time-Same : Keeps SameUtterances time
time-Same = record { at = λ s. record { rows = refl } }

pub insert_job-Same : (j : StreamingJob) → Keeps SameUtterances (insert_job j)
unfolding insert_job
insert_job-Same j = record { at = λ s. record { rows = refl } }

pub set_setting-Same : (k v : String) → Keeps SameUtterances (set_setting k v)
unfolding set_setting
set_setting-Same k v = record { at = λ s. record { rows = refl } }

pub ruleset same_rules = (
  Keeps-bind, Keeps-pure, Keeps-gets, Keeps-if, SameUtterances-IsOrder, time-Same, insert_job-Same,
  set_setting-Same, write_segments-Same, Keeps-if_found,
)

pub set_child_state-Same :
    (w : SynthesisWork) (st : State) → Keeps SameUtterances (set_child_state w st)
unfolding set_child_state
set_child_state-Same w st = search same_rules

pub pause_child-Same :
    (id : String) (index : Option ℕ) (position : ℕ)
    → Keeps SameUtterances (pause_child id index position)
unfolding pause_child
pause_child-Same id none position = search same_rules
pause_child-Same id (some i) position = write_segments-Same _ _

pub requeue_child-Same :
    (id : String) (index : Option ℕ) → Keeps SameUtterances (requeue_child id index)
unfolding requeue_child
requeue_child-Same id none = search same_rules
requeue_child-Same id (some i) = write_segments-Same _ _

pub change_time-Same : (clip : Utterance) → Keeps SameUtterances (change_time clip)
unfolding change_time
change_time-Same clip = search same_rules
