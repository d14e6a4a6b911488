-- ===== src/Store/Synthesis.antt =====
-- `claim_for_synthesis` of src/aitts/store.py: the query that picks a unit of work, and the claim.
use ai_tts.Common.{
  ℕ, suc, Bool, ◌&&◌, ◌||◌, not, String, Option, none, some, List, [], ◌∷◌, ◌++◌, map, text_eq, any,
  is_some, leb, head?,
}
use ai_tts.Common.Int.{leb_ℤ}
use ai_tts.Common.Table.{select_where, sort_by}
use ai_tts.Model.{
  Utterance, UtteranceSegment, SynthesisWork, queued, synthesizing, state_is, state_in, terminal,
  artifact_id,
}
use ai_tts.Store.{Store}
use ai_tts.Store.Exec.{Exec, pure, gets, when, ◌>>=◌, ◌>>◌}
use ai_tts.Store.Reads.{is_child}
use ai_tts.Store.Transition.{no_changes, transition, write_segments}

-- One row of the LEFT JOIN of the utterances with their queued segments.
pub record ClaimRow : Type 0 where
  pub parent : Utterance
  pub child : Option UtteranceSegment

abbrev queued_child : Utterance → UtteranceSegment → Bool
queued_child u g = text_eq g.utterance_id u.id && state_is g.state queued

abbrev row : Utterance → UtteranceSegment → ClaimRow
row u g = record { parent = u; child = some g }

abbrev joined_with : Utterance → List UtteranceSegment → List ClaimRow
joined_with u [] = record { parent = u; child = none } ∷ []
joined_with u (g ∷ gs) = map (row u) (g ∷ gs)

pub left_join : List Utterance → List UtteranceSegment → List ClaimRow
left_join [] gs = []
left_join (u ∷ us) gs = joined_with u (select_where (queued_child u) gs) ++ left_join us gs

-- The WHERE clause without the held engines.
abbrev pub claimable : List UtteranceSegment → ClaimRow → Bool
claimable gs r =
    (is_some r.child && not (state_in r.parent.state terminal))
    || (state_is r.parent.state queued && not (any (λ g. text_eq g.utterance_id r.parent.id) gs))

-- `COALESCE(u.engine, ?)`.
abbrev pub engine_of : String → Utterance → String
engine_of unbound u = elim u.engine [ none ↦ unbound | some e ↦ e ]

-- `AND COALESCE(u.engine, ?) NOT IN (…)`, absent where nothing is held.
abbrev pub not_held : List String → String → ClaimRow → Bool
not_held held unbound r = not (any (text_eq (engine_of unbound r.parent)) held)

-- `COALESCE(s.segment_index, -1)`, moved up by one.
abbrev pub child_rank : ClaimRow → ℕ
child_rank r = elim r.child [ none ↦ 0 | some g ↦ suc g.index ]

abbrev pub claim_order : ClaimRow → ClaimRow → Bool
claim_order a b =
    not (leb_ℤ b.parent.order_key a.parent.order_key)
    || (leb_ℤ a.parent.order_key b.parent.order_key && leb (child_rank a) (child_rank b))

unfoldable pub claim_candidates : List String → String → Store → List ClaimRow
unfolding left_join
claim_candidates held unbound s = sort_by claim_order (
    select_where (λ r. claimable s.segments r && not_held held unbound r)
      (left_join s.utterances s.segments))

abbrev whole_work : Utterance → SynthesisWork
whole_work u = record {
  id = u.id;
  utterance_id = u.id;
  segment_index = none;
  text = u.text;
  voice = u.voice;
  speed = u.speed;
  state = synthesizing;
  engine = u.engine;
  sensitivity = u.sensitivity;
}

abbrev segment_work : Utterance → UtteranceSegment → SynthesisWork
segment_work u g = record {
  id = artifact_id g;
  utterance_id = u.id;
  segment_index = some g.index;
  text = g.text;
  voice = u.voice;
  speed = u.speed;
  state = synthesizing;
  engine = u.engine;
  sensitivity = u.sensitivity;
}

unfoldable pub claim_row : Option ClaimRow → Exec (Option SynthesisWork)
claim_row none = pure none
claim_row (some r) = elim r.child [
  | none ↦ do
    parent ← transition r.parent.id synthesizing no_changes
    pure (some (whole_work parent))
  | some g ↦ do
    write_segments (λ x. is_child r.parent.id g.index x && state_is x.state queued)
        (λ x. record x { state = synthesizing })
    when (state_is r.parent.state queued)
        (transition r.parent.id synthesizing no_changes >> pure tt)
    pure (some (segment_work r.parent g))
]

unfoldable pub claim_for_synthesis : List String → String → Exec (Option SynthesisWork)
unfolding claim_row
claim_for_synthesis held unbound = do
  candidates ← gets (claim_candidates held unbound)
  claim_row (head? candidates)
