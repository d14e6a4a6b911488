-- ===== src/Tests/Plan.antt =====
-- The theorems about transitions and the order of the plan at concrete databases.
use ai_tts.Common.{
  ℕ, ◌≡◌, refl, ◌++◌, inl, inr, Bool, ◌&&◌, String, none, some, List, [], ◌∷◌, is_none, text_eq,
  if◌then◌else◌,
}
use ai_tts.Common.Table.{map_option}
use ai_tts.Model.{
  Utterance, UtteranceSegment, queued, playing, played, cancelled, state_in, terminal,
  can_transition,
}
use ai_tts.Store.{ok, on_transition}
use ai_tts.Store.Reads.{get, get_segment, pending_queue, next_pending}
use ai_tts.Store.Transition.{no_changes, unfinished, transition}
use ai_tts.Store.Transition.Effect.{transition-effect}
use ai_tts.Store.Submit.{submit}
use ai_tts.Store.Queue.{set_order_key, move_to_head}
use ai_tts.Store.Order.{submit-pending_queue}
use ai_tts.Store.Promote.{move_to_head-next_pending}
use ai_tts.Tests.Data.{clip, three, two_parts}

transition-effect_example :
    let t = (transition "b" played no_changes three).1 in
    (v : Utterance) × ((transition "b" played no_changes three).0 ≡ ok v)
    × (v.state ≡ played)
    × (get "b" t ≡ (if text_eq "b" "b" then some v else get "b" three))
    × (t.events ≡ three.events ++ on_transition v playing ∷ [])
    × (get_segment "b" 2 t
        ≡ map_option {A = UtteranceSegment}
            (λ g. record g {
              state = if state_in played terminal && unfinished "b" g then cancelled else g.state;
            })
            (get_segment "b" 2 three))
unfolding get can_transition
transition-effect_example =
    transition-effect "b" played no_changes three (clip "b" playing 2) "b" 2 refl refl

submit-pending_queue_example :
    (v : Utterance) × ((submit "d" two_parts three).0 ≡ ok v)
    × (v.state ≡ queued)
    × (pending_queue (submit "d" two_parts three).1
        ≡ (if two_parts.at_head then v ∷ pending_queue three else pending_queue three ++ v ∷ []))
unfolding get ai_tts.Common.Text.is_blank
submit-pending_queue_example = submit-pending_queue "d" two_parts three refl refl

move_to_head-next_pending_example :
    (v : Utterance) × ((move_to_head "c" three).0 ≡ ok v)
    × (v ≡ set_order_key v.order_key (clip "c" queued 3))
    × (next_pending none (move_to_head "c" three).1 ≡ some v)
unfolding get
move_to_head-next_pending_example =
    move_to_head-next_pending "c" three (clip "c" queued 3) refl refl refl
