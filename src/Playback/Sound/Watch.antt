-- ===== src/Playback/Sound/Watch.antt =====
-- The end of a clip in src/aitts/playback.py keeps the device sound.
use ai_tts.Common.{
  arith, ◌+◌, inl, inr, Bool-cases, ℕ, ◌≡◌, refl, Bool, true, false, not, ◌&&◌, Option, none, some,
  List, [], ◌∷◌, String, is_none, if_either,
}
use ai_tts.Model.{Utterance, UtteranceSegment}
use ai_tts.Store.Reads.{get}
use ai_tts.Playback.{Player, set_rate}
use ai_tts.Store.Exec.{Exec}
use ai_tts.Playback.Act.{Play, pure, gets, on_store, modify, ◌>>=◌}
use ai_tts.Playback.Watch.{
  end_document, end_segment, fail_segment, finish_found, finish_segment_playback, finish_clip,
  settle_at, settle_clip, free_device, watch_current, watch, watch_outro,
}
use ai_tts.Playback.Plan.{clear_entry, clear_from, clear_preempted}
use ai_tts.Playback.Sound.Restore.{absent_id}
use ai_tts.Playback.Sound.{IsSound, Holds, Holds-bind, if-Holds}

-- The sink has ended, but is still marked.
unfoldable pub IsEnded : Player → Type 0
IsEnded p = IsSound p × (p.sink.active ≡ false)

bind-Ended :
    {A B : Type 0} (m : Play A) (f : A → Play B)
    → Holds IsEnded IsEnded m
    → ((a : A) → Holds IsEnded IsEnded (f a))
    → Holds IsEnded IsEnded (m >>= f)
bind-Ended m f h k = Holds-bind m f h k (λ p v. v)

pure-Ended : {A : Type 0} (a : A) → Holds IsEnded IsEnded (pure a)
pure-Ended a = record { at = λ p v. v }

gets-Ended : {A : Type 0} (f : Player → A) → Holds IsEnded IsEnded (gets f)
gets-Ended f = record { at = λ p v. v }

store-Ended : {A : Type 0} (m : Exec A) → Holds IsEnded IsEnded (on_store m)
unfolding IsEnded IsSound
store-Ended m = record { at = λ p v. v }

ruleset ended_rules = (bind-Ended, pure-Ended, gets-Ended, store-Ended, if-Holds)

end_document-Ended : (u : Utterance) → Holds IsEnded IsEnded (end_document u)
unfolding end_document
end_document-Ended u = search ended_rules depth 8

end_segment-Ended : (u : Utterance) (g : UtteranceSegment) → Holds IsEnded IsEnded (end_segment u g)
unfolding end_segment
end_segment-Ended u g = search (ended_rules, end_document-Ended)

fail_segment-Ended :
    (u : Utterance) (g : UtteranceSegment) → Holds IsEnded IsEnded (fail_segment u g)
unfolding fail_segment
fail_segment-Ended u g = search ended_rules depth 8

finish_found-Ended :
    (u : Utterance) (b : Bool) (g : Option UtteranceSegment)
    → Holds IsEnded IsEnded (finish_found u b g)
unfolding finish_found
finish_found-Ended u b none = pure-Ended tt
finish_found-Ended u b (some g) = search (ended_rules, end_segment-Ended, fail_segment-Ended)

finish_segment_playback-Ended :
    (u : Utterance) (i : ℕ) (b : Bool) → Holds IsEnded IsEnded (finish_segment_playback u i b)
unfolding finish_segment_playback
finish_segment_playback-Ended u i b = search (ended_rules, finish_found-Ended)

finish_clip-Ended : (u : Utterance) (b : Bool) → Holds IsEnded IsEnded (finish_clip u b)
unfolding finish_clip
finish_clip-Ended u b = search ended_rules depth 8

settle_at-Ended :
    (u : Utterance) (b : Bool) (i : Option ℕ) → Holds IsEnded IsEnded (settle_at u b i)
unfolding settle_at
settle_at-Ended u b (some i) = finish_segment_playback-Ended u i b
settle_at-Ended u b none = finish_clip-Ended u b

settle_clip-Ended : (u : Option Utterance) (b : Bool) → Holds IsEnded IsEnded (settle_clip u b)
unfolding settle_clip
settle_clip-Ended none b = pure-Ended tt
settle_clip-Ended (some u) b = search (ended_rules, settle_at-Ended) depth 8

on_end : {A : Type 0} (m : Play A) → Holds IsEnded IsEnded m → Holds IsEnded IsSound m
unfolding IsEnded
on_end m h = record { at = λ p v. (h.at p v).0 }

free_device-Sound : (id : String) → Holds IsEnded IsSound (modify (free_device id))
unfolding IsEnded IsSound free_device
free_device-Sound id = record {
  at = λ p v. (λ h. absurd (ground (arith, v.1)), v.0.1, λ h. absurd (ground arith));
}

watch_current-Sound : (id : Option String) (b : Bool) → Holds IsEnded IsSound (watch_current id b)
unfolding watch_current IsEnded
watch_current-Sound none b = record { at = λ p v. v.0 }
watch_current-Sound (some id) b = record {
  at = λ p v.
      (Holds-bind _ _ (settle_clip-Ended (get id p.store) b) (λ t. free_device-Sound id)
          (λ q w. w.0)).at
        p v;
}

pub watch-IsSound : (p : Player) → IsSound p → p.sink.active ≡ false → IsSound (watch p).1
unfolding watch IsEnded
watch-IsSound p v e =
    if_either (λ (m : Play (Unit {0})). IsSound (m p).1)
      (not p.sink.natural && is_none p.sink.error) _ _ (λ h. v)
      (λ h. (watch_current-Sound p.current_id p.sink.natural).at p (v, e))

pub watch_outro-IsSound : (p : Player) → IsSound p → p.sink.active ≡ false → IsSound (watch_outro p)
unfolding watch_outro IsSound set_rate
watch_outro-IsSound p v e = (λ h. absurd (ground (arith, e)), v.1, λ h. absurd (ground arith))

-- The device is sound, and no closing cue plays.
IsPlain : Player → Type 0
IsPlain p =
    (p.sink.active ≡ true → p.sink_active ≡ true)
    × (p.sink.overlaps ≡ 0)
    × (p.sink_active ≡ true → is_none p.current_id ≡ false)

bind-Plain :
    {A B : Type 0} (m : Play A) (f : A → Play B)
    → Holds IsPlain IsPlain m
    → ((a : A) → Holds IsPlain IsPlain (f a))
    → Holds IsPlain IsPlain (m >>= f)
bind-Plain m f h k = Holds-bind m f h k (λ p v. v)

pure-Plain : {A : Type 0} (a : A) → Holds IsPlain IsPlain (pure a)
pure-Plain a = record { at = λ p v. v }

gets-Plain : {A : Type 0} (f : Player → A) → Holds IsPlain IsPlain (gets f)
gets-Plain f = record { at = λ p v. v }

store-Plain : {A : Type 0} (m : Exec A) → Holds IsPlain IsPlain (on_store m)
unfolding IsPlain
store-Plain m = record { at = λ p v. v }

clear_entry-Plain : (u : Option Utterance) (i : Option ℕ) → Holds IsPlain IsPlain (clear_entry u i)
unfolding clear_entry
clear_entry-Plain none i = pure-Plain 0
clear_entry-Plain (some u) i =
    search (bind-Plain, pure-Plain, gets-Plain, store-Plain, if-Holds) depth 8

clear_from-Plain : (saved : List (String × Option ℕ)) → Holds IsPlain IsPlain (clear_from saved)
unfolding clear_from IsPlain
clear_from-Plain [] = pure-Plain 0
clear_from-Plain ((id, i) ∷ saved) = record {
  at = λ p v.
      (bind-Plain (clear_entry (get id p.store) i)
          (λ one. clear_from saved >>= λ cleared. pure (one + cleared))
          (clear_entry-Plain (get id p.store) i)
          (λ one.
            bind-Plain (clear_from saved) (λ cleared. pure (one + cleared)) (clear_from-Plain saved)
              (λ cleared. pure-Plain (one + cleared)))).at
        (record p { preempted_stack = saved }) v;
}

plain-IsSound : (p : Player) → IsPlain p → IsSound p
unfolding IsPlain IsSound
plain-IsSound p (marks, clean, taken) = (marks, clean, λ h c. absurd (ground (arith, taken h, c)))

waiting-IsPlain :
    (x : String × Option ℕ) (saved : List (String × Option ℕ)) (p : Player)
    → IsSound p
    → p.preempted_stack ≡ x ∷ saved
    → IsPlain p
unfolding IsPlain IsSound
waiting-IsPlain x saved p (marks, clean, outro) e = (
  marks,
  clean,
  λ h. elim (Bool-cases (is_none p.current_id)) [
    | inl free ↦ absurd (ground (arith, outro h (absent_id p.current_id free), e))
    | inr taken ↦ taken
  ],
)

-- A clip that waits shows that no closing cue plays.
clear_stack-IsSound :
    (saved : List (String × Option ℕ)) (p : Player)
    → IsSound p
    → p.preempted_stack ≡ saved
    → IsSound (clear_from saved p).1
unfolding clear_from
clear_stack-IsSound [] p v e = v
clear_stack-IsSound (x ∷ saved) p v e =
    plain-IsSound (clear_from (x ∷ saved) p).1
      ((clear_from-Plain (x ∷ saved)).at p (waiting-IsPlain x saved p v e))

pub clear_preempted-Sound : Holds IsSound IsSound clear_preempted
unfolding clear_preempted
clear_preempted-Sound = record { at = λ p v. clear_stack-IsSound p.preempted_stack p v refl }
