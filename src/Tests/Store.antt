-- ===== src/Tests/Store.antt =====
-- The theorems about the store's methods at concrete databases.
use ai_tts.Common.{◌≡◌, refl, false, some, [], ◌∷◌}
use ai_tts.Model.{playing, ready, played}
use ai_tts.Store.{Store}
use ai_tts.Store.Calls.{after, skips, removes}
use ai_tts.Store.Reads.{get, get_segment, is_protected}
use ai_tts.Store.Lasting.{IsKeyed}
use ai_tts.Store.Lasting.History.{Fate, after-Fate, after-IsKeyed}
use ai_tts.Store.Forgotten.{is_named, forget_terminal_audio-is_named, forget_terminal_audio-live}
use ai_tts.Store.Queue.{forget_terminal_audio}
use ai_tts.Tests.Data.{clip, segment, three, database}

after-Fate_example : Fate "b" (clip "b" playing 2) (after three (skips "b" (some 0) 300 (some 300)))
unfolding get
after-Fate_example =
    after-Fate three (skips "b" (some 0) 300 (some 300)) "b" (clip "b" playing 2) refl refl

after-IsKeyed_example : IsKeyed (after three (removes "a"))
after-IsKeyed_example = after-IsKeyed three (removes "a") refl

abbrev heard : Store
heard = database (record (clip "a" played 1) { audio_path = some "a.wav" } ∷ []) []

forget_terminal_audio-is_named_example :
    is_named "a.wav" (forget_terminal_audio "a.wav" heard).1 ≡ false
unfolding is_protected
forget_terminal_audio-is_named_example = forget_terminal_audio-is_named "a.wav" heard refl

-- An utterance that is still to be played, with a segment, beside one that has been.
abbrev shared : Store
shared =
    database
      (record (clip "a" played 1) { audio_path = some "a.wav" }
        ∷ record (clip "b" ready 2) { audio_path = some "a.wav" }
        ∷ [])
      (segment "b" 0 ready ∷ [])

forget_terminal_audio-live_example :
    let t = (forget_terminal_audio "a.wav" shared).1 in
    (get "b" t ≡ some (record (clip "b" ready 2) { audio_path = some "a.wav" }))
    × (get_segment "b" 0 t ≡ get_segment "b" 0 shared)
unfolding get
forget_terminal_audio-live_example =
    forget_terminal_audio-live "a.wav" "b" 0 shared
      (record (clip "b" ready 2) { audio_path = some "a.wav" }) refl refl refl
