-- ===== src/Tests/Segments.antt =====
-- The theorems about segments at a concrete text of three paragraphs and more than sixty words.
use Prim.Native.Char.{code}
use Prim.Native.String.{◌++◌}
use ai_tts.Segments.Spoken.{clean_spoken_text, with_terminal_punctuation, without_task_marker}
use ai_tts.Segments.Blocks.{Nodes, end, node}
use ai_tts.Segments.Markdown.{inline_text, render, sections_of}
use ai_tts.Segments.Prepare.{
  without_front_matter, prepare_speech_segments, prepare_speech_segments-total,
}
use ai_tts.Common.{
  ℕ, ◌≡◌, ◌≤◌, ◌⊎◌, refl, true, none, String, Option, some, List, [], ◌∷◌, leb, All, map,
}
use ai_tts.Segments.{word_count, join, paragraphs, paragraph_segments, split_from, paragraph_break}
use ai_tts.Segments.Words.{total_words}
use ai_tts.Segments.Bounded.{max_segment_words}
use ai_tts.Segments.Sections.{structural_sections, segment_text}
use ai_tts.Segments.Whole.{segment_text-total}
use ai_tts.Segments.Lossless.{paragraph_segments-join}

abbrev essay : String
essay =
    "The daemon keeps a queue of things to say and says them one after the other, in order.\n\nIt is only fair that the listener decides.\n \nWhen the listener speaks the daemon stops, waits until the listener is done, and then goes on where it stopped, so that nothing which was owed to the listener is lost and nothing is said twice over, unless the listener asks for it."

paragraphs_example : paragraphs " One.\n \nTwo\nlines.\r\n\r\n" ≡ "One." ∷ "Two\nlines." ∷ []
unfolding paragraphs split_from paragraph_break ai_tts.Common.Text.is_space
paragraphs_example = refl

paragraph_segments-join_example :
    (segments : List String) × (paragraph_segments essay ≡ some segments)
    × ((segments ≡ essay ∷ []) ⊎ (join segments ≡ join (paragraphs essay)))
paragraph_segments-join_example = paragraph_segments-join essay

clean_spoken_text_example :
    clean_spoken_text (λ c. leb b'a' (code c)) "a * b *, *c* and 2 * 3 * 4 *!* ."
    ≡ "a b, c and 2 * 3 * 4 *!* ."
unfolding clean_spoken_text ai_tts.Common.Text.is_space
clean_spoken_text_example = refl

structural_sections_example :
    structural_sections "Lead.\n# One\ntext\n  ## Two\n#None"
    ≡ ("Lead.\n" ∷ "# One\ntext\n" ∷ "  ## Two\n#None" ∷ [])
unfolding structural_sections ai_tts.Common.Text.is_space
structural_sections_example = refl

-- A text of more than 180 words, under a heading.
abbrev report : String
report = "# Report\n\n" ++ essay ++ " " ++ essay ++ " " ++ essay

segment_text-total_example :
    (segments : List String) × (segment_text report ≡ some segments)
    × All (λ g. word_count g ≤ max_segment_words) segments
    × (total_words segments ≡ word_count report)
segment_text-total_example = segment_text-total report

-- What a parser makes of "# Title" and of a list of two items that begins with 3.
abbrev tree : Nodes
tree =
    let said = λ (s : String) (rest : Nodes). node "text" s 1 end rest in
    let item = λ (s : String) (rest : Nodes).
      node "list_item" "" 1 (node "paragraph" "" 1 (said s end) end) rest in
    node "heading" "" 1 (said "Title" end)
      (node "ordered_list" "" 3 (item "One" (item "[x] Two" end)) end)

sections_of_example : sections_of (λ c. true) tree ≡ "Title.\n\n3. One.\n4. Two." ∷ []
unfolding render inline_text with_terminal_punctuation without_task_marker clean_spoken_text
    ai_tts.Common.Text.decimal ai_tts.Common.Text.decimal_from ai_tts.Common.Text.is_space
sections_of_example = refl

without_front_matter_example : without_front_matter "---\r\ntitle: x\n--- \n\nText.\n" ≡ "Text.\n"
unfolding without_front_matter ai_tts.Common.Text.is_space
without_front_matter_example = refl

prepare_speech_segments-total_example :
    (segments : List String) × (prepare_speech_segments (λ c. true) (λ s. tree) report none
      ≡ some segments)
    × All (λ g. word_count g ≤ max_segment_words) segments
prepare_speech_segments-total_example =
    prepare_speech_segments-total (λ c. true) (λ s. tree) report none
