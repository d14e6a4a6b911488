-- ===== src/Segments/Blocks.antt =====
-- The nodes and the blocks of a Markdown text in src/aitts/segmentation.py, and how blocks are put
-- together.
use Prim.Native.String.{◌++◌}
use mathlib.Core.List.{◌++◌ as append}
use ai_tts.Common.{
  ℕ, suc, Bool, true, not, ◌&&◌, String, Option, none, some, List, [], ◌∷◌, is_empty, mem_text,
  decimal, text_eq, if◌then◌else◌,
}
use ai_tts.Common.Table.{select_where}
use ai_tts.Segments.{strip}
use ai_tts.Segments.Spoken.{with_terminal_punctuation, without_task_marker}

-- Nodes beside one another: the type, the content, the `start` attribute (1 if it has none) and the
-- children of the first, and the nodes after it.
pub data Nodes : Type 0 where
  end : Nodes
  node : String → String → ℕ → Nodes → Nodes → Nodes

pub record SpokenBlock : Type 0 where
  pub text : String
  pub starts_section : Bool

abbrev pub plain_markdown_nodes : List String
plain_markdown_nodes = "root" ∷ "paragraph" ∷ "inline" ∷ "text" ∷ "softbreak" ∷ []

unfoldable pub is_plain_text_tree : Nodes → Bool
is_plain_text_tree end = true
is_plain_text_tree (node type content start children rest) =
    mem_text type plain_markdown_nodes && is_plain_text_tree children && is_plain_text_tree rest

-- The variables of `_inline_text`, each list of them joined.
pub record Inline : Type 0 where
  pub pieces : String
  pub prose : String

-- `separator.join(texts)`.
abbrev pub join_by : String → List String → String
join_by separator [] = ""
join_by separator (t ∷ []) = t
join_by separator (t ∷ u ∷ ts) = t ++ separator ++ join_by separator (u ∷ ts)

-- The texts that are not empty.
abbrev pub spoken_parts : List String → List String
spoken_parts ts = select_where (λ t. not (text_eq t "")) ts

abbrev pub block_texts : List SpokenBlock → List String
block_texts [] = []
block_texts (b ∷ bs) = b.text ∷ block_texts bs

-- One item of a list; `number` is absent in a bullet list.
abbrev pub item_text : Option ℕ → List SpokenBlock → String
item_text number blocks =
    let content = without_task_marker (join_by " " (spoken_parts (block_texts blocks))) in
    with_terminal_punctuation (numbered number content)
  where
    numbered : Option ℕ → String → String
    numbered none content = content
    numbered (some n) content = decimal n ++ ". " ++ content

abbrev pub following : Option ℕ → Option ℕ
following none = none
following (some n) = some (suc n)

-- What is rendered of some nodes as blocks, and as the items of a list.
pub record Rendered : Type 0 where
  pub blocks : List SpokenBlock
  pub items : Option ℕ → List String

abbrev pub block : String → Bool → SpokenBlock
block text starts_section = record { text = text; starts_section = starts_section }

abbrev pub first_number : String → ℕ → Option ℕ
first_number type start = if text_eq type "ordered_list" then some start else none

-- `sections` and `current` of `prepare_speech_segments`.
pub record Sections : Type 0 where
  pub sections : List (List String)
  pub current : List String

abbrev pub close_section : Sections → Sections
close_section s =
    if is_empty s.current
    then s
    else record { sections = append s.sections (s.current ∷ []); current = [] }

abbrev pub add_block : SpokenBlock → Sections → Sections
add_block b s =
    let t = if b.starts_section then close_section s else s in
    if text_eq b.text "" then t else record t { current = append t.current (b.text ∷ []) }

abbrev pub add_blocks : List SpokenBlock → Sections → Sections
add_blocks [] s = close_section s
add_blocks (b ∷ bs) s = add_blocks bs (add_block b s)

-- `if segment.strip()`.
abbrev pub audible : Option (List String) → Option (List String)
audible none = none
audible (some segments) = some (select_where (λ s. not (text_eq (strip s) "")) segments)
