-- ===== src/Segments/Markdown.antt =====
-- The spoken projection of Markdown in src/aitts/segmentation.py: the tree that markdown-it parses,
-- which is an argument, is rendered to blocks, and these are segmented.
use Prim.Native.Char.{Char}
use Prim.Native.String.{◌++◌}
use mathlib.Core.List.{◌++◌ as append}
use ai_tts.Common.{
  ℕ, Bool, true, false, String, Option, List, [], ◌∷◌, mem_text, text_eq, if◌then◌else◌,
}
use ai_tts.Segments.{strip, join}
use ai_tts.Segments.Sections.{gather, segment_text}
use ai_tts.Segments.Spoken.{clean_spoken_text, collapse, with_terminal_punctuation}
use ai_tts.Segments.Blocks.{
  Nodes, end, node, SpokenBlock, is_plain_text_tree, Inline, join_by, spoken_parts, item_text,
  following, Rendered, block, first_number, add_blocks, audible,
}

module _ (is_alpha : Char → Bool) where
  -- `visit` of one node; `inner` visits its children.
  abbrev pub visit : String → String → Nodes → (Inline → Inline) → Inline → Inline
  visit type content children inner s =
      if text_eq type "code_inline"
      then record { pieces = s.pieces ++ clean_spoken_text is_alpha s.prose ++ content; prose = "" }
      else if mem_text type ("softbreak" ∷ "hardbreak" ∷ [])
      then record s { prose = s.prose ++ " " }
      else inside children
    where
      leaf : Inline
      leaf = if text_eq type "html_inline" then s else record s { prose = s.prose ++ content }

      inside : Nodes → Inline
      inside end = leaf
      inside (node t c i n m) = inner s

  abbrev pub visit_each : Nodes → Inline → Inline
  visit_each end s = s
  visit_each (node type content start children rest) s =
      visit_each rest (visit type content children (visit_each children) s)

  unfoldable pub inline_text : String → String → Nodes → String
  inline_text type content children =
      let s =
        visit type content children (visit_each children) (record { pieces = ""; prose = "" }) in
      strip (collapse false (s.pieces ++ clean_spoken_text is_alpha s.prose))

  abbrev pub cells : Nodes → List String
  cells end = []
  cells (node type content start children rest) =
      let others = cells rest in
      if mem_text type ("th" ∷ "td" ∷ [])
      then inline_text type content children ∷ others
      else others

  -- The rows of `_nodes_of_type(node, "tr")`, each rendered.
  abbrev pub rendered_rows : Nodes → List String
  rendered_rows end = []
  rendered_rows (node type content start children rest) =
      let inner = rendered_rows children in
      let others = rendered_rows rest in
      if text_eq type "tr"
      then with_terminal_punctuation (join_by ". " (spoken_parts (cells children))) ∷ others
      else append inner others

  unfoldable pub render_table : Nodes → String
  render_table children = join_by "\n" (spoken_parts (rendered_rows children))

  -- The blocks of one node.
  abbrev pub node_blocks : String → String → ℕ → Nodes → Rendered → List SpokenBlock
  node_blocks type content start children inner =
      if text_eq type "heading"
      then block (with_terminal_punctuation (inline_text type content children)) true ∷ []
      else if text_eq type "paragraph"
      then block (inline_text type content children) false ∷ []
      else if mem_text type ("code_block" ∷ "fence" ∷ [])
      then block (strip content) false ∷ []
      else if mem_text type ("bullet_list" ∷ "ordered_list" ∷ [])
      then block (join_by "\n" (inner.items (first_number type start))) false ∷ []
      else if text_eq type "table"
      then block (render_table children) false ∷ []
      else if text_eq type "hr"
      then []
      else inner.blocks

  unfoldable pub render : Nodes → Rendered
  render end = record { blocks = []; items = λ number. [] }
  render (node type content start children rest) =
      let inner = render children in
      let others = render rest in
      record {
        blocks = append (node_blocks type content start children inner) others.blocks;
        items = λ number. item_text number inner.blocks ∷ others.items (following number);
      }

  abbrev pub sections_of : Nodes → List String
  sections_of tree =
      joined (add_blocks (render tree).blocks (record { sections = []; current = [] })).sections
    where
      joined : List (List String) → List String
      joined [] = []
      joined (s ∷ ss) = join s ∷ joined ss

  abbrev pub segment_body : (String → Nodes) → String → Option (List String)
  segment_body parse body =
      let tree = parse body in
      let sections = gather (λ s. audible (segment_text s)) (sections_of tree) in
      if is_plain_text_tree tree then segment_text (clean_spoken_text is_alpha body) else sections
