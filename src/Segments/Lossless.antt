-- ===== src/Segments/Lossless.antt =====
-- The segments of src/aitts/segmentation.py hold all of a text's paragraphs, in order.
use Prim.Native.String.{◌++◌}
use mathlib.Core.List.{◌++◌ as append}
use text.Mathlib.TextLemmas.{append_assoc}
use ai_tts.Common.{
  ℕ, ◌+◌, ◌≤◌, ◌<◌, ◌≡◌, ◌⊎◌, refl, ◌∙◌, sym, ap, false, String, Option, none, some, List, [], ◌∷◌,
  arith, Bool-cases, inl, inr, leb, ltb, length, is_empty,
}
use ai_tts.Segments.{
  word_count, join, Grouping, add_paragraph, group, extend_last, close_group, no_groups, several,
  paragraphs, paragraph_segments, paragraph_segment_min_words, paragraph_document_min_words,
}
use ai_tts.Segments.Words.{total_words, paragraphs-words}

append_nil : (xs : List String) → append xs [] ≡ xs
append_nil [] = refl
append_nil (x ∷ xs) = rw (append_nil xs)

appended_twice : (xs ys zs : List String) → append (append xs ys) zs ≡ append xs (append ys zs)
appended_twice [] ys zs = refl
appended_twice (x ∷ xs) ys zs = rw (appended_twice xs ys zs)

join_first :
    (y : String) (ys zs : List String) → join (join (y ∷ ys) ∷ zs) ≡ join (y ∷ append ys zs)
join_first y [] zs = refl
join_first y (w ∷ ws) [] = rw (append_nil ws)
join_first y (w ∷ ws) (z ∷ zs) = rw (sym (join_first w ws (z ∷ zs))) (
    append_assoc y ("\n\n" ++ join (w ∷ ws)) ("\n\n" ++ join (z ∷ zs))
    ∙ ap (λ t. y ++ t) (append_assoc "\n\n" (join (w ∷ ws)) ("\n\n" ++ join (z ∷ zs))))

-- Joining some of the parts first makes no difference.
join_group :
    (xs : List String) (y : String) (ys zs : List String)
    → join (append xs (join (y ∷ ys) ∷ zs)) ≡ join (append xs (y ∷ append ys zs))
join_group [] y ys zs = join_first y ys zs
join_group (x ∷ []) y ys zs = ap (λ t. x ++ "\n\n" ++ t) (join_first y ys zs)
join_group (x ∷ v ∷ xs) y ys zs = ap (λ t. x ++ "\n\n" ++ t) (join_group (v ∷ xs) y ys zs)

-- Extending the last part is joining the parts after it.
extend_last-join :
    (r : String) (rs : List String) (q : String) (qs : List String)
    → (t : String) × (ts : List String) × (extend_last ("\n\n" ++ join (q ∷ qs)) (r ∷ rs)
        ≡ some (t ∷ ts))
      × (join (t ∷ ts) ≡ join (append (r ∷ rs) (q ∷ qs)))
extend_last-join r [] q qs = (r ++ ("\n\n" ++ join (q ∷ qs)), [], refl, refl)
extend_last-join r (s ∷ rs) q qs =
    let (t, ts, e, same) = extend_last-join s rs q qs in
    (r, t ∷ ts, rw e, ap (λ v. r ++ "\n\n" ++ v) same)

-- Closing a group leaves what is joined as it was.
closed_group :
    (rs pending : List String) (p : String) (ps : List String)
    → join (append (append (append rs (join (append pending (p ∷ [])) ∷ [])) []) ps)
      ≡ join (append (append rs pending) (p ∷ ps))
closed_group rs [] p ps =
    rw (append_nil (append rs (p ∷ [])), appended_twice rs (p ∷ []) ps, append_nil rs) refl
closed_group rs (y ∷ ys) p ps =
    let closed : String = join (y ∷ append ys (p ∷ [])) in
    rw
      (
        append_nil (append rs (closed ∷ [])),
        appended_twice rs (closed ∷ []) ps,
        appended_twice rs (y ∷ ys) (p ∷ ps),
        sym (appended_twice ys (p ∷ []) ps),
      )
      (join_group rs y (append ys (p ∷ [])) ps)

flat : Grouping → List String
flat g = append g.result g.pending

add_paragraph-join :
    (p : String) (g : Grouping) (ps : List String)
    → join (append (flat (add_paragraph p g)) ps) ≡ join (append (flat g) (p ∷ ps))
unfolding add_paragraph flat
add_paragraph-join p g ps =
    elim (Bool-cases (leb paragraph_segment_min_words (g.pending_words + word_count p))) [
      | inl enough ↦ rw enough (closed_group g.result g.pending p ps)
      | inr few ↦
          rw
            (
              few,
              appended_twice g.result (append g.pending (p ∷ [])) ps,
              appended_twice g.pending (p ∷ []) ps,
              appended_twice g.result g.pending (p ∷ ps),
            )
            refl
    ]

group-join :
    (ps : List String) (g : Grouping) → join (flat (group ps g)) ≡ join (append (flat g) ps)
unfolding flat
group-join [] g = ap join (sym (append_nil (append g.result g.pending)))
group-join (p ∷ ps) g = group-join ps (add_paragraph p g) ∙ add_paragraph-join p g ps

-- A group has been closed, or the words that are pending and to come will close one.
Ready : Grouping → List String → Type 0
Ready g ps =
    (is_empty g.result ≡ false)
    ⊎ ((g.pending_words < paragraph_segment_min_words)
        × (paragraph_segment_min_words ≤ g.pending_words + total_words ps))

is_empty-last : (xs : List String) (x : String) → is_empty (append xs (x ∷ [])) ≡ false
is_empty-last [] x = refl
is_empty-last (y ∷ ys) x = refl

add_paragraph-Ready :
    (p : String) (ps : List String) (g : Grouping) → Ready g (p ∷ ps) → Ready (add_paragraph p g) ps
unfolding add_paragraph Ready
add_paragraph-Ready p ps g h =
    elim (Bool-cases (leb paragraph_segment_min_words (g.pending_words + word_count p))) [
      | inl enough ↦ rw enough (inl (is_empty-last g.result (join (append g.pending (p ∷ [])))))
      | inr few ↦
          rw few (elim h [
            | inl closed ↦ inl closed
            | inr (small, owed) ↦ inr (ground arith, omega arith)
          ])
    ]

group-result : (ps : List String) (g : Grouping) → Ready g ps → is_empty (group ps g).result ≡ false
unfolding Ready
group-result [] g (inl closed) = closed
group-result [] g (inr (small, owed)) = absurd (omega arith)
group-result (p ∷ ps) g h = group-result ps (add_paragraph p g) (add_paragraph-Ready p ps g h)

closed-join :
    (rs pending : List String) (n : ℕ)
    → is_empty rs ≡ false
    → (ts : List String) × (close_group
          (record { result = rs; pending = pending; pending_words = n })
        ≡ some ts)
      × (join ts ≡ join (append rs pending))
unfolding close_group
closed-join [] pending n h = absurd (ground arith)
closed-join (r ∷ rs) [] n h = (r ∷ rs, refl, ap join (sym (append_nil (r ∷ rs))))
closed-join (r ∷ rs) (q ∷ qs) n h =
    let (t, ts, e, same) = extend_last-join r rs q qs in (t ∷ ts, e, same)

group-closes :
    (ps : List String)
    → paragraph_segment_min_words ≤ total_words ps
    → (ts : List String) × (close_group (group ps no_groups) ≡ some ts) × (join ts ≡ join ps)
unfolding Ready flat
group-closes ps h =
    let g = group ps no_groups in
    let (ts, e, same) =
      closed-join g.result g.pending g.pending_words
        (group-result ps no_groups (inr (omega arith, omega arith))) in
    (ts, e, same ∙ group-join ps no_groups)

chosen :
    (text : String) (ps : List String) (o : Option (List String))
    → (ts : List String) × (o ≡ some ts) × (join ts ≡ join ps)
    → (segments : List String) × (several text o ≡ some segments)
      × ((segments ≡ text ∷ []) ⊎ (join segments ≡ join ps))
chosen text ps none (ts, e, same) = absurd (ground arith)
chosen text ps (some rs) (ts, e, same) = elim (Bool-cases (ltb 1 (length rs))) [
  | inl many ↦ let d : rs ≡ ts = ground arith in rw many (rs, refl, inr (ap join d ∙ same))
  | inr one ↦ rw one (text ∷ [], refl, inl refl)
]

-- Segmenting paragraphs never raises an IndexError: a text is left whole, or the segments that it is
-- split into, joined by blank lines, are all of its paragraphs, joined by blank lines.
pub paragraph_segments-join :
    (text : String)
    → (segments : List String) × (paragraph_segments text ≡ some segments)
      × ((segments ≡ text ∷ []) ⊎ (join segments ≡ join (paragraphs text)))
unfolding paragraph_segments
paragraph_segments-join text =
    elim (Bool-cases (ltb (word_count text) paragraph_document_min_words)) [
      | inl short ↦ rw short (text ∷ [], refl, inl refl)
      | inr long ↦ elim (Bool-cases (leb (length (paragraphs text)) 1)) [
        | inl single ↦ rw (long, single) (text ∷ [], refl, inl refl)
        | inr more ↦
            let owed : paragraph_segment_min_words ≤ total_words (paragraphs text) =
              rw (paragraphs-words text) (ground arith) in
            rw (long, more)
              (chosen text (paragraphs text) (close_group (group (paragraphs text) no_groups))
                (group-closes (paragraphs text) owed))
      ]
    ]
