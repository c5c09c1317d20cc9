-- ===== src/Retrieval/Excerpt.antt =====
-- The excerpts of long chunks, and the chunks that a search shows.
use Prim.Native.Nat.{min, max}
use Prim.Native.Char.{code}
use membox.Base.{
  ℕ, zero, suc, ◌+◌, ◌-◌, ◌*◌, String, Bool, true, false, not, ◌&&◌, ◌||◌, Option, none, some, List,
  [], ◌∷◌, ◌++◌, ◌==◌, leb, ltb, if◌then◌else◌, any_of, all_of, map, select, length,
}
use membox.Base.Text.{Lowering, is_empty, strip, contains, concat, join, text_length, member}
use membox.Chunk.Tokens.{est_tokens}
use membox.Graph.Tables.{Document}
use membox.Retrieval.Knapsack.{Snippet}
use membox.Retrieval.Chunks.{choose_all, round_robin_by_source}
use membox.Retrieval.Spans.{Span, sort_spans, merge_spans}
use membox.Retrieval.Terms.{
  slice_text, take_text, drop_text, contains_cjk, cjk_anchor_terms, lexical_anchor_terms,
  cjk_content_score,
}

unfoldable pub has_prefix : String → String → Bool
has_prefix String.[] s = true
has_prefix (String.◌∷◌ c part) String.[] = false
has_prefix (String.◌∷◌ c part) (String.◌∷◌ d s) = code c == code d && has_prefix part s

-- The positions at which a term occurs, each search starting `step` characters after the last
-- position; `skip` is what is left of the step.
unfoldable pub occurrences : String → ℕ → ℕ → ℕ → String → List ℕ
unfolding has_prefix
occurrences term step pos skip String.[] = []
occurrences term step pos (suc skip) (String.◌∷◌ c s) = occurrences term step (pos + 1) skip s
occurrences term step pos zero (String.◌∷◌ c s) =
    let here = has_prefix term (String.◌∷◌ c s) in
    let rest = occurrences term step (pos + 1) (if here then step - 1 else 0) s in
    if here then pos ∷ rest else rest

-- `s.find(term)`
unfoldable pub find_text : String → String → Option ℕ
unfolding occurrences
find_text term s = elim (occurrences term 1 0 0 s) [ [] ↦ none | pos ∷ rest ↦ some pos ]

-- A window with the anchor terms in it, or its weight.
pub record Window : Type 0 where
  pub start : ℕ
  pub end : ℕ
  pub covered : List String
  pub score : ℕ

-- `key=lambda item: (-score, start)`, kept in order where it is equal.
abbrev pub window_le : Window → Window → Bool
window_le a b = ltb b.score a.score || (a.score == b.score && leb a.start b.start)

unfoldable pub insert_window : Window → List Window → List Window
insert_window a [] = a ∷ []
insert_window a (b ∷ rest) =
    let later = insert_window a rest in if window_le a b then a ∷ b ∷ rest else b ∷ later

unfoldable pub sort_windows : List Window → List Window
unfolding insert_window
sort_windows [] = []
sort_windows (a ∷ rest) = insert_window a (sort_windows rest)

unfoldable pub lexical_window : List String → String → ℕ → String → ℕ → Window
unfolding slice_text
lexical_window anchors lowered size anchor pos =
    let start = pos - 320 in
    let end = min size (pos + text_length anchor + 680) in
    let covered = select (λ term. contains term (slice_text start end lowered)) anchors in
    record { start = start; end = end; covered = covered; score = length covered }

unfoldable pub lexical_windows : List String → String → ℕ → List String → List Window
unfolding occurrences lexical_window
lexical_windows anchors lowered size [] = []
lexical_windows anchors lowered size (anchor ∷ rest) =
    map (lexical_window anchors lowered size anchor)
      (occurrences anchor (text_length anchor) 0 0 lowered)
    ++ lexical_windows anchors lowered size rest

-- The first window, and each one with a term that is new, until there are `room` more.
unfoldable pub select_windows : ℕ → List String → List Window → Bool → List Window
select_windows zero covered windows first = []
select_windows (suc room) covered [] first = []
select_windows (suc room) covered (w ∷ windows) first =
    let taken = select_windows room (covered ++ w.covered) windows false in
    let passed = select_windows (suc room) covered windows first in
    if first || any_of (λ term. not (member term covered)) w.covered then w ∷ taken else passed

unfoldable pub excerpt_of : String → List Span → String
unfolding slice_text
excerpt_of content [] = content
excerpt_of content (span ∷ spans) = concat (
    "[excerpt]\n"
    ∷ join "\n...\n" (map (λ a. strip (slice_text a.0 a.1 content)) (span ∷ spans))
    ∷ [])

unfoldable pub lexical_excerpt : Lowering → String → String → String
unfolding lexical_anchor_terms lexical_windows sort_windows select_windows excerpt_of merge_spans
lexical_excerpt lower query content =
    let anchors = lexical_anchor_terms lower 24 query in
    let found = lexical_windows anchors (lower content) (text_length content) anchors in
    let selected = select_windows 2 [] (sort_windows found) true in
    if leb (est_tokens content) 700
    then content
    else excerpt_of content (merge_spans (map (λ w. (w.start, w.end)) selected))

-- `focus.split(marker, 1)[1]` and `[0]`, of the first marker that is in it.
unfoldable pub after_marker : List String → String → String
unfolding find_text drop_text
after_marker [] focus = focus
after_marker (marker ∷ markers) focus =
    let rest = after_marker markers focus in
    elim (find_text marker focus) [
      | none ↦ rest
      | some pos ↦ drop_text (pos + text_length marker) focus
    ]

unfoldable pub before_marker : List String → String → String
unfolding find_text take_text
before_marker [] focus = focus
before_marker (marker ∷ markers) focus =
    let rest = before_marker markers focus in
    elim (find_text marker focus) [ none ↦ rest | some pos ↦ take_text pos focus ]

unfoldable pub cjk_focus_query : String → String
unfolding after_marker before_marker
cjk_focus_query query =
    let focus = strip (
      before_marker ("是什么" ∷ "是哪个" ∷ "有哪些" ∷ "?" ∷ "？" ∷ [])
        (after_marker ("项目中" ∷ "项目里" ∷ "项目的" ∷ []) query)) in
    if is_empty focus then query else focus

-- A newline, an ideographic full stop and the two semicolons.
unfoldable pub is_mark : ℕ → Bool
is_mark c = c == 10 || c == 12290 || c == 65307 || c == 59

-- One past the last mark among the first characters, or the start.
unfoldable pub left_edge : ℕ → ℕ → ℕ → String → ℕ
unfolding is_mark
left_edge zero pos best s = best
left_edge (suc n) pos best String.[] = best
left_edge (suc n) pos best (String.◌∷◌ c s) =
    left_edge n (pos + 1) (if is_mark (code c) then pos + 1 else best) s

-- One past the first mark of the rest, or the end.
unfoldable pub right_edge : ℕ → ℕ → String → ℕ
unfolding is_mark
right_edge pos end String.[] = end
right_edge pos end (String.◌∷◌ c s) =
    let rest = right_edge (pos + 1) end s in if is_mark (code c) then pos + 1 else rest

unfoldable pub expand_cjk_span : String → ℕ → ℕ → Span
unfolding left_edge right_edge drop_text
expand_cjk_span text start end =
    (left_edge start 0 start text, right_edge end end (drop_text end text))

-- The window around a position, with its weight.
unfoldable pub cjk_window : List String → String → ℕ → ℕ → Window
unfolding expand_cjk_span slice_text cjk_content_score
cjk_window anchors text bonus pos =
    let span = expand_cjk_span text (pos - 80) (min (text_length text) (pos + 260)) in
    let window = slice_text span.0 span.1 text in
    record {
      start = span.0;
      end = span.1;
      covered = select (λ term. contains term window) anchors;
      score = cjk_content_score window anchors + bonus;
    }

unfoldable pub cjk_windows : List String → String → List String → List Window
unfolding occurrences cjk_window
cjk_windows anchors text [] = []
cjk_windows anchors text (term ∷ terms) =
    map (cjk_window anchors text 0) (occurrences term 1 0 0 text) ++ cjk_windows anchors text terms

-- The window at "current phase", where the query asks for it.
unfoldable pub phase_windows : Lowering → List String → String → String → List Window
unfolding find_text cjk_window
phase_windows lower anchors query text =
    if contains "当前阶段" query
    then elim (find_text "current phase" (lower text)) [
      | none ↦ []
      | some pos ↦ cjk_window anchors text 12 pos ∷ []
    ]
    else []

abbrev pub overlaps : Window → List Span → Bool
overlaps w selected = any_of (λ a. not (leb w.end a.0 || leb a.1 w.start)) selected

-- The marginal-gain gate: no new term, and less than half the weight of the best window.
abbrev pub is_weak : Window → List Span → List String → ℕ → Bool
is_weak w selected covered best_score =
    not (length selected == 0)
    && all_of (λ term. member term covered) w.covered
    && ltb (w.score * 2) best_score

unfoldable pub select_cjk : List Window → List Span → List String → ℕ → List Span
select_cjk [] selected covered best_score = selected
select_cjk (w ∷ windows) selected covered best_score =
    let skip = overlaps w selected || is_weak w selected covered best_score in
    let full = not skip && leb 2 (length selected + 1) in
    let rest =
      select_cjk windows (if skip then selected else selected ++ (w.start, w.end) ∷ [])
        (if skip then covered else covered ++ w.covered)
        (if skip then best_score else max best_score w.score) in
    if full then selected ++ (w.start, w.end) ∷ [] else rest

unfoldable pub cjk_snippet : String → Span → String
unfolding slice_text
cjk_snippet text a = concat (
    (if ltb 0 a.0 then "..." else "")
    ∷ strip (slice_text a.0 a.1 text)
    ∷ (if ltb a.1 (text_length text) then "..." else "")
    ∷ [])

-- The excerpt where it is shorter; no span is selected where there is no candidate.
unfoldable pub cjk_excerpt_of : String → List Span → String
unfolding cjk_snippet sort_spans
cjk_excerpt_of text [] = text
cjk_excerpt_of text (a ∷ selected) =
    let excerpt = concat (
      "\n\n[excerpt]\n"
      ∷ join "\n\n...\n\n" (map (cjk_snippet text) (sort_spans (a ∷ selected)))
      ∷ []) in
    if ltb (est_tokens excerpt) (est_tokens text) then excerpt else text

unfoldable pub cjk_excerpt : Lowering → String → String → String
unfolding cjk_anchor_terms phase_windows cjk_windows sort_windows select_cjk cjk_excerpt_of
cjk_excerpt lower query content =
    let text = strip content in
    let anchors = cjk_anchor_terms 2 4 96 query in
    let candidates = phase_windows lower anchors query text ++ cjk_windows anchors text anchors in
    if length anchors == 0
    then text
    else cjk_excerpt_of text (select_cjk (sort_windows candidates) [] [] 0)

unfoldable pub chunk_content : Lowering → Option String → String → String
unfolding cjk_excerpt lexical_excerpt contains_cjk
chunk_content lower none content = content
chunk_content lower (some query) content =
    if contains_cjk query
    then cjk_excerpt lower query content
    else lexical_excerpt lower query content

unfoldable pub dedup_chunk_rows : Lowering → List Document → ℕ → Option String → List Snippet
unfolding choose_all round_robin_by_source chunk_content
dedup_chunk_rows lower rows limit query =
    map
      (λ d. record {
        doc_id = d.id;
        content = chunk_content lower query d.content;
        project = d.project;
        source_path = d.source_path;
        section = d.section;
        doc_date = d.doc_date;
      })
      (round_robin_by_source (choose_all rows []) limit)
