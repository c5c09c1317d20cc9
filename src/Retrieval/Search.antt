-- ===== src/Retrieval/Search.antt =====
-- The search of the chunks by FTS5, whose tables and ranking are parameters.
use membox.Base.{
  ℕ, ◌*◌, String, ◌||◌, Option, none, some, List, [], ◌∷◌, ◌==◌, leb, if◌then◌else◌, length, str_eq,
}
use membox.Base.Text.{Lowering, is_empty, strip}
use membox.Graph.Tables.{Document}
use membox.Retrieval.Knapsack.{Snippet}
use membox.Retrieval.Terms.{
  contains_cjk, cjk_anchor_terms, cjk_trigram_terms, fts5_or_query, fts5_query_from_terms,
  lexical_anchor_terms, lexical_row_score, cjk_row_score,
}
use membox.Retrieval.Excerpt.{cjk_focus_query, dedup_chunk_rows}

-- The rows of a MATCH expression, of a project if one is given, best first and no more than a limit;
-- `none` where the table is missing. `like` is the search by LIKE, newest first.
pub record Index : Type 0 where
  pub documents_fts : Option (String → Option String → ℕ → List Document)
  pub documents_fts_trigram : Option (String → Option String → ℕ → List Document)
  pub like : List String → Option String → ℕ → List Document

-- `sorted(rows, key=…)`, by a score that is negated; equal rows keep their order.
unfoldable pub insert_scored : (Document → ℕ) → Document → List Document → List Document
insert_scored score d [] = d ∷ []
insert_scored score d (e ∷ rest) =
    let later = insert_scored score d rest in
    if leb (score e) (score d) then d ∷ e ∷ rest else e ∷ later

unfoldable pub sort_scored : (Document → ℕ) → List Document → List Document
unfolding insert_scored
sort_scored score [] = []
sort_scored score (d ∷ rest) = insert_scored score d (sort_scored score rest)

abbrev pub cjk_score : Lowering → List String → Document → ℕ
cjk_score lower terms d = cjk_row_score lower d.content d.section terms

unfoldable pub short_cjk_like_chunks : Lowering → Index → String → ℕ → Option String → List Snippet
unfolding cjk_anchor_terms sort_scored dedup_chunk_rows cjk_focus_query
short_cjk_like_chunks lower index query limit project_filter =
    let terms = cjk_anchor_terms 1 2 8 query in
    if length terms == 0
    then []
    else dedup_chunk_rows lower
        (sort_scored (cjk_score lower terms) (index.like terms project_filter (limit * 8))) limit
        (some (cjk_focus_query query))

-- The rows come in the order of bm25, which breaks the ties of the score.
unfoldable pub rerank_cjk : Lowering → String → ℕ → List Document → List Snippet
unfolding sort_scored dedup_chunk_rows cjk_focus_query cjk_anchor_terms
rerank_cjk lower query limit rows =
    let focus = cjk_focus_query query in
    dedup_chunk_rows lower (sort_scored (cjk_score lower (cjk_anchor_terms 2 4 96 focus)) rows)
      limit (some focus)

unfoldable pub cjk_fts_chunks : Lowering → Index → String → ℕ → Option String → List Snippet
unfolding short_cjk_like_chunks cjk_trigram_terms rerank_cjk fts5_query_from_terms
cjk_fts_chunks lower index query limit project_filter =
    let terms = cjk_trigram_terms query in
    if length terms == 0
    then short_cjk_like_chunks lower index query limit project_filter
    else elim index.documents_fts_trigram [
      | none ↦ []
      | some search ↦
          rerank_cjk lower query limit
            (search (fts5_query_from_terms terms) project_filter (limit * 8))
    ]

unfoldable pub lexical_fts_chunks : Lowering → Index → String → ℕ → Option String → List Snippet
unfolding fts5_or_query lexical_anchor_terms lexical_row_score sort_scored dedup_chunk_rows
lexical_fts_chunks lower index query limit project_filter =
    let match_expr = fts5_or_query query in
    let anchors = lexical_anchor_terms lower 24 query in
    if str_eq match_expr "\"\"" then [] else elim index.documents_fts [
      | none ↦ []
      | some search ↦
          dedup_chunk_rows lower
            (sort_scored (λ d. lexical_row_score lower d.content anchors)
              (search match_expr project_filter (limit * 16)))
            limit (some query)
    ]

unfoldable pub fts_fallback_chunks : Lowering → Index → String → ℕ → Option String → List Snippet
unfolding cjk_fts_chunks lexical_fts_chunks contains_cjk
fts_fallback_chunks lower index query limit project_filter =
    let cjk =
      if contains_cjk query then cjk_fts_chunks lower index query limit project_filter else [] in
    if is_empty (strip query) || limit == 0 then [] else elim cjk [
      | [] ↦ lexical_fts_chunks lower index query limit project_filter
      | chunk ∷ chunks ↦ chunk ∷ chunks
    ]
