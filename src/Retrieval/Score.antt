-- ===== src/Retrieval/Score.antt =====
-- `scored_query`: the composite score of the relations that the traversal collects. The operations on
-- floating-point numbers are parameters.
use Prim.Native.Nat.{min}
use Prim.Native.Char.{code}
use Prim.Native.String
use Prim.Native.String.{compare}
use membox.Base.{
  ℕ, ◌-◌, String, Bool, true, false, ◌&&◌, ◌||◌, Option, none, some, List, [], ◌∷◌, ◌==◌, leb, ltb,
  if◌then◌else◌, map, length, is_some, same_text, first_where,
}
use membox.Base.Text.{is_empty, strip, text_le, show}
use membox.Graph.Tables.{Document, Store}
use membox.Graph.Relations.{get_evidence_docs_with_meta, get_relation_embedding}
use membox.Retrieval.Knapsack.{Snippet}
use membox.Retrieval.Bfs.{Edge, walk, entity_name}

-- Floating-point arithmetic, and the cosine of two vectors of one dimension, which fails on others.
pub record Floats (F V : Type 0) : Type 0 where
  pub nought : F
  pub one : F
  pub two : F
  pub add : F → F → F
  pub sub : F → F → F
  pub mul : F → F → F
  pub div : F → F → F
  pub power : F → ℕ → F
  pub less : F → F → Bool
  pub dimension : V → ℕ
  pub cosine : V → V → Option F

pub record RetrievalConfig (F : Type 0) : Type 0 where
  pub hop_decay : F
  pub alpha : F

pub record ScoredTriple (F : Type 0) : Type 0 where
  pub relation_id : ℕ
  pub subject : String
  pub predicate : String
  pub object : String
  pub hops : ℕ
  pub score : F
  pub sim : F
  pub bm25 : F
  pub evidence : List Snippet
  pub best_date : String

-- The later of two dates, as texts; an empty one is no date.
unfoldable pub best_doc_date : List Snippet → String
best_doc_date [] = ""
best_doc_date (ev ∷ evs) =
    let rest = best_doc_date evs in
    elim ev.doc_date [ none ↦ rest | some date ↦ if text_le rest date then date else rest ]

-- The digits of ASCII inverted.
unfoldable pub invert_digits : String → String
invert_digits String.[] = String.[]
invert_digits (String.◌∷◌ c s) =
    let rest = invert_digits s in
    if leb 48 (code c) && leb (code c) 57
    then String.◌++◌ (show (57 - code c)) rest
    else String.◌∷◌ c rest

unfoldable pub date_sort_key : String → String
unfolding invert_digits
date_sort_key date = if is_empty date then "z" else invert_digits date

module _ {F V : Type 0} (floats : Floats F V) where
  abbrev pub lookup_float : List (ℕ × F) → ℕ → F
  lookup_float scores rid = elim (first_where (λ item. item.0 == rid) scores) [
    | none ↦ floats.nought
    | some item ↦ item.1
  ]

  -- The highest raw score of each relation.
  unfoldable pub keep_best : ℕ × F → List (ℕ × F) → List (ℕ × F)
  keep_best row [] = row ∷ []
  keep_best row (item ∷ items) =
      let rest = keep_best row items in
      if item.0 == row.0
      then (if floats.less item.1 row.1 then row else item) ∷ items
      else item ∷ rest

  unfoldable pub best_scores : List (ℕ × F) → List (ℕ × F) → List (ℕ × F)
  unfolding keep_best
  best_scores [] best = best
  best_scores (row ∷ rows) best = best_scores rows (keep_best row best)

  unfoldable pub lowest : F → List (ℕ × F) → F
  lowest v [] = v
  lowest v (item ∷ items) = lowest (if floats.less item.1 v then item.1 else v) items

  unfoldable pub highest : F → List (ℕ × F) → F
  highest v [] = v
  highest v (item ∷ items) = highest (if floats.less v item.1 then item.1 else v) items

  -- Min-max over the candidates; nought for all where the scores are equal.
  unfoldable pub normalise_scores : List (ℕ × F) → List (ℕ × F)
  unfolding lowest highest
  normalise_scores [] = []
  normalise_scores (item ∷ items) =
      let low = lowest item.1 items in
      let high = highest item.1 items in
      let scale : F → F = λ v.
        if floats.less low high
        then floats.div (floats.sub v low) (floats.sub high low)
        else floats.nought in
      map (λ row. (row.0, scale row.1)) (item ∷ items)

  -- `raw` are the rows of the FTS query, each with the negated bm25.
  unfoldable pub bm25_scores_for_relations :
      (List ℕ → String → List (ℕ × F)) → List ℕ → String → List (ℕ × F)
  unfolding best_scores normalise_scores
  bm25_scores_for_relations raw relation_ids query =
      if length relation_ids == 0 || is_empty (strip query)
      then []
      else normalise_scores (best_scores (raw relation_ids query) [])

  unfoldable pub similarity : Option V → Option V → F
  similarity none stored = floats.nought
  similarity (some query) none = floats.nought
  similarity (some query) (some vec) =
      let cos : F = elim (floats.cosine query vec) [ none ↦ floats.nought | some c ↦ c ] in
      if floats.dimension vec == floats.dimension query
      then floats.div (floats.add floats.one cos) floats.two
      else floats.nought

  -- `hop_decay**hops * (a * sim + (1 - a) * bm25)`, with a nought where there is no embedding.
  unfoldable pub composite : RetrievalConfig F → Option V → ℕ → F → F → F
  composite config query hops sim bm25 =
      let a : F = elim query [ none ↦ floats.nought | some v ↦ config.alpha ] in
      floats.mul (floats.power config.hop_decay hops)
        (floats.add (floats.mul a sim) (floats.mul (floats.sub floats.one a) bm25))

  abbrev pub snippet_of : Document → Snippet
  snippet_of d = record {
    doc_id = d.id;
    content = d.content;
    project = d.project;
    source_path = d.source_path;
    section = d.section;
    doc_date = d.doc_date;
  }

  -- `project_filter is not None and proj != project_filter` excludes the document.
  abbrev pub in_project : Option String → Snippet → Bool
  in_project none ev = true
  in_project (some project) ev = same_text ev.project project

  -- `evidence_map.get(rid, [])`
  unfoldable pub evidence_for : Option String → ℕ → List (ℕ × Document) → List Snippet
  evidence_for project_filter rid [] = []
  evidence_for project_filter rid (row ∷ rows) =
      let rest = evidence_for project_filter rid rows in
      if row.0 == rid && in_project project_filter (snippet_of row.1)
      then snippet_of row.1 ∷ rest
      else rest

  abbrev pub depth_or : ℕ → List (ℕ × ℕ) → ℕ → ℕ
  depth_or default depths e = elim (first_where (λ item. item.0 == e) depths) [
    | none ↦ default
    | some item ↦ item.1
  ]

  -- `-score`, then `hops`, then the newest date.
  abbrev pub ranks_before : ScoredTriple F → ScoredTriple F → Bool
  ranks_before a b =
      if floats.less b.score a.score
      then true
      else if floats.less a.score b.score
      then false
      else ltb a.hops b.hops
        || (a.hops == b.hops && text_le (date_sort_key a.best_date) (date_sort_key b.best_date))

  unfoldable pub insert_triple : ScoredTriple F → List (ScoredTriple F) → List (ScoredTriple F)
  insert_triple a [] = a ∷ []
  insert_triple a (b ∷ rest) =
      let later = insert_triple a rest in if ranks_before a b then a ∷ b ∷ rest else b ∷ later

  unfoldable pub sort_triples : List (ScoredTriple F) → List (ScoredTriple F)
  unfolding insert_triple
  sort_triples [] = []
  sort_triples (a ∷ rest) = insert_triple a (sort_triples rest)

  module _ (config : RetrievalConfig F) (raw : List ℕ → String → List (ℕ × F)) where
    unfoldable pub score_edge :
        Store V
        → ℕ
        → Option V
        → List (ℕ × F)
        → List (ℕ × ℕ)
        → List Snippet
        → ℕ × Edge
        → ScoredTriple F
    unfolding entity_name get_relation_embedding similarity composite best_doc_date
    score_edge s max_hops query bm25_map depths evs (rid, (key, src, tgt, pred)) =
        let hops = min (depth_or max_hops depths src) (depth_or max_hops depths tgt) in
        let sim = similarity query (get_relation_embedding rid s) in
        let bm25 = lookup_float bm25_map rid in
        record {
          relation_id = rid;
          subject = entity_name s src;
          predicate = pred;
          object = entity_name s tgt;
          hops = hops;
          score = composite config query hops sim bm25;
          sim = sim;
          bm25 = bm25;
          evidence = evs;
          best_date = best_doc_date evs;
        }

    -- With a project filter a relation without evidence of the project is passed over.
    unfoldable pub score_edges :
        Store V
        → ℕ
        → Option V
        → Option String
        → List (ℕ × F)
        → List (ℕ × ℕ)
        → List (ℕ × Document)
        → List (ℕ × Edge)
        → List (ScoredTriple F)
    unfolding score_edge evidence_for
    score_edges s max_hops query project_filter bm25_map depths rows [] = []
    score_edges s max_hops query project_filter bm25_map depths rows (edge ∷ edges) =
        let rest = score_edges s max_hops query project_filter bm25_map depths rows edges in
        let evs = evidence_for project_filter edge.0 rows in
        if is_some project_filter && length evs == 0
        then rest
        else score_edge s max_hops query bm25_map depths evs edge ∷ rest

    unfoldable pub scored_query :
        List ℕ → ℕ → String → Option V → Option String → Bool → Store V → List (ScoredTriple F)
    unfolding walk bm25_scores_for_relations score_edges sort_triples get_evidence_docs_with_meta
    scored_query seed_ids max_hops query query_embedding project_filter include_superseded s =
        let w = walk seed_ids max_hops include_superseded s in
        let relation_ids = map (λ item. item.0) w.collected in
        sort_triples (
          score_edges s max_hops query_embedding project_filter
            (bm25_scores_for_relations raw relation_ids query) w.entity_depth
            (get_evidence_docs_with_meta relation_ids s) w.collected)
