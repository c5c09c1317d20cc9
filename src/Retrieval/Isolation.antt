-- ===== src/Retrieval/Isolation.antt =====
-- A project filter keeps the other projects out of the scored triples.
use membox.Base.{
  ℕ, String, Bool, true, not, ◌&&◌, Option, some, List, [], ◌∷◌, ◌==◌, all_of, map, length,
  same_text, arith, ◌≡◌, refl, Bool-cases, inl, inr,
}
use membox.Graph.Tables.{Document, Store}
use membox.Graph.Relations.{get_evidence_docs_with_meta}
use membox.Retrieval.Bfs.{Edge, walk}
use membox.Retrieval.Score.{
  Floats, RetrievalConfig, ScoredTriple, evidence_for, ranks_before, insert_triple, sort_triples,
  score_edge, score_edges, scored_query, bm25_scores_for_relations,
}

module _ {F V : Type 0} (floats : Floats F V) where
  -- The triple has evidence, and all of it is of the project.
  abbrev pub only_from : String → ScoredTriple F → Bool
  only_from project item =
      not (length item.evidence == 0) && all_of (λ ev. same_text ev.project project) item.evidence

  evidence_for-project :
      (project : String) (rid : ℕ) (rows : List (ℕ × Document))
      → all_of (λ ev. same_text ev.project project) (evidence_for floats (some project) rid rows)
        ≡ true
  unfolding evidence_for
  evidence_for-project project rid [] = refl
  evidence_for-project project rid (row ∷ rows) =
      ground (arith, evidence_for-project project rid rows)

  all_of-insert :
      (test : ScoredTriple F → Bool) (a : ScoredTriple F) (items : List (ScoredTriple F))
      → test a ≡ true
      → all_of test items ≡ true
      → all_of test (insert_triple floats a items) ≡ true
  unfolding insert_triple
  all_of-insert test a [] t h = ground arith
  all_of-insert test a (b ∷ rest) t h = elim (Bool-cases (ranks_before floats a b)) [
    | inl before ↦ ground (arith, before, t, h)
    | inr after ↦ ground (arith, after, all_of-insert test a rest t)
  ]

  all_of-sort :
      (test : ScoredTriple F → Bool) (items : List (ScoredTriple F))
      → all_of test items ≡ true
      → all_of test (sort_triples floats items) ≡ true
  unfolding sort_triples
  all_of-sort test [] h = refl
  all_of-sort test (a ∷ rest) h =
      all_of-insert test a (sort_triples floats rest) (ground (arith, h))
        (all_of-sort test rest (ground (arith, h)))

  module _ (config : RetrievalConfig F) (raw : List ℕ → String → List (ℕ × F)) where
    score_edges-project :
        (s : Store V) (max_hops : ℕ) (query : Option V) (project : String) (bm25_map : List (ℕ × F))
        (depths : List (ℕ × ℕ)) (rows : List (ℕ × Document)) (edges : List (ℕ × Edge))
        → all_of (only_from project) (
            score_edges floats config raw s max_hops query
              (some project)
              bm25_map
              depths
              rows
              edges)
          ≡ true
    unfolding score_edges score_edge
    score_edges-project s max_hops query project bm25_map depths rows [] = refl
    score_edges-project s max_hops query project bm25_map depths rows (edge ∷ edges) =
        let evs = evidence_for floats (some project) edge.0 rows in
        elim (Bool-cases (length evs == 0)) [
          | inl nothing ↦ ground (
            arith,
            nothing,
            score_edges-project s max_hops query project bm25_map depths rows edges,
          )
          | inr something ↦ ground (
            arith,
            something,
            evidence_for-project project edge.0 rows,
            score_edges-project s max_hops query project bm25_map depths rows edges,
          )
        ]

    -- With a project filter every scored triple has evidence, and all of it is of that project.
    pub scored_query-only_from :
        (seed_ids : List ℕ) (max_hops : ℕ) (query : String) (query_embedding : Option V)
        (project : String) (include_superseded : Bool) (s : Store V)
        → all_of (only_from project) (
            scored_query floats config raw seed_ids max_hops query query_embedding
              (some project)
              include_superseded
              s)
          ≡ true
    unfolding scored_query
    scored_query-only_from seed_ids max_hops query query_embedding project include_superseded s =
        let w = walk seed_ids max_hops include_superseded s in
        let relation_ids = map (λ item. item.0) w.collected in
        let bm25_map = bm25_scores_for_relations floats raw relation_ids query in
        let rows = get_evidence_docs_with_meta relation_ids s in
        all_of-sort (only_from project)
          (score_edges floats config raw s max_hops query_embedding (some project) bm25_map
            w.entity_depth rows w.collected)
          (score_edges-project s max_hops query_embedding project bm25_map w.entity_depth rows
            w.collected)
