-- ===== src/Agent/Query.antt =====
-- The queries of core/agent.py: the seeds, the two modes of the compact query, and the pending note.
use membox.Base.{
  ℕ, String, Bool, false, Option, none, some, List, [], ◌∷◌, ◌==◌, if◌then◌else◌, map,
}
use membox.Base.Text.{Lowering, concat, show}
use membox.Graph.Normalize.{normalize_name}
use membox.Graph.Tables.{Store, Vectors}
use membox.Graph.Entities.{find_entity_by_alias, find_similar_entity}
use membox.Retrieval.Bfs.{HopResult, bfs_query}
use membox.Retrieval.Knapsack.{Scored}
use membox.Retrieval.Render.{compact_output, fts_fallback_output, fused_output}
use membox.Retrieval.Search.{Index, fts_fallback_chunks}
use membox.Retrieval.Score.{Floats, RetrievalConfig, ScoredTriple, scored_query}

pub data FusionMode : Type 0 where
  fallback merge : FusionMode

-- The settings that a query reads beside the weights of the score. The share of the
-- budget for chunks is what it makes of a budget: the floor of the product.
pub record QueryConfig (F : Type 0) : Type 0 where
  pub scoring : RetrievalConfig F
  pub fusion_mode : FusionMode
  pub top_evidence_k : ℕ
  pub fts_fallback_k : ℕ
  pub chunk_share : ℕ → ℕ

-- `_append_pending_note`, of the number of pending rows.
unfoldable pub append_pending_note : ℕ → String → String
append_pending_note pending output =
    if pending == 0
    then output
    else concat
        (output ∷ "\n(" ∷ show pending ∷ " ingest(s) pending — results may be incomplete)" ∷ [])

abbrev pub scored_of : {F : Type 0} → ScoredTriple F → Scored
scored_of item = record {
  relation_id = item.relation_id;
  subject = item.subject;
  predicate = item.predicate;
  object = item.object;
  evidence = item.evidence;
}

unfoldable pub fts_fallback : Lowering → Index → ℕ → String → ℕ → Option String → String
unfolding fts_fallback_chunks fts_fallback_output
fts_fallback lower index fts_fallback_k question budget project_filter =
    elim (fts_fallback_chunks lower index question fts_fallback_k project_filter) [
      | [] ↦ "(returned 0/0 triples, ~0/0 tokens)"
      | chunk ∷ chunks ↦ fts_fallback_output (chunk ∷ chunks) budget
    ]

module _ {V : Type 0} (lower : Lowering) (vectors : Vectors V) (embed : Option (String → V)) where
  -- By the alias, and then by similarity at the default threshold.
  unfoldable pub resolve_seed : ℕ → String → Store V → Option ℕ
  unfolding normalize_name find_entity_by_alias find_similar_entity
  resolve_seed threshold name s = elim (find_entity_by_alias (normalize_name lower name) s) [
    | some eid ↦ some eid
    | none ↦ elim embed [
      | none ↦ none
      | some embedder ↦ find_similar_entity vectors (embedder name) none threshold s
    ]
  ]

  unfoldable pub resolve_seeds : ℕ → List String → Store V → List ℕ
  unfolding resolve_seed
  resolve_seeds threshold [] s = []
  resolve_seeds threshold (name ∷ names) s =
      let rest = resolve_seeds threshold names s in
      elim (resolve_seed threshold name s) [ none ↦ rest | some eid ↦ eid ∷ rest ]

  abbrev pub nothing_found : HopResult
  nothing_found = record { triplets = []; documents = []; visited_entities = [] }

  -- The seed names are handed back beside the result.
  unfoldable pub retrieve : ℕ → List String → ℕ → Store V → HopResult
  unfolding resolve_seeds bfs_query
  retrieve threshold seed_names max_hops s = elim (resolve_seeds threshold seed_names s) [
    | [] ↦ nothing_found
    | seed ∷ seeds ↦ bfs_query (seed ∷ seeds) max_hops false s
  ]

  module _ {F : Type 0} (floats : Floats F V) (config : QueryConfig F)
      (raw : List ℕ → String → List (ℕ × F)) (index : Index) where
    abbrev pub query_embedding : String → Option V
    query_embedding question = elim embed [ none ↦ none | some embedder ↦ some (embedder question) ]

    unfoldable pub scored_triples :
        List ℕ → ℕ → String → Option String → Bool → Store V → List Scored
    unfolding scored_query
    scored_triples seed_ids max_hops question project_filter include_superseded s = map scored_of (
        scored_query floats config.scoring raw seed_ids max_hops question (query_embedding question)
          project_filter include_superseded s)

    -- No seed, or nothing scored, and the search of the chunks answers.
    unfoldable pub fallback_query :
        List ℕ → ℕ → String → ℕ → Option String → Bool → Store V → String
    unfolding fts_fallback scored_triples compact_output
    fallback_query [] max_hops question budget project_filter include_superseded s =
        fts_fallback lower index config.fts_fallback_k question budget project_filter
    fallback_query (seed ∷ seeds) max_hops question budget project_filter include_superseded s =
        elim (scored_triples (seed ∷ seeds) max_hops question project_filter include_superseded s) [
          | [] ↦ fts_fallback lower index config.fts_fallback_k question budget project_filter
          | item ∷ items ↦ compact_output (item ∷ items) budget config.top_evidence_k
        ]

    -- The triples of no seed are none, and `fts_fallback_chunks` of no limit is none.
    unfoldable pub merge_query : List ℕ → ℕ → String → ℕ → Option String → Bool → Store V → String
    unfolding scored_triples fts_fallback_chunks fused_output
    merge_query seed_ids max_hops question budget project_filter include_superseded s =
        fused_output
          (elim seed_ids [
            | [] ↦ []
            | seed ∷ seeds ↦
                scored_triples (seed ∷ seeds) max_hops question project_filter include_superseded s
          ])
          (fts_fallback_chunks lower index question config.fts_fallback_k project_filter) budget
          config.chunk_share config.top_evidence_k

    -- Without memory units; `seeds` are the names that the extractor finds in the question.
    unfoldable pub compact_query :
        ℕ → List String → String → ℕ → ℕ → Option String → Bool → ℕ → Store V → String
    unfolding resolve_seeds fallback_query merge_query append_pending_note
    compact_query threshold seeds question max_hops budget project_filter include_superseded pending
          s =
        let seed_ids = resolve_seeds threshold seeds s in
        append_pending_note pending (elim config.fusion_mode [
          | FusionMode.fallback ↦
              fallback_query seed_ids max_hops question budget project_filter include_superseded s
          | FusionMode.merge ↦
              merge_query seed_ids max_hops question budget project_filter include_superseded s
        ])
