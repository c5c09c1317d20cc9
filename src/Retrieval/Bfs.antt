-- ===== src/Retrieval/Bfs.antt =====
-- The traversal of `bfs_query` and `bfs_query_with_depths`. A set is a list without repetition, in the
-- order of insertion; a dict is a list of its items.
use Prim.Native.String
use membox.Base.{
  ℕ, zero, suc, ◌+◌, String, Bool, none, some, List, [], ◌∷◌, ◌++◌, ◌==◌, if◌then◌else◌,
  first_where, map,
}
use membox.Base.Text.{show}
use membox.Graph.Tables.{Store, is_entity}
use membox.Graph.Relations.{id_in, get_neighbors, get_evidence_docs}

abbrev pub Edge : Type 0
Edge = ℕ × ℕ × ℕ × String

-- `fresh` is the frontier that a round collects.
pub record Walk : Type 0 where
  pub visited : List ℕ
  pub fresh : List ℕ
  pub entity_depth : List (ℕ × ℕ)
  pub collected : List (ℕ × Edge)

-- `collected[rid] = edge`, which keeps the place of a key that is there.
unfoldable pub put_edge : ℕ → Edge → List (ℕ × Edge) → List (ℕ × Edge)
put_edge rid edge [] = (rid, edge) ∷ []
put_edge rid edge (item ∷ items) =
    let rest = put_edge rid edge items in if item.0 == rid then (rid, edge) ∷ items else item ∷ rest

unfoldable pub visit : ℕ → ℕ → Walk → Walk
visit depth neighbor w = if id_in w.visited neighbor then w else record w {
  visited = w.visited ++ neighbor ∷ [];
  fresh = w.fresh ++ neighbor ∷ [];
  entity_depth = w.entity_depth ++ (neighbor, depth + 1) ∷ [];
}

unfoldable pub visit_edge : ℕ → Edge → Walk → Walk
unfolding put_edge visit
visit_edge depth (rid, src, tgt, pred) w =
    visit depth tgt
      (visit depth src (record w { collected = put_edge rid (rid, src, tgt, pred) w.collected }))

unfoldable pub visit_edges : ℕ → List Edge → Walk → Walk
unfolding visit_edge
visit_edges depth [] w = w
visit_edges depth (edge ∷ edges) w = visit_edges depth edges (visit_edge depth edge w)

-- `set(seed_ids)`
unfoldable pub set_of : List ℕ → List ℕ → List ℕ
set_of seen [] = seen
set_of seen (i ∷ ids) = set_of (if id_in seen i then seen else seen ++ i ∷ []) ids

-- `dict.fromkeys(seed_ids, 0)`
unfoldable pub seed_walk : List ℕ → Walk
unfolding set_of
seed_walk seed_ids = record {
  visited = set_of [] seed_ids;
  fresh = set_of [] seed_ids;
  entity_depth = map (λ i. (i, 0)) (set_of [] seed_ids);
  collected = [];
}

-- The contents, each document once.
unfoldable pub dedup_docs : List ℕ → List (ℕ × ℕ × String) → List String
dedup_docs seen [] = []
dedup_docs seen ((rid, did, content) ∷ rows) =
    let old = dedup_docs seen rows in
    let new = dedup_docs (seen ++ did ∷ []) rows in if id_in seen did then old else content ∷ new

-- `HopResult`
pub record HopResult : Type 0 where
  pub triplets : List (String × String × String)
  pub documents : List String
  pub visited_entities : List String

module _ {V : Type 0} where
  -- `for depth in range(max_hops)`, with the hops that are left and the depth.
  unfoldable pub hops_from : ℕ → ℕ → Bool → Store V → Walk → Walk
  unfolding get_neighbors visit_edges
  hops_from zero depth include_superseded s w = w
  hops_from (suc n) depth include_superseded s w = elim w.fresh [
    | [] ↦ w
    | i ∷ ids ↦
        hops_from n (depth + 1) include_superseded s (
          visit_edges depth (get_neighbors (i ∷ ids) include_superseded s)
            (record w { fresh = [] }))
  ]

  unfoldable pub walk : List ℕ → ℕ → Bool → Store V → Walk
  unfolding hops_from seed_walk
  walk seed_ids max_hops include_superseded s =
      hops_from max_hops 0 include_superseded s (seed_walk seed_ids)

  -- `row[1] if row else f"<{eid}>"`
  unfoldable pub entity_name : Store V → ℕ → String
  entity_name s eid = elim (first_where (is_entity eid) s.entities) [
    | none ↦ String.◌++◌ "<" (String.◌++◌ (show eid) ">")
    | some e ↦ e.canonical_name
  ]

  unfoldable pub bfs_query_with_depths :
      List ℕ → ℕ → Bool → Store V → List (ℕ × Edge) × List (ℕ × ℕ) × List (ℕ × String)
  unfolding walk entity_name
  bfs_query_with_depths seed_ids max_hops include_superseded s =
      let w = walk seed_ids max_hops include_superseded s in
      (w.collected, w.entity_depth, map (λ e. (e, entity_name s e)) w.visited)

  unfoldable pub triplet_of : Store V → ℕ × Edge → String × String × String
  unfolding entity_name
  triplet_of s (key, (rid, src, tgt, pred)) = (entity_name s src, pred, entity_name s tgt)

  -- The same loop without the depths.
  unfoldable pub bfs_query : List ℕ → ℕ → Bool → Store V → HopResult
  unfolding walk entity_name triplet_of dedup_docs
  bfs_query seed_ids max_hops include_superseded s =
      let w = walk seed_ids max_hops include_superseded s in
      record {
        triplets = map (triplet_of s) w.collected;
        documents = dedup_docs [] (get_evidence_docs (map (λ item. item.0) w.collected) s);
        visited_entities = map (entity_name s) w.visited;
      }
