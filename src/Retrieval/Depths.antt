-- ===== src/Retrieval/Depths.antt =====
-- The depth that the traversal records for an entity is its distance from the seeds.
use mathlib.Core.Option
use mathlib.Core.Path.{subst}
use membox.Base.{
  ℕ, zero, suc, ◌+◌, Bool, not, ◌&&◌, Option, none, some, List, [], ◌∷◌, ◌==◌, if◌then◌else◌,
  any_of, first_where, first_where-append, map, arith, ◌≡◌, refl, sym, ap, ◌∙◌, List-cases, inl,
  inr, is_some,
}
use membox.Graph.Tables.{Store}
use membox.Graph.Relations.{id_in, get_neighbors}
use membox.Retrieval.Visits.{touches, visited-visit, visited-visit_edge, id_in-same, set_of-in}
use membox.Retrieval.Reach.{
  leads_to, within, Expanded, round, touched-neighbors, visited-round, within-round, Expanded-round,
  Expanded-idle, hops_from-idle, hops_from-round, seed_walk-Expanded,
}
use membox.Retrieval.Bfs.{
  Edge, Walk, visit, visit_edge, visit_edges, put_edge, set_of, seed_walk, hops_from, walk,
}

-- `entity_depth.get(e)`
abbrev pub depth_in : List (ℕ × ℕ) → ℕ → Option ℕ
depth_in items e = Option.map (λ item. item.1) (first_where (λ item. item.0 == e) items)

-- A depth that is there, or that of this round.
abbrev or_new : Bool → ℕ → Option ℕ → Option ℕ
or_new new depth (some d) = some d
or_new new depth none = if new then some (depth + 1) else none

depth-visit :
    (depth i e : ℕ) (w : Walk)
    → depth_in (visit depth i w).entity_depth e
      ≡ or_new (i == e && not (id_in w.visited e)) depth (depth_in w.entity_depth e)
unfolding visit
depth-visit depth i e w = ground (
  arith,
  first_where-append (λ item. item.0 == e) w.entity_depth ((i, depth + 1) ∷ []),
  id_in-same w.visited i e,
)

depth-visit_edge :
    (depth e : ℕ) (edge : Edge) (w : Walk)
    → depth_in (visit_edge depth edge w).entity_depth e
      ≡ or_new (touches e edge && not (id_in w.visited e)) depth (depth_in w.entity_depth e)
unfolding visit_edge
depth-visit_edge depth e (rid, src, tgt, pred) w =
    let start = record w { collected = put_edge rid (rid, src, tgt, pred) w.collected } in
    ground (
      arith,
      depth-visit depth tgt e (visit depth src start),
      depth-visit depth src e start,
      visited-visit depth src e start,
    )

depth-visit_edges :
    (depth e : ℕ) (edges : List Edge) (w : Walk)
    → depth_in (visit_edges depth edges w).entity_depth e
      ≡ or_new
          (any_of (touches e) edges && not (id_in w.visited e))
          depth
          (depth_in w.entity_depth e)
unfolding visit_edges
depth-visit_edges depth e [] w = ground arith
depth-visit_edges depth e (edge ∷ edges) w = ground (
  arith,
  depth-visit_edge depth e edge w,
  visited-visit_edge depth e edge w,
  depth-visit_edges depth e edges (visit_edge depth edge w),
)

module _ {V : Type 0} (include_superseded : Bool) (s : Store V) (seed_ids : List ℕ) where
  abbrev reached : ℕ → ℕ → Bool
  reached = within include_superseded s seed_ids

  -- The least n, up to a bound, such that e is within n relations of a seed.
  unfoldable pub distance : ℕ → ℕ → Option ℕ
  distance zero e = if reached 0 e then some 0 else none
  distance (suc n) e = elim (distance n e) [
    | some d ↦ some d
    | none ↦ if reached (suc n) e then some (suc n) else none
  ]

  is_some-distance : (n e : ℕ) → is_some (distance n e) ≡ reached n e
  unfolding distance within
  is_some-distance zero e = ground arith
  is_some-distance (suc n) e = ground (arith, is_some-distance n e)

  depth-round :
      (depth e : ℕ) (w : Walk)
      → depth_in (round include_superseded s seed_ids depth w).entity_depth e
        ≡ or_new
            (any_of (leads_to include_superseded s (id_in w.fresh) e) s.relations
              && not (id_in w.visited e))
            depth
            (depth_in w.entity_depth e)
  unfolding get_neighbors
  depth-round depth e w =
      depth-visit_edges depth e (get_neighbors w.fresh include_superseded s)
        (record w { fresh = [] })
      ∙ ap (λ b. or_new (b && not (id_in w.visited e)) depth (depth_in w.entity_depth e))
          (touched-neighbors include_superseded s w.fresh e s.relations)

  -- The traversal before round n, with the depths that it has recorded.
  abbrev Measured : ℕ → Walk → Type 0
  Measured n w =
      Expanded include_superseded s seed_ids n w
      × ((e : ℕ) → depth_in w.entity_depth e ≡ distance n e)

  Measured-round :
      (n : ℕ) (w : Walk) → Measured n w → Measured (suc n) (round include_superseded s seed_ids n w)
  unfolding distance
  Measured-round n w (h, d) = (
    Expanded-round include_superseded s seed_ids n n w h,
    λ e. ground (
      arith,
      d e,
      h.0 e,
      is_some-distance n e,
      depth-round n e w,
      visited-round include_superseded s seed_ids n e w,
      within-round include_superseded s seed_ids n n e w h,
    ),
  )

  Measured-idle : (n : ℕ) (w : Walk) → w.fresh ≡ [] → Measured n w → Measured (suc n) w
  unfolding distance
  Measured-idle n w idle (h, d) =
      let h' = Expanded-idle include_superseded s seed_ids n w idle h in
      (h', λ e. ground (arith, d e, h.0 e, h'.0 e, is_some-distance n e))

  hops_from-Measured :
      (n k m : ℕ) (w : Walk)
      → m ≡ n + k
      → Measured k w
      → Measured m (hops_from n k include_superseded s w)
  unfolding hops_from
  hops_from-Measured zero k m w sum h = subst (λ j. Measured j w) (sym (ground (arith, sum))) h
  hops_from-Measured (suc n) k m w sum h = elim (List-cases w.fresh) [
    | inl idle ↦
        subst (Measured m)
          (hops_from-idle include_superseded s seed_ids n (k + 1) w idle
            ∙ sym (hops_from-idle include_superseded s seed_ids (suc n) k w idle))
          (hops_from-Measured n (k + 1) m w (omega (arith, sum))
            (subst (λ j. Measured j w) (omega arith) (Measured-idle k w idle h)))
    | inr (i, ids, more) ↦
        subst (Measured m) (sym (hops_from-round include_superseded s seed_ids n k w more)) (
          hops_from-Measured n (k + 1) m (round include_superseded s seed_ids k w)
            (omega (arith, sum))
            (subst (λ j. Measured j (round include_superseded s seed_ids k w)) (omega arith)
              (Measured-round k w h)))
  ]

-- `dict.fromkeys` gives every key the value 0.
depth_in-seeds :
    (ids : List ℕ) (e : ℕ)
    → depth_in (map (λ i. (i, 0)) ids) e ≡ (if id_in ids e then some 0 else none)
depth_in-seeds [] e = refl
depth_in-seeds (i ∷ ids) e = ground (arith, depth_in-seeds ids e)

module _ {V : Type 0} where
  seed_walk-Measured :
      (include_superseded : Bool) (s : Store V) (seed_ids : List ℕ)
      → Measured include_superseded s seed_ids 0 (seed_walk seed_ids)
  unfolding seed_walk distance within
  seed_walk-Measured include_superseded s seed_ids = (
    seed_walk-Expanded include_superseded s seed_ids,
    λ e. ground (arith, depth_in-seeds (set_of [] seed_ids) e, set_of-in [] seed_ids e),
  )

  -- The depth recorded for an entity is the least number of live relations, followed in either
  -- direction, between a seed and it, and no depth is recorded for an entity farther away than
  -- max_hops.
  pub walk-distance :
      (seed_ids : List ℕ) (max_hops : ℕ) (include_superseded : Bool) (s : Store V) (e : ℕ)
      → depth_in (walk seed_ids max_hops include_superseded s).entity_depth e
        ≡ distance include_superseded s seed_ids max_hops e
  unfolding walk
  walk-distance seed_ids max_hops include_superseded s e =
      (hops_from-Measured include_superseded s seed_ids max_hops 0 max_hops (seed_walk seed_ids)
          (omega arith) (seed_walk-Measured include_superseded s seed_ids)).1
        e
