-- ===== src/Retrieval/Visits.antt =====
-- What the visits of a round add to the sets of the traversal.
use membox.Base.{
  ℕ, Bool, true, not, ◌&&◌, ◌||◌, List, [], ◌∷◌, ◌++◌, ◌==◌, any_of, any_of-append, arith, ◌≡◌, ap,
}
use membox.Graph.Relations.{id_in}
use membox.Retrieval.Bfs.{Edge, Walk, visit, visit_edge, visit_edges, set_of, put_edge}

-- The edge has e at one of its ends.
abbrev pub touches : ℕ → Edge → Bool
touches e (rid, src, tgt, pred) = src == e || tgt == e

pub id_in-append : (ids : List ℕ) (i e : ℕ) → id_in (ids ++ i ∷ []) e ≡ (id_in ids e || i == e)
id_in-append ids i e = ground (arith, any_of-append (λ j. j == e) ids (i ∷ []))

pub visited-visit :
    (depth i e : ℕ) (w : Walk) → id_in (visit depth i w).visited e ≡ (id_in w.visited e || i == e)
unfolding visit
visited-visit depth i e w = ground (arith, id_in-append w.visited i e)

pub fresh-visit :
    (depth i e : ℕ) (w : Walk)
    → id_in (visit depth i w).fresh e ≡ (id_in w.fresh e || (i == e && not (id_in w.visited e)))
unfolding visit
fresh-visit depth i e w = ground (arith, id_in-append w.fresh i e)

pub visited-visit_edge :
    (depth e : ℕ) (edge : Edge) (w : Walk)
    → id_in (visit_edge depth edge w).visited e ≡ (id_in w.visited e || touches e edge)
unfolding visit_edge
visited-visit_edge depth e (rid, src, tgt, pred) w =
    let start = record w { collected = put_edge rid (rid, src, tgt, pred) w.collected } in
    ground
      (arith, visited-visit depth tgt e (visit depth src start), visited-visit depth src e start)

pub visited-visit_edges :
    (depth e : ℕ) (edges : List Edge) (w : Walk)
    → id_in (visit_edges depth edges w).visited e ≡ (id_in w.visited e || any_of (touches e) edges)
unfolding visit_edges
visited-visit_edges depth e [] w = ground arith
visited-visit_edges depth e (edge ∷ edges) w = ground (
  arith,
  visited-visit_edge depth e edge w,
  visited-visit_edges depth e edges (visit_edge depth edge w),
)

pub fresh-visit_edge :
    (depth e : ℕ) (edge : Edge) (w : Walk)
    → id_in (visit_edge depth edge w).fresh e
      ≡ (id_in w.fresh e || (touches e edge && not (id_in w.visited e)))
unfolding visit_edge
fresh-visit_edge depth e (rid, src, tgt, pred) w =
    let start = record w { collected = put_edge rid (rid, src, tgt, pred) w.collected } in
    ground (
      arith,
      fresh-visit depth tgt e (visit depth src start),
      fresh-visit depth src e start,
      visited-visit depth src e start,
    )

pub fresh-visit_edges :
    (depth e : ℕ) (edges : List Edge) (w : Walk)
    → id_in (visit_edges depth edges w).fresh e
      ≡ (id_in w.fresh e || (any_of (touches e) edges && not (id_in w.visited e)))
unfolding visit_edges
fresh-visit_edges depth e [] w = ground arith
fresh-visit_edges depth e (edge ∷ edges) w = ground (
  arith,
  visited-visit_edge depth e edge w,
  fresh-visit_edge depth e edge w,
  fresh-visit_edges depth e edges (visit_edge depth edge w),
)

pub id_in-same : (ids : List ℕ) (i e : ℕ) → i == e ≡ true → id_in ids i ≡ id_in ids e
id_in-same ids i e h = ap (id_in ids) (ground arith)

pub set_of-in :
    (seen ids : List ℕ) (e : ℕ) → id_in (set_of seen ids) e ≡ (id_in seen e || id_in ids e)
unfolding set_of
set_of-in seen [] e = ground arith
set_of-in seen (i ∷ ids) e = ground (
  arith,
  id_in-append seen i e,
  id_in-same seen i e,
  set_of-in seen ids e,
  set_of-in (seen ++ i ∷ []) ids e,
)
