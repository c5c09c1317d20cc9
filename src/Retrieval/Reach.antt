-- ===== src/Retrieval/Reach.antt =====
-- The traversal visits exactly what can be reached within the hops.
use mathlib.Core.List.{Memᴰ}
use mathlib.Core.List.Memᴰ.{head, tail}
use mathlib.Core.Path.{subst}
use membox.Base.{
  ℕ, zero, suc, ◌+◌, Bool, true, false, not, ◌&&◌, ◌||◌, List, [], ◌∷◌, ◌==◌, if◌then◌else◌, any_of,
  map, select, arith, ◌≡◌, refl, sym, ap, ◌∙◌, List-cases, inl, inr, is_some,
}
use membox.Graph.Tables.{Relation, Store}
use membox.Graph.Relations.{id_in, incident, edge_of, get_neighbors}
use membox.Retrieval.Visits.{touches, visited-visit_edges, fresh-visit_edges, id_in-same, set_of-in}
use membox.Retrieval.Bfs.{Walk, visit_edges, seed_walk, hops_from, walk}

module _ {V : Type 0} (include_superseded : Bool) (s : Store V) where
  abbrev pub live : Relation V → Bool
  live r = include_superseded || not (is_some r.superseded_by)

  -- The relation is live, has an end among the entities and e at one of its ends.
  abbrev pub leads_to : (ℕ → Bool) → ℕ → Relation V → Bool
  leads_to among e r =
      live r && (among r.source_id || among r.target_id) && (r.source_id == e || r.target_id == e)

  -- e is at most n relations away from a seed.
  unfoldable pub within : List ℕ → ℕ → ℕ → Bool
  within seed_ids zero e = id_in seed_ids e
  within seed_ids (suc n) e =
      within seed_ids n e || any_of (leads_to (within seed_ids n) e) s.relations

  -- The edges that a frontier is expanded by.
  pub touched-neighbors :
      (ids : List ℕ) (e : ℕ) (rows : List (Relation V))
      → any_of (touches e) (map edge_of (select (incident ids include_superseded) rows))
        ≡ any_of (leads_to (id_in ids) e) rows
  touched-neighbors ids e [] = refl
  touched-neighbors ids e (r ∷ rows) = ground (arith, touched-neighbors ids e rows)

  any_of-Mem :
      (test : Relation V → Bool) (rows : List (Relation V)) (r : Relation V)
      → Memᴰ r rows
      → test r ≡ true
      → any_of test rows ≡ true
  any_of-Mem test [] r m h = elim m [ ]
  any_of-Mem test (x ∷ rows) r (head e) h = ground (arith, subst (λ y. test y ≡ true) e h)
  any_of-Mem test (x ∷ rows) r (tail m) h = ground (arith, any_of-Mem test rows r m h)

  -- Two tests that agree on each row, beside b.
  pub any_of-or_same :
      (b : Bool) (f g : Relation V → Bool) (rows : List (Relation V))
      → ((r : Relation V) → Memᴰ r rows → (b || f r) ≡ (b || g r))
      → (b || any_of f rows) ≡ (b || any_of g rows)
  any_of-or_same b f g [] same = refl
  any_of-or_same b f g (r ∷ rows) same =
      ground (arith, same r (head refl), any_of-or_same b f g rows (λ x m. same x (tail m)))

  -- A row with an end that was expanded has both ends visited.
  abbrev closed_row : Walk → Relation V → Bool
  closed_row w r =
      if live r
        && ((id_in w.visited r.source_id && not (id_in w.fresh r.source_id))
            || (id_in w.visited r.target_id && not (id_in w.fresh r.target_id)))
      then id_in w.visited r.source_id && id_in w.visited r.target_id
      else true

  module _ (seed_ids : List ℕ) where
    -- After n rounds.
    abbrev pub Expanded : ℕ → Walk → Type 0
    Expanded n w =
        ((e : ℕ) → id_in w.visited e ≡ within seed_ids n e)
        × ((e : ℕ) → id_in w.fresh e ≡ true → id_in w.visited e ≡ true)
        × ((r : Relation V) → Memᴰ r s.relations → closed_row w r ≡ true)

    -- One round, on the frontier of w.
    abbrev pub round : ℕ → Walk → Walk
    round depth w =
        visit_edges depth (get_neighbors w.fresh include_superseded s) (record w { fresh = [] })

    pub visited-round :
        (depth e : ℕ) (w : Walk)
        → id_in (round depth w).visited e
          ≡ (id_in w.visited e || any_of (leads_to (id_in w.fresh) e) s.relations)
    unfolding get_neighbors
    visited-round depth e w =
        visited-visit_edges depth e (get_neighbors w.fresh include_superseded s)
          (record w { fresh = [] })
        ∙ ap (λ b. id_in w.visited e || b) (touched-neighbors w.fresh e s.relations)

    fresh-round :
        (depth e : ℕ) (w : Walk)
        → id_in (round depth w).fresh e
          ≡ (any_of (leads_to (id_in w.fresh) e) s.relations && not (id_in w.visited e))
    unfolding get_neighbors
    fresh-round depth e w =
        fresh-visit_edges depth e (get_neighbors w.fresh include_superseded s)
          (record w { fresh = [] })
        ∙ ap (λ b. b && not (id_in w.visited e)) (touched-neighbors w.fresh e s.relations)

    -- The rows that lead on from the frontier are those that lead on from all that is visited.
    pub row-same :
        (e : ℕ) (w : Walk) (r : Relation V)
        → ((i : ℕ) → id_in w.fresh i ≡ true → id_in w.visited i ≡ true)
        → closed_row w r ≡ true
        → (id_in w.visited e || leads_to (id_in w.fresh) e r)
          ≡ (id_in w.visited e || leads_to (id_in w.visited) e r)
    row-same e w r sub c = ground (
      arith,
      sub r.source_id,
      sub r.target_id,
      id_in-same w.visited r.source_id e,
      id_in-same w.visited r.target_id e,
    )

    closed-round :
        (depth : ℕ) (w : Walk) (r : Relation V)
        → Memᴰ r s.relations
        → closed_row w r ≡ true
        → closed_row (round depth w) r ≡ true
    closed-round depth w r m c = ground (
      arith,
      visited-round depth r.source_id w,
      visited-round depth r.target_id w,
      fresh-round depth r.source_id w,
      fresh-round depth r.target_id w,
      any_of-Mem (leads_to (id_in w.fresh) r.source_id) s.relations r m,
      any_of-Mem (leads_to (id_in w.fresh) r.target_id) s.relations r m,
    )

    nobody-leads : (e : ℕ) (rows : List (Relation V)) → any_of (leads_to (id_in []) e) rows ≡ false
    nobody-leads e [] = refl
    nobody-leads e (r ∷ rows) = ground (arith, nobody-leads e rows)

    pub within-round :
        (depth n e : ℕ) (w : Walk)
        → Expanded n w
        → id_in (round depth w).visited e ≡ within seed_ids (suc n) e
    unfolding within
    within-round depth n e w (a, sub, closed) =
        visited-round depth e w
        ∙ any_of-or_same (id_in w.visited e) (leads_to (id_in w.fresh) e)
            (leads_to (within seed_ids n) e) s.relations
            (λ r m. ground (arith, row-same e w r sub (closed r m), a r.source_id, a r.target_id))
        ∙ ap (λ b. b || any_of (leads_to (within seed_ids n) e) s.relations) (a e)

    pub Expanded-round : (depth n : ℕ) (w : Walk) → Expanded n w → Expanded (suc n) (round depth w)
    Expanded-round depth n w (a, sub, closed) = (
      λ e. within-round depth n e w (a, sub, closed),
      λ e f. ground (arith, f, fresh-round depth e w, visited-round depth e w),
      λ r m. closed-round depth w r m (closed r m),
    )

    -- An empty frontier leaves nothing to reach.
    pub Expanded-idle : (n : ℕ) (w : Walk) → w.fresh ≡ [] → Expanded n w → Expanded (suc n) w
    Expanded-idle n w idle (a, sub, closed) = (
      λ e. ground (
        arith,
        idle,
        visited-round 0 e w,
        nobody-leads e s.relations,
        within-round 0 n e w (a, sub, closed),
      ),
      sub,
      closed,
    )

    pub hops_from-idle :
        (n depth : ℕ) (w : Walk) → w.fresh ≡ [] → hops_from n depth include_superseded s w ≡ w
    unfolding hops_from
    hops_from-idle zero depth w idle = refl
    hops_from-idle (suc n) depth w idle = ground (arith, idle)

    pub hops_from-round :
        (n depth : ℕ) (w : Walk) {i : ℕ} {ids : List ℕ}
        → w.fresh ≡ i ∷ ids
        → hops_from (suc n) depth include_superseded s w
          ≡ hops_from n (depth + 1) include_superseded s (round depth w)
    unfolding hops_from
    hops_from-round n depth w more = ground (arith, more)

    pub hops_from-Expanded :
        (n k depth m : ℕ) (w : Walk)
        → m ≡ n + k
        → Expanded k w
        → Expanded m (hops_from n depth include_superseded s w)
    unfolding hops_from
    hops_from-Expanded zero k depth m w sum h =
        subst (λ j. Expanded j w) (sym (ground (arith, sum))) h
    hops_from-Expanded (suc n) k depth m w sum h = elim (List-cases w.fresh) [
      | inl idle ↦
          subst (Expanded m)
            (hops_from-idle n depth w idle ∙ sym (hops_from-idle (suc n) depth w idle))
            (hops_from-Expanded n (suc k) depth m w (omega (arith, sum)) (Expanded-idle k w idle h))
      | inr (i, ids, more) ↦ subst (Expanded m) (sym (hops_from-round n depth w more)) (
          hops_from-Expanded n (suc k) (depth + 1) m (round depth w) (omega (arith, sum))
            (Expanded-round depth k w h))
    ]

module _ {V : Type 0} where
  pub seed_walk-Expanded :
      (include_superseded : Bool) (s : Store V) (seed_ids : List ℕ)
      → Expanded include_superseded s seed_ids 0 (seed_walk seed_ids)
  unfolding seed_walk within
  seed_walk-Expanded include_superseded s seed_ids =
      (λ e. set_of-in [] seed_ids e, λ e h. h, λ r m. ground arith)

  -- After at most max_hops rounds the traversal has visited exactly the entities that are at most
  -- max_hops live relations away from a seed, followed in either direction.
  pub walk-visits :
      (seed_ids : List ℕ) (max_hops : ℕ) (include_superseded : Bool) (s : Store V) (e : ℕ)
      → id_in (walk seed_ids max_hops include_superseded s).visited e
        ≡ within include_superseded s seed_ids max_hops e
  unfolding walk
  walk-visits seed_ids max_hops include_superseded s e =
      (hops_from-Expanded include_superseded s seed_ids max_hops 0 0 max_hops (seed_walk seed_ids)
          (omega arith) (seed_walk-Expanded include_superseded s seed_ids)).0
        e
