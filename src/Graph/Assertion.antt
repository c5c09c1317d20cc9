-- ===== src/Graph/Assertion.antt =====
-- The assertion of a triple: what `upsert_relation` returns and records.
use mathlib.Core.Option
use mathlib.Core.Path.{subst}
use membox.Base.{
  ℕ, String, Bool, true, false, ◌&&◌, Option, none, some, List, [], ◌∷◌, arith, eq_iff, any_of,
  first_where, any_of-first_where, update_where, any_of-append, same_number, ◌≡◌, refl,
  Option-cases, Bool-cases, inl, inr,
}
use membox.Graph.Tables.{
  Relation, Store, Vectors, Result, ok, Result-cases, err, is_document, is_entity, is_relation,
  document_at, blob_of,
}
use membox.Graph.Relations.{
  same_triple, add_relation, fill_embedding, set_embedding, same_evidence, add_evidence,
  mark_superseded, supersede_older, link_evidence, upsert_relation, is_superseded_sibling,
}

module _ {V : Type 0} (source_id target_id : ℕ) (predicate : String) where
  -- The relation of the triple, by its id, and the evidence row of the document.
  abbrev pub asserted : ℕ → ℕ → Store V → Bool
  asserted doc_id rid s =
      same_number
        (Option.map (λ r. r.id)
          (first_where (same_triple source_id target_id predicate) s.relations))
        rid
      && any_of (same_evidence rid doc_id) s.relation_evidence

  abbrev pub asserts : ℕ → Result (ℕ × Store V) → Bool
  asserts doc_id (err e) = false
  asserts doc_id (ok (rid, s)) = asserted doc_id rid s

  -- The foreign keys that the transaction checks.
  abbrev pub known : ℕ → Store V → Bool
  known doc_id s =
      any_of (is_entity source_id) s.entities
      && any_of (is_entity target_id) s.entities
      && any_of (is_document doc_id) s.documents

  -- The id of the triple's row.
  abbrev triple_id : List (Relation V) → Option ℕ
  triple_id rows =
      Option.map (λ r. r.id) (first_where (same_triple source_id target_id predicate) rows)

  -- An UPDATE of the columns beside the triple and the id.
  triple_id-update :
      (test : Relation V → Bool) (change : Relation V → Relation V) (rows : List (Relation V))
      → ((r : Relation V)
          → same_triple source_id target_id predicate (change r)
            ≡ same_triple source_id target_id predicate r)
      → ((r : Relation V) → (change r).id ≡ r.id)
      → triple_id (update_where test change rows) ≡ triple_id rows
  triple_id-update test change [] same keeps = refl
  triple_id-update test change (r ∷ rows) same keeps =
      ground (arith, same r, keeps r, triple_id-update test change rows same keeps)

  -- The row of the triple has its id among the rows' ids.
  triple-is_relation :
      (rows : List (Relation V)) {r : Relation V}
      → first_where (same_triple source_id target_id predicate) rows ≡ some r
      → any_of (is_relation r.id) rows ≡ true
  triple-is_relation [] e = cc
  triple-is_relation (x ∷ rows) {r} e =
      elim (Bool-cases (same_triple source_id target_id predicate x)) [
        | inl same ↦ ground (arith, same)
        | inr other ↦ ground (arith, other, triple-is_relation rows {r = r})
      ]

  -- The triple has a row with that id, and the document is there.
  abbrev is_ready : ℕ → ℕ → Store V → Bool
  is_ready doc_id rid s =
      same_number (triple_id s.relations) rid
      && any_of (is_relation rid) s.relations
      && any_of (is_document doc_id) s.documents

  any_relation-update :
      (rid : ℕ) (test : Relation V → Bool) (change : Relation V → Relation V)
      (rows : List (Relation V))
      → ((r : Relation V) → (change r).id ≡ r.id)
      → any_of (is_relation rid) (update_where test change rows) ≡ any_of (is_relation rid) rows
  any_relation-update rid test change [] keeps = refl
  any_relation-update rid test change (r ∷ rows) keeps =
      ground (arith, keeps r, any_relation-update rid test change rows keeps)

  module _ (doc_id rid : ℕ) where
    is_ready-set_embedding :
        (blob : Option V) (s : Store V)
        → is_ready doc_id rid s ≡ true
        → is_ready doc_id rid (set_embedding blob rid s) ≡ true
    unfolding set_embedding fill_embedding
    is_ready-set_embedding none s h = h
    is_ready-set_embedding (some v) s h = ground (
      arith,
      any_relation-update rid (is_relation rid) (fill_embedding v) s.relations (λ r. refl),
      triple_id-update (is_relation rid) (fill_embedding v) s.relations (λ r. refl) (λ r. refl),
    )

    asserted-supersede :
        (s : Store V)
        → asserted doc_id rid s ≡ true
        → asserted doc_id rid (supersede_older source_id target_id predicate rid doc_id s) ≡ true
    unfolding supersede_older mark_superseded
    asserted-supersede s h = elim (Option-cases (document_at doc_id s)) [
      | inl n ↦ ground (arith, n)
      | inr (d, e) ↦ elim (Option-cases d.source_path) [
        | inl n ↦ ground (arith, e, n)
        | inr (path, p) ↦ elim (Option-cases d.version) [
          | inl n ↦ ground (arith, e, p, n)
          | inr (version, v) ↦ ground (
            arith,
            e,
            p,
            v,
            triple_id-update
                (is_superseded_sibling source_id target_id predicate rid path version s)
                (λ r. record r { superseded_by = some rid }) s.relations (λ r. refl) (λ r. refl),
          )
        ]
      ]
    ]

    abbrev is_evidenced : Result (Store V) → Bool
    is_evidenced (err e) = false
    is_evidenced (ok s) = asserted doc_id rid s

    is_evidenced-add_evidence :
        (s : Store V)
        → is_ready doc_id rid s ≡ true
        → is_evidenced (add_evidence rid doc_id s) ≡ true
    unfolding add_evidence
    is_evidenced-add_evidence s h =
        elim (Bool-cases (any_of (same_evidence rid doc_id) s.relation_evidence)) [
          | inl there ↦ ground (arith, there)
          | inr new ↦ ground (
            arith,
            new,
            any_of-append (same_evidence rid doc_id) s.relation_evidence
                (record { relation_id = rid; doc_id = doc_id } ∷ []),
          )
        ]

    asserts-link :
        (blob : Option V) (s : Store V)
        → is_ready doc_id rid s ≡ true
        → asserts doc_id (link_evidence source_id target_id predicate doc_id blob s rid) ≡ true
    unfolding link_evidence
    asserts-link blob s h =
        let ready =
          is_evidenced-add_evidence (set_embedding blob rid s) (is_ready-set_embedding blob s h) in
        elim (Result-cases (add_evidence rid doc_id (set_embedding blob rid s))) [
          | inl (x, e) ↦ ground (arith, e, ready)
          | inr (s', e) ↦
              ground (arith, e, asserted-supersede s' (subst (λ r. is_evidenced r ≡ true) e ready))
        ]

  abbrev new_row : ℕ → Relation V
  new_row rid = record {
    id = rid;
    source_id = source_id;
    target_id = target_id;
    predicate = predicate;
    embedding = none;
    superseded_by = none;
  }

  -- The INSERT of the triple, where the entities are known.
  module _ (doc_id : ℕ) where
    abbrev is_added : Result (Store V) → Bool
    is_added (err e) = false
    is_added (ok s) =
        any_of (same_triple source_id target_id predicate) s.relations
        && any_of (is_document doc_id) s.documents

    is_added-add_relation :
        (s : Store V)
        → known doc_id s ≡ true
        → is_added (add_relation source_id target_id predicate s) ≡ true
    unfolding add_relation
    is_added-add_relation s h =
        elim (Bool-cases (any_of (same_triple source_id target_id predicate) s.relations)) [
          | inl there ↦ ground (arith, there)
          | inr new ↦ ground (
            arith,
            new,
            any_of-append (same_triple source_id target_id predicate) s.relations
                (new_row s.next_relation ∷ []),
            eq_iff predicate predicate,
          )
        ]

    is_ready-row :
        (s : Store V) (r : Relation V)
        → first_where (same_triple source_id target_id predicate) s.relations ≡ some r
        → any_of (is_document doc_id) s.documents ≡ true
        → is_ready doc_id r.id s ≡ true
    is_ready-row s r e d = ground (arith, e, d, triple-is_relation s.relations {r = r} e)

    asserts-added :
        (vectors : Vectors V) (embedding : Option V) (s s' : Store V)
        → add_relation source_id target_id predicate s ≡ ok s'
        → is_added (ok s') ≡ true
        → asserts doc_id (upsert_relation vectors source_id target_id predicate doc_id embedding s)
          ≡ true
    unfolding upsert_relation
    asserts-added vectors embedding s s' e h =
        elim (Option-cases (first_where (same_triple source_id target_id predicate) s'.relations)) [
          | inl n ↦ ground (
            arith,
            n,
            h,
            any_of-first_where (same_triple source_id target_id predicate) s'.relations,
          )
          | inr (r, f) ↦ ground (
            arith,
            e,
            f,
            asserts-link doc_id r.id (blob_of vectors embedding) s'
                (is_ready-row s' r f (ground (arith, h))),
          )
        ]

    -- Asserting a triple of two known entities with a known document as evidence never fails: the
    -- relation that is returned is the one stored for the triple, and the document is linked to it.
    pub upsert_relation-asserts :
        (vectors : Vectors V) (embedding : Option V) (s : Store V)
        → known doc_id s ≡ true
        → asserts doc_id (upsert_relation vectors source_id target_id predicate doc_id embedding s)
          ≡ true
    upsert_relation-asserts vectors embedding s h =
        let added = is_added-add_relation s h in
        elim (Result-cases (add_relation source_id target_id predicate s)) [
          | inl (x, e) ↦ ground (arith, e, added)
          | inr (s', e) ↦
              asserts-added vectors embedding s s' e (subst (λ r. is_added r ≡ true) e added)
        ]
