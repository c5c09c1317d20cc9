-- ===== src/Graph/Steps.antt =====
-- What the steps of `upsert_relation` leave as it is.
use mathlib.Core.Option
use mathlib.Core.Path.{subst}
use membox.Base.{
  ℕ, String, Bool, true, false, Option, none, some, List, [], ◌∷◌, ◌++◌, not, if◌then◌else◌, arith,
  any_of, first_where, update_where, is_some, same_number, ◌≡◌, refl, sym, Option-cases, Bool-cases,
  inl, inr, ◌⊎◌,
}
use membox.Graph.Tables.{
  Relation, Store, Vectors, Result, ok, err, Result-cases, is_relation, blob_of,
}
use membox.Graph.Relations.{
  same_triple, add_relation, fill_embedding, set_embedding, add_evidence, supersede_older,
  link_evidence, upsert_relation,
}

module _ {V : Type 0} where
  abbrev pub superseded_at : ℕ → List (Relation V) → Option (Option ℕ)
  superseded_at i rows = Option.map (λ r. r.superseded_by) (first_where (is_relation i) rows)

  -- The relation at i, if it is superseded, is so by k.
  abbrev pub superseded_as : ℕ → ℕ → List (Relation V) → Bool
  superseded_as i k rows = elim (first_where (is_relation i) rows) [
    | none ↦ false
    | some r ↦ same_number r.superseded_by k
  ]

  pub as-update :
      (i k : ℕ) (test : Relation V → Bool) (change : Relation V → Relation V)
      (rows : List (Relation V))
      → ((r : Relation V) → (change r).id ≡ r.id)
      → ((r : Relation V)
          → same_number r.superseded_by k ≡ true
          → same_number (if test r then change r else r).superseded_by k ≡ true)
      → superseded_as i k rows ≡ true
      → superseded_as i k (update_where test change rows) ≡ true
  as-update i k test change [] same keeps h = h
  as-update i k test change (r ∷ rows) same keeps h =
      ground (arith, same r, keeps r, as-update i k test change rows same keeps)

  pub as-append :
      (i k : ℕ) (rows added : List (Relation V))
      → superseded_as i k rows ≡ true
      → superseded_as i k (rows ++ added) ≡ true
  as-append i k [] added h = cc
  as-append i k (r ∷ rows) added h = ground (arith, as-append i k rows added)

  -- There is no superseded relation at i.
  abbrev pub active_at : ℕ → List (Relation V) → Bool
  active_at i rows = elim (first_where (is_relation i) rows) [
    | none ↦ true
    | some r ↦ not (is_some r.superseded_by)
  ]

  pub active-append :
      (i : ℕ) (rows : List (Relation V)) (r : Relation V)
      → r.superseded_by ≡ none
      → active_at i rows ≡ true
      → active_at i (rows ++ r ∷ []) ≡ true
  active-append i [] r n h = ground (arith, n)
  active-append i (x ∷ rows) r n h = ground (arith, active-append i rows r n)

  pub active-fill :
      (i rid : ℕ) (v : V) (rows : List (Relation V))
      → active_at i rows ≡ true
      → active_at i (update_where (is_relation rid) (fill_embedding v) rows) ≡ true
  unfolding fill_embedding
  active-fill i rid v [] h = refl
  active-fill i rid v (x ∷ rows) h = ground (arith, active-fill i rid v rows)

  pub active-set_embedding :
      (i rid : ℕ) (blob : Option V) (s : Store V)
      → active_at i s.relations ≡ true
      → active_at i (set_embedding blob rid s).relations ≡ true
  unfolding set_embedding
  active-set_embedding i rid none s h = h
  active-set_embedding i rid (some v) s h = active-fill i rid v s.relations h

  pub as-set_embedding :
      (i k rid : ℕ) (blob : Option V) (s : Store V)
      → superseded_as i k s.relations ≡ true
      → superseded_as i k (set_embedding blob rid s).relations ≡ true
  unfolding set_embedding fill_embedding
  as-set_embedding i k rid none s h = h
  as-set_embedding i k rid (some v) s h =
      as-update i k (is_relation rid) (fill_embedding v) s.relations (λ r. refl)
        (λ r m. ground (arith, m)) h

  pub add_evidence-relations :
      (rid doc_id : ℕ) (s s' : Store V)
      → add_evidence rid doc_id s ≡ ok s'
      → s'.relations ≡ s.relations
  unfolding add_evidence
  add_evidence-relations rid doc_id s s' e = ground arith

  module _ (source_id target_id : ℕ) (predicate : String) where
    pub add_relation-cases :
        (s s' : Store V)
        → add_relation source_id target_id predicate s ≡ ok s'
        → (s'.relations ≡ s.relations)
          ⊎ ((r : Relation V) × (r.superseded_by ≡ none) × (s'.relations ≡ s.relations ++ r ∷ []))
    unfolding add_relation
    add_relation-cases s s' e =
        elim (Bool-cases (any_of (same_triple source_id target_id predicate) s.relations)) [
          | inl there ↦ inl (ground (arith, there))
          | inr new ↦ inr (
            record {
              id = s.next_relation;
              source_id = source_id;
              target_id = target_id;
              predicate = predicate;
              embedding = none;
              superseded_by = none;
            },
            refl,
            ground (arith, new),
          )
        ]

    pub as-add_relation :
        (i k : ℕ) (s s' : Store V)
        → superseded_as i k s.relations ≡ true
        → add_relation source_id target_id predicate s ≡ ok s'
        → superseded_as i k s'.relations ≡ true
    as-add_relation i k s s' h e = elim (add_relation-cases s s' e) [
      | inl same ↦ subst (λ rows. superseded_as i k rows ≡ true) (sym same) h
      | inr (r, n, more) ↦
          subst (λ rows. superseded_as i k rows ≡ true) (sym more)
            (as-append i k s.relations (r ∷ []) h)
    ]

    pub active-add_relation :
        (i : ℕ) (s s' : Store V)
        → active_at i s.relations ≡ true
        → add_relation source_id target_id predicate s ≡ ok s'
        → active_at i s'.relations ≡ true
    active-add_relation i s s' h e = elim (add_relation-cases s s' e) [
      | inl same ↦ subst (λ rows. active_at i rows ≡ true) (sym same) h
      | inr (r, n, more) ↦
          subst (λ rows. active_at i rows ≡ true) (sym more) (active-append i s.relations r n h)
    ]

  -- A property carried through the steps of the transaction.
  abbrev pub carries : (ℕ → Store V → Bool) → Result (ℕ × Store V) → Bool
  carries Q (err e) = true
  carries Q (ok (rid, s)) = Q rid s

  module _ (source_id target_id : ℕ) (predicate : String) (doc_id : ℕ) (P : Store V → Bool)
      (Q : ℕ → Store V → Bool) where
    pub carries-link :
        ((rid : ℕ) (blob : Option V) (s : Store V)
          → P s ≡ true
          → P (set_embedding blob rid s) ≡ true)
        → ((rid : ℕ) (s s' : Store V)
            → P s ≡ true
            → add_evidence rid doc_id s ≡ ok s'
            → P s' ≡ true)
        → ((rid : ℕ) (s : Store V)
            → P s ≡ true
            → Q rid (supersede_older source_id target_id predicate rid doc_id s) ≡ true)
        → (rid : ℕ) (blob : Option V) (s : Store V) → P s ≡ true
        → carries Q (link_evidence source_id target_id predicate doc_id blob s rid) ≡ true
    unfolding link_evidence
    carries-link filled linked marked rid blob s h =
        elim (Result-cases (add_evidence rid doc_id (set_embedding blob rid s))) [
          | inl (x, e) ↦ ground (arith, e)
          | inr (s', e) ↦ ground (
            arith,
            e,
            marked rid s' (linked rid (set_embedding blob rid s) s' (filled rid blob s h) e),
          )
        ]

    pub carries-upsert :
        ((s s' : Store V)
          → P s ≡ true
          → add_relation source_id target_id predicate s ≡ ok s'
          → P s' ≡ true)
        → ((rid : ℕ) (blob : Option V) (s : Store V)
            → P s ≡ true
            → carries Q (link_evidence source_id target_id predicate doc_id blob s rid) ≡ true)
        → (vectors : Vectors V) (embedding : Option V) (s : Store V) → P s ≡ true
        → carries Q (upsert_relation vectors source_id target_id predicate doc_id embedding s)
          ≡ true
    unfolding upsert_relation
    carries-upsert added linked vectors embedding s h =
        elim (Result-cases (add_relation source_id target_id predicate s)) [
          | inl (x, e) ↦ ground (arith, e)
          | inr (s', e) ↦
              elim (Option-cases
                (first_where (same_triple source_id target_id predicate) s'.relations)) [
                  | inl n ↦ ground (arith, e, n)
                  | inr (r, f) ↦
                      ground
                        (arith, e, f, linked r.id (blob_of vectors embedding) s' (added s s' h e))
                ]
        ]
