-- ===== src/Graph/Supersession.antt =====
-- What `upsert_relation` does to the relations that other documents asserted.

use mathlib.Core.Path.{subst}
use membox.Base.{
  ℕ, String, Bool, true, false, ◌&&◌, Option, none, some, ◌==◌, not, if◌then◌else◌, arith,
  first_where, is_some, same_number, str_eq, ◌≡◌, refl, sym, Option-cases, inl, inr,
}
use membox.Graph.Tables.{Relation, Store, Vectors, is_relation, document_at}
use membox.Graph.Relations.{
  mark_superseded, supersede_older, upsert_relation, is_superseded_sibling, has_older_evidence,
}
use membox.Graph.Steps.{
  superseded_as, as-update, as-set_embedding, add_evidence-relations, as-add_relation, carries,
  carries-link, carries-upsert,
}

module _ {V : Type 0} where
  -- The relation at i, if it is superseded, is so by rid; it is then another relation of the same
  -- source and predicate with another target, and an older version of the document's path is evidence
  -- for it.
  abbrev pub explains : ℕ → ℕ → String → ℕ → String → ℕ → Store V → Relation V → Bool
  explains source_id target_id predicate rid path version s r =
      same_number r.superseded_by rid
      && r.source_id == source_id
      && str_eq r.predicate predicate
      && not (r.target_id == target_id)
      && not (r.id == rid)
      && has_older_evidence path version s r.id

  abbrev pub explained_row : ℕ → ℕ → String → ℕ → ℕ → Store V → Relation V → Bool
  explained_row source_id target_id predicate doc_id rid s r = elim (document_at doc_id s) [
    | none ↦ false
    | some d ↦ elim d.source_path [
      | none ↦ false
      | some path ↦ elim d.version [
        | none ↦ false
        | some version ↦ explains source_id target_id predicate rid path version s r
      ]
    ]
  ]

  abbrev pub explained : ℕ → ℕ → String → ℕ → ℕ → ℕ → Store V → Bool
  explained source_id target_id predicate doc_id i rid s =
      elim (first_where (is_relation i) s.relations) [
        | none ↦ true
        | some r ↦
            if is_some r.superseded_by
            then explained_row source_id target_id predicate doc_id rid s r
            else true
      ]

  module _ (source_id target_id : ℕ) (predicate : String) (doc_id i : ℕ) where
    as-supersede :
        (k rid : ℕ) (s : Store V)
        → superseded_as i k s.relations ≡ true
        → superseded_as i k (supersede_older source_id target_id predicate rid doc_id s).relations
          ≡ true
    unfolding supersede_older mark_superseded is_superseded_sibling
    as-supersede k rid s h = elim (Option-cases (document_at doc_id s)) [
      | inl n ↦ ground (arith, n)
      | inr (d, e) ↦ elim (Option-cases d.source_path) [
        | inl n ↦ ground (arith, e, n)
        | inr (path, p) ↦ elim (Option-cases d.version) [
          | inl n ↦ ground (arith, e, p, n)
          | inr (version, v) ↦ ground (
            arith,
            e,
            p,
            v,
            as-update i k (is_superseded_sibling source_id target_id predicate rid path version s)
                (λ r. record r { superseded_by = some rid }) s.relations (λ r. refl)
                (λ r m. ground (arith, m)) h,
          )
        ]
      ]
    ]

    -- A relation that is superseded stays superseded by the same relation, whichever triple is
    -- asserted: its own too.
    pub upsert_relation-keeps :
        (k : ℕ) (vectors : Vectors V) (embedding : Option V) (s : Store V)
        → superseded_as i k s.relations ≡ true
        → carries
            (λ rid s'. superseded_as i k s'.relations)
            (upsert_relation vectors source_id target_id predicate doc_id embedding s)
          ≡ true
    upsert_relation-keeps k =
        let P = λ (s : Store V). superseded_as i k s.relations in
        carries-upsert source_id target_id predicate doc_id P (λ rid. P)
          (as-add_relation source_id target_id predicate i k)
          (carries-link source_id target_id predicate doc_id P (λ rid. P) (as-set_embedding i k)
            (λ rid s s' h e.
              subst (λ rows. superseded_as i k rows ≡ true)
                (sym (add_evidence-relations rid doc_id s s' e)) h)
            (as-supersede k))
