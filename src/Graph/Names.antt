-- ===== src/Graph/Names.antt =====
-- A name and the entity that it resolves to.
use mathlib.Core.Path.{subst}
use membox.Base.{
  ℕ, String, Bool, true, false, ◌&&◌, Option, none, some, ◌==◌, arith, first_where, length,
  length-update_where, same_number, ◌≡◌, sym, Option-cases, inl, inr,
}
use membox.Base.Text.{Lowering}
use membox.Graph.Normalize.{normalize_name}
use membox.Graph.Tables.{Entity, Store, Vectors, Result, ok, err, is_entity, blob_of}
use membox.Graph.Entities.{
  has_alias, insert_alias, find_entity_by_alias, add_alias, create_entity, longer_description,
  update_entity_description, found, find_similar_entity, create_or_resolve, alias_winner,
  find_or_create_entity,
}
use membox.Graph.Aliases.{
  insert_alias-binds, insert_alias-fresh, registered, registered-insert_alias, registered-update,
  unbound-is_new, unbound-row, registered-create,
}

module _ {V : Type 0} (lower : Lowering) where
  -- The entity is there with its name bound to it, and every entity's name is bound.
  abbrev pub binds : String → Result (ℕ × Store V) → Bool
  binds name (err e) = false
  binds name (ok (eid, s)) =
      registered lower s.entity_aliases s.entities
      && same_number (find_entity_by_alias (normalize_name lower name) s) eid

  abbrev pub well_named : Store V → Bool
  well_named s = registered lower s.entity_aliases s.entities

  binds-found :
      (name description : String) (eid : ℕ) (s : Store V)
      → well_named s ≡ true
      → find_entity_by_alias (normalize_name lower name) s ≡ some eid
      → binds name (found eid description s) ≡ true
  unfolding found update_entity_description find_entity_by_alias
  binds-found name description eid s h b =
      ground (arith, registered-update lower eid description s.entity_aliases s.entities h)

  binds-create :
      (vectors : Vectors V) (name entity_type description : String) (embedding : Option V)
      (s : Store V)
      → well_named s ≡ true
      → find_entity_by_alias (normalize_name lower name) s ≡ none
      → binds name (create_or_resolve lower vectors name entity_type description embedding s) ≡ true
  unfolding create_or_resolve create_entity find_entity_by_alias
  binds-create vectors name entity_type description embedding s h n =
      let alias = normalize_name lower name in
      let e : Entity V = record {
        id = s.next_entity;
        canonical_name = name;
        entity_type = entity_type;
        description = description;
        embedding = blob_of vectors embedding;
      } in
      ground (
        arith,
        unbound-is_new lower name s.entity_aliases s.entities h (unbound-row lower alias s n),
        registered-create lower s.entity_aliases s.entities e h,
        insert_alias-fresh alias s.next_entity s.entity_aliases (unbound-row lower alias s n),
      )

  winner-bound :
      (alias : String) (eid : ℕ) (s : Store V)
      → find_entity_by_alias alias (add_alias alias eid s)
        ≡ some (alias_winner alias eid (add_alias alias eid s))
  unfolding alias_winner add_alias find_entity_by_alias
  winner-bound alias eid s =
      elim (Option-cases
        (first_where (has_alias alias) (insert_alias alias eid s.entity_aliases))) [
          | inl n ↦ ground (arith, n, insert_alias-binds alias eid s.entity_aliases)
          | inr (row, e) ↦ ground (arith, e)
        ]

  well_named-add_alias :
      (alias : String) (eid : ℕ) (s : Store V)
      → well_named s ≡ true
      → well_named (add_alias alias eid s) ≡ true
  unfolding add_alias
  well_named-add_alias alias eid s h =
      registered-insert_alias lower alias eid s.entity_aliases s.entities h

  binds-similar :
      (name description : String) (eid : ℕ) (s : Store V)
      → well_named s ≡ true
      → binds name (
          found
            (alias_winner
              (normalize_name lower name)
              eid
              (add_alias (normalize_name lower name) eid s))
            description
            (add_alias (normalize_name lower name) eid s))
        ≡ true
  binds-similar name description eid s h =
      let alias = normalize_name lower name in
      binds-found name description (alias_winner alias eid (add_alias alias eid s))
        (add_alias alias eid s) (well_named-add_alias alias eid s h) (winner-bound alias eid s)

  module _ (vectors : Vectors V) (threshold : ℕ) (name entity_type description : String)
      (s : Store V) where
    binds-unbound :
        (embed : Option (String → V))
        → well_named s ≡ true
        → find_entity_by_alias (normalize_name lower name) s ≡ none
        → binds name
            (find_or_create_entity lower vectors embed threshold name entity_type description s)
          ≡ true
    unfolding find_or_create_entity
    binds-unbound none h n =
        ground (arith, n, binds-create vectors name entity_type description none s h n)
    binds-unbound (some embedder) h n =
        elim (Option-cases
          (find_similar_entity vectors (embedder name) (some entity_type) threshold s)) [
            | inl m ↦ ground (
              arith,
              n,
              m,
              binds-create vectors name entity_type description (some (embedder name)) s h n,
            )
            | inr (eid, m) ↦ ground (arith, n, m, binds-similar name description eid s h)
          ]

    bound-same :
        (embed : Option (String → V)) (eid : ℕ)
        → find_entity_by_alias (normalize_name lower name) s ≡ some eid
        → find_or_create_entity lower vectors embed threshold name entity_type description s
          ≡ found eid description s
    unfolding find_or_create_entity
    bound-same embed eid e = ground (arith, e)

    -- In a store where every entity's name is bound, resolving a name never fails: the name is then
    -- bound to the entity that is returned, and every entity's name is still bound, whether the entity
    -- was known by the alias, taken from a similar vector or created.
    pub find_or_create_entity-binds :
        (embed : Option (String → V))
        → well_named s ≡ true
        → binds name
            (find_or_create_entity lower vectors embed threshold name entity_type description s)
          ≡ true
    find_or_create_entity-binds embed h =
        elim (Option-cases (find_entity_by_alias (normalize_name lower name) s)) [
          | inr (eid, e) ↦
              subst (λ r. binds name r ≡ true) (sym (bound-same embed eid e))
                (binds-found name description eid s h e)
          | inl n ↦ binds-unbound embed h n
        ]

  binds-bound :
      (name : String) (eid : ℕ) (s : Store V)
      → binds name (ok (eid, s)) ≡ true
      → find_entity_by_alias (normalize_name lower name) s ≡ some eid
  binds-bound name eid s b =
      elim (Option-cases (find_entity_by_alias (normalize_name lower name) s)) [
        | inl n ↦ ground (arith, n)
        | inr (i, e) ↦ ground (arith, e)
      ]

  -- The same entity and as many entities as before.
  abbrev pub resolves : ℕ → ℕ → Result (ℕ × Store V) → Bool
  resolves eid count (err e) = false
  resolves eid count (ok (again, s)) = again == eid && length s.entities == count

  resolves-found :
      (eid : ℕ) (description : String) (s : Store V)
      → resolves eid (length s.entities) (found eid description s) ≡ true
  unfolding found update_entity_description
  resolves-found eid description s =
      ground
        (arith, length-update_where (is_entity eid) (longer_description description) s.entities)

  module _ (vectors vectors' : Vectors V) (threshold threshold' : ℕ)
      (name entity_type entity_type' description description' : String) where
    -- In a store where every entity's name is bound, a name that has just been resolved resolves to
    -- the same entity again, and no entity is added, whatever type, description, threshold and
    -- embedder are given the second time.
    pub find_or_create_entity-again :
        (embed embed' : Option (String → V)) (s : Store V) {eid : ℕ} {s' : Store V}
        → well_named s ≡ true
        → find_or_create_entity lower vectors embed threshold name entity_type description s
          ≡ ok (eid, s')
        → resolves eid (length s'.entities) (
            find_or_create_entity lower vectors' embed' threshold' name entity_type' description'
              s')
          ≡ true
    find_or_create_entity-again embed embed' s {eid} {s'} h e =
        let bound : find_entity_by_alias (normalize_name lower name) s' ≡ some eid =
          binds-bound name eid s' (
            subst (λ r. binds name r ≡ true) e
              (find_or_create_entity-binds vectors threshold name entity_type description s embed
                h)) in
        subst (λ r. resolves eid (length s'.entities) r ≡ true)
          (sym (bound-same vectors' threshold' name entity_type' description' s' embed' eid bound))
          (resolves-found eid description' s')
