-- ===== src/Graph/Aliases.antt =====
-- The aliases: what is bound stays bound.
use membox.Base.{
  ℕ, String, Bool, true, false, none, some, List, [], ◌∷◌, ◌++◌, arith, all_of, any_of, first_where,
  first_where-append, any_of-first_where, update_where, is_some, str_eq, ◌≡◌, refl, ap, eq_iff,
  Option-cases, Bool-cases, inl, inr,
}
use membox.Base.Text.{Lowering}
use membox.Graph.Normalize.{normalize_name}
use membox.Graph.Tables.{Entity, Alias, Store, is_entity}
use membox.Graph.Entities.{
  has_alias, has_name, insert_alias, find_entity_by_alias, longer_description,
}

abbrev pub alias_bound : List Alias → String → Bool
alias_bound rows alias = is_some (first_where (has_alias alias) rows)

pub str_eq_refl : (t : String) → str_eq t t ≡ true
str_eq_refl t = ground (arith, eq_iff t t)

-- A bound alias keeps its entity.
pub insert_alias-keeps :
    (alias other : String) (eid : ℕ) (rows : List Alias)
    → alias_bound rows other ≡ true
    → first_where (has_alias other) (insert_alias alias eid rows)
      ≡ first_where (has_alias other) rows
unfolding insert_alias
insert_alias-keeps alias other eid rows h = ground (
  arith,
  first_where-append (has_alias other) rows (record { alias = alias; entity_id = eid } ∷ []),
)

pub insert_alias-binds :
    (alias : String) (eid : ℕ) (rows : List Alias)
    → alias_bound (insert_alias alias eid rows) alias ≡ true
unfolding insert_alias
insert_alias-binds alias eid rows = ground (
  arith,
  str_eq_refl alias,
  any_of-first_where (has_alias alias) rows,
  first_where-append (has_alias alias) rows (record { alias = alias; entity_id = eid } ∷ []),
)

pub insert_alias-fresh :
    (alias : String) (eid : ℕ) (rows : List Alias)
    → first_where (has_alias alias) rows ≡ none
    → first_where (has_alias alias) (insert_alias alias eid rows)
      ≡ some (record { alias = alias; entity_id = eid })
unfolding insert_alias
insert_alias-fresh alias eid rows h = ground (
  arith,
  str_eq_refl alias,
  any_of-first_where (has_alias alias) rows,
  first_where-append (has_alias alias) rows (record { alias = alias; entity_id = eid } ∷ []),
)

pub same_bound :
    (lower : Lowering) (name other : String) (rows : List Alias)
    → str_eq other name ≡ true
    → alias_bound rows (normalize_name lower other) ≡ alias_bound rows (normalize_name lower name)
same_bound lower name other rows same =
    ap (λ t. alias_bound rows (normalize_name lower t)) (ground (arith, same, eq_iff other name))

module _ {V : Type 0} (lower : Lowering) where
  -- Every entity's name is bound, by its alias, to some entity.
  abbrev pub registered : List Alias → List (Entity V) → Bool
  registered rows = all_of (λ e. alias_bound rows (normalize_name lower e.canonical_name))

  pub registered-insert_alias :
      (alias : String) (eid : ℕ) (rows : List Alias) (entities : List (Entity V))
      → registered rows entities ≡ true
      → registered (insert_alias alias eid rows) entities ≡ true
  registered-insert_alias alias eid rows [] h = refl
  registered-insert_alias alias eid rows (e ∷ entities) h = ground (
    arith,
    insert_alias-keeps alias (normalize_name lower e.canonical_name) eid rows,
    registered-insert_alias alias eid rows entities,
  )

  pub registered-update :
      (eid : ℕ) (text : String) (rows : List Alias) (entities : List (Entity V))
      → registered rows entities ≡ true
      → registered rows (update_where (is_entity eid) (longer_description text) entities) ≡ true
  unfolding longer_description
  registered-update eid text rows [] h = refl
  registered-update eid text rows (e ∷ entities) h =
      ground (arith, registered-update eid text rows entities)

  pub registered-append :
      (rows : List Alias) (entities : List (Entity V)) (e : Entity V)
      → registered rows entities ≡ true
      → alias_bound rows (normalize_name lower e.canonical_name) ≡ true
      → registered rows (entities ++ e ∷ []) ≡ true
  registered-append rows [] e h b = ground arith
  registered-append rows (x ∷ entities) e h b = ground (arith, registered-append rows entities e)

  -- An unbound name is no entity's.
  pub unbound-is_new :
      (name : String) (rows : List Alias) (entities : List (Entity V))
      → registered rows entities ≡ true
      → first_where (has_alias (normalize_name lower name)) rows ≡ none
      → any_of (has_name name) entities ≡ false
  unbound-is_new name rows [] h n = refl
  unbound-is_new name rows (e ∷ entities) h n = elim (Bool-cases (has_name name e)) [
    | inl same ↦ ground (arith, same, same_bound lower name e.canonical_name rows)
    | inr other ↦ ground (arith, other, unbound-is_new name rows entities)
  ]

  pub unbound-row :
      (alias : String) (s : Store V)
      → find_entity_by_alias alias s ≡ none
      → first_where (has_alias alias) s.entity_aliases ≡ none
  unfolding find_entity_by_alias
  unbound-row alias s n = elim (Option-cases (first_where (has_alias alias) s.entity_aliases)) [
    | inl none_found ↦ none_found
    | inr (row, e) ↦ ground (arith, e)
  ]

  -- What the creation of an entity of an unbound name leaves.
  pub registered-create :
      (rows : List Alias) (entities : List (Entity V)) (e : Entity V)
      → registered rows entities ≡ true
      → registered
          (insert_alias (normalize_name lower e.canonical_name) e.id rows)
          (entities ++ e ∷ [])
        ≡ true
  registered-create rows entities e h =
      registered-append (insert_alias (normalize_name lower e.canonical_name) e.id rows) entities e
        (registered-insert_alias (normalize_name lower e.canonical_name) e.id rows entities h)
        (insert_alias-binds (normalize_name lower e.canonical_name) e.id rows)
