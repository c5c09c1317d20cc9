-- ===== src/Graph/Bindings.antt =====
-- An alias that is bound keeps its entity while other names are resolved.
use membox.Base.{
  ℕ, String, Bool, true, Option, none, some, arith, first_where, same_number, ◌≡◌, Option-cases,
  inl, inr,
}
use membox.Base.Text.{Lowering}
use membox.Graph.Normalize.{normalize_name}
use membox.Graph.Tables.{Store, Vectors, Result, ok, err, Result-cases}
use membox.Graph.Entities.{
  has_alias, find_entity_by_alias, add_alias, create_entity, update_entity_description, found,
  find_similar_entity, create_or_resolve, resolve_race_winner, alias_winner, find_or_create_entity,
}
use membox.Graph.Aliases.{insert_alias-keeps}

module _ {V : Type 0} where
  abbrev pub is_bound : String → ℕ → Store V → Bool
  is_bound alias k s = same_number (find_entity_by_alias alias s) k

  -- The alias is bound to k in the store of a result.
  abbrev pub still_bound : String → ℕ → Result (ℕ × Store V) → Bool
  still_bound alias k (err e) = true
  still_bound alias k (ok (eid, s)) = is_bound alias k s

  module _ (alias : String) (k : ℕ) where
    bound-add_alias :
        (other : String) (eid : ℕ) (s : Store V)
        → is_bound alias k s ≡ true
        → is_bound alias k (add_alias other eid s) ≡ true
    unfolding add_alias find_entity_by_alias
    bound-add_alias other eid s h =
        elim (Option-cases (first_where (has_alias alias) s.entity_aliases)) [
          | inl n ↦ ground (arith, n, h)
          | inr (row, e) ↦ ground (arith, e, h, insert_alias-keeps other alias eid s.entity_aliases)
        ]

    bound-found :
        (eid : ℕ) (description : String) (s : Store V)
        → is_bound alias k s ≡ true
        → still_bound alias k (found eid description s) ≡ true
    unfolding found update_entity_description find_entity_by_alias
    bound-found eid description s h = ground (arith, h)

    bound-create_entity :
        (lower : Lowering) (vectors : Vectors V) (name entity_type description : String)
        (embedding : Option V) (s : Store V)
        → is_bound alias k s ≡ true
        → still_bound alias k (create_entity lower vectors name entity_type description embedding s)
          ≡ true
    unfolding create_entity find_entity_by_alias
    bound-create_entity lower vectors name entity_type description embedding s h =
        elim (Option-cases (first_where (has_alias alias) s.entity_aliases)) [
          | inl n ↦ ground (arith, n, h)
          | inr (row, e) ↦ ground (
            arith,
            e,
            h,
            insert_alias-keeps (normalize_name lower name) alias s.next_entity s.entity_aliases,
          )
        ]

    bound-create_or_resolve :
        (lower : Lowering) (vectors : Vectors V) (name entity_type description : String)
        (embedding : Option V) (s : Store V)
        → is_bound alias k s ≡ true
        → still_bound alias k
            (create_or_resolve lower vectors name entity_type description embedding s)
          ≡ true
    unfolding create_or_resolve
    bound-create_or_resolve lower vectors name entity_type description embedding s h =
        let made = bound-create_entity lower vectors name entity_type description embedding s h in
        elim (Result-cases (create_entity lower vectors name entity_type description embedding s)) [
          | inr (created, e) ↦ ground (arith, e, made)
          | inl (x, e) ↦
              elim (Option-cases (resolve_race_winner name (normalize_name lower name) s)) [
                | inl n ↦ ground (arith, e, n)
                | inr (eid, w) ↦ ground (arith, e, w, bound-found eid description s h)
              ]
        ]

    pub bound-find_or_create :
        (lower : Lowering) (vectors : Vectors V) (embed : Option (String → V)) (threshold : ℕ)
        (name entity_type description : String) (s : Store V)
        → is_bound alias k s ≡ true
        → still_bound alias k
            (find_or_create_entity lower vectors embed threshold name entity_type description s)
          ≡ true
    unfolding find_or_create_entity
    bound-find_or_create lower vectors embed threshold name entity_type description s h =
        let own = normalize_name lower name in
        elim (Option-cases (find_entity_by_alias own s)) [
          | inr (eid, e) ↦ ground (arith, e, bound-found eid description s h)
          | inl n ↦ elim (Option-cases embed) [
            | inl off ↦ ground (
              arith,
              n,
              off,
              bound-create_or_resolve lower vectors name entity_type description none s h,
            )
            | inr (embedder, on) ↦
                elim (Option-cases
                  (find_similar_entity vectors (embedder name) (some entity_type) threshold s)) [
                    | inl m ↦ ground (
                      arith,
                      n,
                      on,
                      m,
                      bound-create_or_resolve lower vectors name entity_type description
                          (some (embedder name)) s h,
                    )
                    | inr (eid, m) ↦ ground (
                      arith,
                      n,
                      on,
                      m,
                      bound-found (alias_winner own eid (add_alias own eid s)) description
                          (add_alias own eid s) (bound-add_alias own eid s h),
                    )
                  ]
          ]
        ]
