-- ===== src/Agent/Ingestion.antt =====
-- The ingestion resolves every name of a graph, and no other.
use mathlib.Core.Path.{subst}
use membox.Base.{
  ℕ, String, Bool, true, false, not, ◌&&◌, ◌||◌, Option, none, some, List, [], ◌∷◌, ◌++◌, arith,
  ◌≡◌, refl, inl, inr, if◌then◌else◌, any_of, all_of, any_of-append, is_some, str_eq, eq_iff,
  same_number, Bool-cases,
}
use membox.Base.Text.{Lowering}
use membox.Graph.Normalize.{normalize_name}
use membox.Graph.Tables.{Store, Vectors, Result, ok, err, Result-cases}
use membox.Graph.Documents.{insert_document}
use membox.Graph.Entities.{find_entity_by_alias, find_or_create_entity}
use membox.Graph.Names.{binds, well_named, find_or_create_entity-binds}
use membox.Graph.Bindings.{is_bound, still_bound, bound-find_or_create}
use membox.Agent.{ExtractedEntity, ExtractedGraph, Names, id_of, resolve_entities, entity_specs}
use membox.Agent.Specs.{is_named, is_name_of, entity_specs-named}

abbrev has_key : String → String × ℕ → Bool
has_key name item = str_eq item.0 name

module _ {V : Type 0} (lower : Lowering) where
  -- The alias of a name is bound to its id.
  abbrev item_bound : Store V → String × ℕ → Bool
  item_bound s item = is_bound (normalize_name lower item.0) item.1 s

  -- The names have an id for this one, that of the entity that its alias is bound to.
  abbrev has_entity : Names → Store V → String → Bool
  has_entity names s name = elim (id_of names name) [
    | none ↦ false
    | some eid ↦ same_number (find_entity_by_alias (normalize_name lower name) s) eid
  ]

  id_of-item :
      (name : String) (names : Names) (s : Store V)
      → all_of (item_bound s) names ≡ true
      → (if any_of (has_key name) names
          then has_entity names s name
          else not (is_some (id_of names name)))
        ≡ true
  id_of-item name [] s h = refl
  id_of-item name (item ∷ names) s h = elim (Bool-cases (has_key name item)) [
    | inl e ↦
        let same : item.0 ≡ name = (eq_iff item.0 name).0 e in
        let bound : is_bound (normalize_name lower item.0) item.1 s ≡ true = ground (arith, h) in
        ground (arith, e, subst (λ n. is_bound (normalize_name lower n) item.1 s ≡ true) same bound)
    | inr e ↦ ground (arith, e, h, id_of-item name names s)
  ]

  module _ (vectors : Vectors V) (embed : Option (String → V)) (threshold : ℕ) where
    bound-items :
        (e : ExtractedEntity) (s : Store V) {eid : ℕ} {s' : Store V}
        → find_or_create_entity lower vectors embed threshold e.name e.entity_type e.description s
          ≡ ok (eid, s')
        → (names : Names) → all_of (item_bound s) names ≡ true
        → all_of (item_bound s') names ≡ true
    bound-items e s f [] h = refl
    bound-items e s {eid} {s'} f (item ∷ names) h =
        let alias = normalize_name lower item.0 in
        let bound : is_bound alias item.1 s ≡ true = ground (arith, h) in
        let kept : still_bound alias item.1 (ok (eid, s')) ≡ true =
          subst (λ r. still_bound alias item.1 r ≡ true) f
            (bound-find_or_create alias item.1 lower vectors embed threshold e.name e.entity_type
              e.description s bound) in
        ground (arith, kept, h, bound-items e s f names)

    all_of-append :
        (s : Store V) (item : String × ℕ) (names : Names)
        → all_of (item_bound s) names ≡ true
        → item_bound s item ≡ true
        → all_of (item_bound s) (names ++ item ∷ []) ≡ true
    all_of-append s item [] h b = ground (arith, b)
    all_of-append s item (x ∷ names) h b = ground (arith, h, all_of-append s item names)

    -- The loop has not failed, every id is bound to its name's alias, and the name has one if expected.
    abbrev keyed : String → Bool → Result Names × Store V → Bool
    keyed name expected (err x, s) = false
    keyed name expected (ok names, s) =
        well_named lower s
        && all_of (item_bound s) names
        && (if expected then any_of (has_key name) names else not (any_of (has_key name) names))

    keyed-from :
        (name : String) (specs : List ExtractedEntity) (names : Names) (s : Store V)
        → well_named lower s ≡ true
        → all_of (item_bound s) names ≡ true
        → keyed name
            (any_of (has_key name) names || any_of (is_named name) specs)
            (resolve_entities lower vectors embed threshold specs names s)
          ≡ true
    unfolding resolve_entities
    keyed-from name [] names s w h = ground (arith, w, h)
    keyed-from name (e ∷ specs) names s w h =
        let bound =
          find_or_create_entity-binds lower vectors threshold e.name e.entity_type e.description s
            embed w in
        elim (Result-cases (
          find_or_create_entity lower vectors embed threshold e.name e.entity_type e.description
            s)) [
              | inl (x, f) ↦ ground (arith, f, bound)
              | inr ((eid, s'), f) ↦
                  let next : binds lower e.name (ok (eid, s')) ≡ true =
                    subst (λ r. binds lower e.name r ≡ true) f bound in
                  let longer =
                    all_of-append s' (e.name, eid) names (bound-items e s f names h)
                      (ground (arith, next)) in
                  ground (
                    arith,
                    f,
                    any_of-append (has_key name) names ((e.name, eid) ∷ []),
                    keyed-from name specs (names ++ (e.name, eid) ∷ []) s' (ground (arith, next))
                        longer,
                  )
            ]

    -- The loop has not failed, every entity's name is bound, and a name has an id, the entity's that its
    -- alias is bound to, if it is expected to have one, and none otherwise.
    abbrev pub resolved : Bool → String → Result Names × Store V → Bool
    resolved expected name (err x, s) = false
    resolved expected name (ok names, s) =
        well_named lower s
        && (if expected then has_entity names s name else not (is_some (id_of names name)))

    resolved-keyed :
        (name : String) (expected : Bool) (names : Names) (s : Store V)
        → keyed name expected (ok names, s) ≡ true
        → resolved expected name (ok names, s) ≡ true
    resolved-keyed name expected names s k = ground (arith, k, id_of-item name names s)

    resolved-from :
        (name : String) (expected : Bool) (result : Result Names × Store V)
        → keyed name expected result ≡ true
        → resolved expected name result ≡ true
    resolved-from name expected (err x, s) k = k
    resolved-from name expected (ok names, s) k = resolved-keyed name expected names s k

    -- In a store where every entity's name is bound, the ingestion of a graph does not fail before it
    -- asserts relations, and every entity's name is bound then. A name of the graph, be it an entity's
    -- or a relation's source or target, then has an id, that of the entity that its alias is bound to,
    -- and no other name has one.
    pub ingest_extracted-resolves :
        (text source : String) (project source_path section doc_date : Option String)
        (graph : ExtractedGraph) (s : Store V) (name : String)
        → well_named lower s ≡ true
        → resolved (is_name_of graph name) name (
            resolve_entities lower vectors embed threshold
              (entity_specs graph)
              []
              (insert_document text source project source_path section doc_date none s).1)
          ≡ true
    unfolding insert_document
    ingest_extracted-resolves text source project source_path section doc_date graph s name w =
        let start = (insert_document text source project source_path section doc_date none s).1 in
        let result = resolve_entities lower vectors embed threshold (entity_specs graph) [] start in
        resolved-from name (is_name_of graph name) result (
          subst (λ b. keyed name b result ≡ true) (entity_specs-named name graph)
            (keyed-from name (entity_specs graph) [] start w refl))
