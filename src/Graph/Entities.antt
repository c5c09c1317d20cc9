-- ===== src/Graph/Entities.antt =====
-- The entities and their aliases, as one process sees them.
use membox.Base.{
  ℕ, ◌+◌, String, Bool, true, ◌&&◌, Option, none, some, List, [], ◌∷◌, ◌++◌, map, ltb, ◌==◌,
  if◌then◌else◌, str_eq, any_of, first_where, update_where,
}
use mathlib.Core.Option
use membox.Base.Text.{Lowering, is_empty, text_length}
use membox.Graph.Normalize.{normalize_name}
use membox.Graph.Tables.{
  Entity, Alias, Store, Vectors, integrity, Result, ok, err, is_entity, blob_of,
}

abbrev pub has_alias : String → Alias → Bool
has_alias alias row = str_eq row.alias alias

-- `INSERT OR IGNORE INTO entity_aliases`
unfoldable pub insert_alias : String → ℕ → List Alias → List Alias
insert_alias alias entity_id rows =
    if any_of (has_alias alias) rows
    then rows
    else rows ++ record { alias = alias; entity_id = entity_id } ∷ []

module _ {V : Type 0} where
  abbrev pub has_name : String → Entity V → Bool
  has_name name e = str_eq e.canonical_name name

  unfoldable pub find_entity_by_alias : String → Store V → Option ℕ
  find_entity_by_alias alias s =
      Option.map (λ row. row.entity_id) (first_where (has_alias alias) s.entity_aliases)

  unfoldable pub add_alias : String → ℕ → Store V → Store V
  unfolding insert_alias
  add_alias alias entity_id s = record s {
    entity_aliases = insert_alias alias entity_id s.entity_aliases;
  }

  -- A row of the scan: the best so far is `none` at the threshold.
  unfoldable pub better : Vectors V → V → Entity V → V → Option ℕ × ℕ → Option ℕ × ℕ
  better vectors query e vec best =
      if vectors.dimension vec == vectors.dimension query && ltb best.1 (vectors.cosine query vec)
      then (some e.id, vectors.cosine query vec)
      else best

  unfoldable pub scan_similar :
      Vectors V → V → Option String → List (Entity V) → Option ℕ × ℕ → Option ℕ × ℕ
  unfolding better
  scan_similar vectors query type_hint [] best = best
  scan_similar vectors query type_hint (e ∷ entities) best =
      scan_similar vectors query type_hint entities (
        if (elim type_hint [ none ↦ true | some hint ↦ str_eq e.entity_type hint ])
        then elim e.embedding [ none ↦ best | some vec ↦ better vectors query e vec best ]
        else best)

  unfoldable pub find_similar_entity : Vectors V → V → Option String → ℕ → Store V → Option ℕ
  unfolding scan_similar
  find_similar_entity vectors query type_hint threshold s =
      (scan_similar vectors query type_hint s.entities (none, threshold)).0

  unfoldable pub create_entity :
      Lowering → Vectors V → String → String → String → Option V → Store V → Result (ℕ × Store V)
  unfolding normalize_name insert_alias blob_of
  create_entity lower vectors canonical entity_type description embedding s =
      if any_of (has_name canonical) s.entities
      then err integrity
      else ok (
        s.next_entity,
        record s {
          entities =
              s.entities
              ++ record {
                id = s.next_entity;
                canonical_name = canonical;
                entity_type = entity_type;
                description = description;
                embedding = blob_of vectors embedding;
              }
                ∷ [];
          next_entity = s.next_entity + 1;
          entity_aliases =
              insert_alias (normalize_name lower canonical) s.next_entity s.entity_aliases;
        },
      )

  unfoldable pub longer_description : String → Entity V → Entity V
  longer_description new_desc e =
      if ltb (text_length e.description) (text_length new_desc)
      then record e { description = new_desc }
      else e

  unfoldable pub update_entity_description : ℕ → String → Store V → Store V
  unfolding longer_description
  update_entity_description entity_id new_desc s = if is_empty new_desc then s else record s {
    entities = update_where (is_entity entity_id) (longer_description new_desc) s.entities;
  }

  -- The result of every branch that found an entity.
  unfoldable pub found : ℕ → String → Store V → Result (ℕ × Store V)
  unfolding update_entity_description
  found eid description s = ok (eid, update_entity_description eid description s)

  unfoldable pub resolve_race_winner : String → String → Store V → Option ℕ
  unfolding find_entity_by_alias
  resolve_race_winner name alias s = elim (find_entity_by_alias alias s) [
    | some eid ↦ some eid
    | none ↦ Option.map (λ e. e.id) (first_where (has_name name) s.entities)
  ]

  -- The creation, and what follows where it fails.
  unfoldable pub create_or_resolve :
      Lowering → Vectors V → String → String → String → Option V → Store V → Result (ℕ × Store V)
  unfolding create_entity resolve_race_winner found
  create_or_resolve lower vectors name entity_type description embedding s =
      elim (create_entity lower vectors name entity_type description embedding s) [
        | ok created ↦ ok created
        | err e ↦ elim (resolve_race_winner name (normalize_name lower name) s) [
          | none ↦ err e
          | some eid ↦ found eid description s
        ]
      ]

  -- An alias that another writer bound first wins.
  unfoldable pub alias_winner : String → ℕ → Store V → ℕ
  unfolding find_entity_by_alias
  alias_winner alias eid s = elim (find_entity_by_alias alias s) [
    | none ↦ eid
    | some winner ↦ winner
  ]

  unfoldable pub find_or_create_entity :
      Lowering
      → Vectors V
      → Option (String → V)
      → ℕ
      → String
      → String
      → String
      → Store V
      → Result (ℕ × Store V)
  unfolding find_entity_by_alias found find_similar_entity add_alias alias_winner create_or_resolve
  find_or_create_entity lower vectors embed threshold name entity_type description s =
      let alias = normalize_name lower name in
      elim (find_entity_by_alias alias s) [
        | some eid ↦ found eid description s
        | none ↦ elim embed [
          | none ↦ create_or_resolve lower vectors name entity_type description none s
          | some embedder ↦
              elim (find_similar_entity vectors (embedder name) (some entity_type) threshold s) [
                | none ↦
                    create_or_resolve lower vectors name entity_type description
                      (some (embedder name)) s
                | some eid ↦
                    found (alias_winner alias eid (add_alias alias eid s)) description
                      (add_alias alias eid s)
              ]
        ]
      ]

  -- `(id, canonical_name, type, description)`
  unfoldable pub get_entity : ℕ → Store V → Option (ℕ × String × String × String)
  get_entity entity_id s =
      Option.map (λ e. (e.id, e.canonical_name, e.entity_type, e.description))
        (first_where (is_entity entity_id) s.entities)

  -- The rows are in the order of their ids; `created_at` is left out.
  unfoldable pub list_entities : Store V → List (ℕ × String × String)
  list_entities s = map (λ e. (e.id, e.canonical_name, e.entity_type)) s.entities
