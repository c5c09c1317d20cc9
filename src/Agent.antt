-- ===== src/Agent.antt =====
-- core/agent.py: the ingestion of an extracted graph. It is the client of Graph, one operation of the
-- store after the other; an error leaves what was written before it.
pub mod Query
pub mod Specs
pub mod Ingestion
use membox.Base.{
  ℕ, ◌+◌, String, Bool, true, false, Option, none, some, List, [], ◌∷◌, ◌++◌, if◌then◌else◌, length,
  str_eq, first_where,
}
use membox.Base.Text.{Lowering, concat}
use membox.Graph.Normalize.{normalize_predicate}
use membox.Graph.Tables.{Entity, Store, Vectors, Error, foreign_key, Result, ok, err, is_entity}
use membox.Graph.Documents.{insert_document}
use membox.Graph.Entities.{find_or_create_entity}
use membox.Graph.Relations.{upsert_relation}

pub record ExtractedEntity : Type 0 where
  pub name : String
  pub entity_type : String
  pub description : String

pub record ExtractedRelation : Type 0 where
  pub source : String
  pub target : String
  pub predicate : String

pub record ExtractedGraph : Type 0 where
  pub entities : List ExtractedEntity
  pub relations : List ExtractedRelation

-- The items of `entity_specs`: a later entity of a name replaces the value, not the place.
unfoldable pub put_spec : ExtractedEntity → List ExtractedEntity → List ExtractedEntity
put_spec e [] = e ∷ []
put_spec e (spec ∷ specs) =
    let rest = put_spec e specs in if str_eq spec.name e.name then e ∷ specs else spec ∷ rest

-- `entity_specs.setdefault(name, ("Unknown", ""))`
unfoldable pub default_spec : String → List ExtractedEntity → List ExtractedEntity
default_spec name [] = record { name = name; entity_type = "Unknown"; description = "" } ∷ []
default_spec name (spec ∷ specs) =
    let rest = default_spec name specs in
    if str_eq spec.name name then spec ∷ specs else spec ∷ rest

unfoldable pub specs_of_entities :
    List ExtractedEntity → List ExtractedEntity → List ExtractedEntity
unfolding put_spec
specs_of_entities [] specs = specs
specs_of_entities (e ∷ entities) specs = specs_of_entities entities (put_spec e specs)

unfoldable pub specs_of_relations :
    List ExtractedRelation → List ExtractedEntity → List ExtractedEntity
unfolding default_spec
specs_of_relations [] specs = specs
specs_of_relations (r ∷ relations) specs =
    specs_of_relations relations (default_spec r.target (default_spec r.source specs))

unfoldable pub entity_specs : ExtractedGraph → List ExtractedEntity
unfolding specs_of_entities specs_of_relations
entity_specs graph = specs_of_relations graph.relations (specs_of_entities graph.entities [])

-- `name_to_id`, whose keys are the names of the specs.
abbrev pub Names : Type 0
Names = List (String × ℕ)

abbrev pub id_of : Names → String → Option ℕ
id_of names name = elim (first_where (λ item. str_eq item.0 name) names) [
  | none ↦ none
  | some item ↦ some item.1
]

module _ {V : Type 0} (lower : Lowering) (vectors : Vectors V) (embed : Option (String → V))
    (threshold : ℕ) where
  -- The loop over the specs: the ids of the names, or the error that ends it, and the store.
  unfoldable pub resolve_entities : List ExtractedEntity → Names → Store V → Result Names × Store V
  unfolding find_or_create_entity
  resolve_entities [] names s = (ok names, s)
  resolve_entities (e ∷ specs) names s =
      elim (find_or_create_entity lower vectors embed threshold e.name e.entity_type e.description
        s) [
          | err x ↦ (err x, s)
          | ok (eid, s') ↦ resolve_entities specs (names ++ (e.name, eid) ∷ []) s'
        ]

  -- `src_row[1] if src_row else rel.source`
  abbrev pub shown_name : ℕ → String → Store V → String
  shown_name eid name s = elim (first_where (is_entity eid) s.entities) [
    | none ↦ name
    | some e ↦ e.canonical_name
  ]

  unfoldable pub triple_text : ℕ → ℕ → ExtractedRelation → Store V → String
  unfolding normalize_predicate
  triple_text sid tid rel s = concat (
      shown_name sid rel.source s
      ∷ " "
      ∷ normalize_predicate lower rel.predicate
      ∷ " "
      ∷ shown_name tid rel.target s
      ∷ [])

  abbrev pub embedding_of : String → Option V
  embedding_of text = elim embed [ none ↦ none | some embedder ↦ some (embedder text) ]

  -- The loop over the relations. Their writes change no entity, so that the text of a triple is what it
  -- was before the loop. Every name has an id.
  unfoldable pub assert_relations :
      List ExtractedRelation → Names → ℕ → ℕ → Store V → Result ℕ × Store V
  unfolding triple_text upsert_relation normalize_predicate
  assert_relations [] names doc_id count s = (ok count, s)
  assert_relations (rel ∷ relations) names doc_id count s = elim (id_of names rel.source) [
    | none ↦ (err foreign_key, s)
    | some sid ↦ elim (id_of names rel.target) [
      | none ↦ (err foreign_key, s)
      | some tid ↦
          elim (upsert_relation vectors sid tid (normalize_predicate lower rel.predicate) doc_id
            (embedding_of (triple_text sid tid rel s)) s) [
              | err x ↦ (err x, s)
              | ok (rid, s') ↦ assert_relations relations names doc_id (count + 1) s'
            ]
    ]
  ]

  -- `{"doc_id", "entities", "relations"}`
  unfoldable pub assert_graph :
      ExtractedGraph → ℕ → Result Names × Store V → Result (ℕ × ℕ × ℕ) × Store V
  unfolding assert_relations
  assert_graph graph doc_id (err x, s) = (err x, s)
  assert_graph graph doc_id (ok names, s) =
      let asserted = assert_relations graph.relations names doc_id 0 s in
      (
        (elim asserted.0 [ err x ↦ err x | ok count ↦ ok (doc_id, length graph.entities, count) ]),
        asserted.1,
      )

  unfoldable pub ingest_extracted :
      String
      → ExtractedGraph
      → String
      → Option String
      → Option String
      → Option String
      → Option String
      → Store V
      → Result (ℕ × ℕ × ℕ) × Store V
  unfolding insert_document resolve_entities entity_specs assert_graph
  ingest_extracted text graph source project source_path section doc_date s =
      let inserted = insert_document text source project source_path section doc_date none s in
      assert_graph graph inserted.0 (resolve_entities (entity_specs graph) [] inserted.1)
