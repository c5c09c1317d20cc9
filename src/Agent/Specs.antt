-- ===== src/Agent/Specs.antt =====
-- The names that `ingest_extracted` collects from a graph.
use membox.Base.{String, Bool, ◌||◌, List, [], ◌∷◌, arith, any_of, str_eq, eq_iff, ◌≡◌, refl}
use membox.Agent.{
  ExtractedEntity, ExtractedRelation, ExtractedGraph, put_spec, default_spec, specs_of_entities,
  specs_of_relations, entity_specs,
}

abbrev pub is_named : String → ExtractedEntity → Bool
is_named name e = str_eq e.name name

abbrev is_end : String → ExtractedRelation → Bool
is_end name r = str_eq r.source name || str_eq r.target name

-- A name of the graph: that of an entity, or an end of a relation.
abbrev pub is_name_of : ExtractedGraph → String → Bool
is_name_of graph name =
    any_of (is_named name) graph.entities || any_of (is_end name) graph.relations

module _ (name : String) where
  put_spec-named :
      (e : ExtractedEntity) (specs : List ExtractedEntity)
      → any_of (is_named name) (put_spec e specs)
        ≡ (is_named name e || any_of (is_named name) specs)
  unfolding put_spec
  put_spec-named e [] = ground arith
  put_spec-named e (spec ∷ specs) = ground (arith, eq_iff spec.name e.name, put_spec-named e specs)

  default_spec-named :
      (other : String) (specs : List ExtractedEntity)
      → any_of (is_named name) (default_spec other specs)
        ≡ (str_eq other name || any_of (is_named name) specs)
  unfolding default_spec
  default_spec-named other [] = ground arith
  default_spec-named other (spec ∷ specs) =
      ground (arith, eq_iff spec.name other, default_spec-named other specs)

  specs_of_entities-named :
      (entities specs : List ExtractedEntity)
      → any_of (is_named name) (specs_of_entities entities specs)
        ≡ (any_of (is_named name) entities || any_of (is_named name) specs)
  unfolding specs_of_entities
  specs_of_entities-named [] specs = refl
  specs_of_entities-named (e ∷ entities) specs =
      ground (arith, put_spec-named e specs, specs_of_entities-named entities (put_spec e specs))

  specs_of_relations-named :
      (relations : List ExtractedRelation) (specs : List ExtractedEntity)
      → any_of (is_named name) (specs_of_relations relations specs)
        ≡ (any_of (is_end name) relations || any_of (is_named name) specs)
  unfolding specs_of_relations
  specs_of_relations-named [] specs = refl
  specs_of_relations-named (r ∷ relations) specs = ground (
    arith,
    default_spec-named r.source specs,
    default_spec-named r.target (default_spec r.source specs),
    specs_of_relations-named relations (default_spec r.target (default_spec r.source specs)),
  )

  pub entity_specs-named :
      (graph : ExtractedGraph) → any_of (is_named name) (entity_specs graph) ≡ is_name_of graph name
  unfolding entity_specs
  entity_specs-named graph = ground (
    arith,
    specs_of_entities-named graph.entities [],
    specs_of_relations-named graph.relations (specs_of_entities graph.entities []),
  )
