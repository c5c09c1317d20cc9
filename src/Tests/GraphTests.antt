-- ===== src/Tests/GraphTests.antt =====
-- The graph: a name in two spellings, and one claim that a newer version of a document replaces.

use membox.Base.{ℕ, ◌≡◌, refl, String, true, ◌&&◌, none, some, [], ◌∷◌}
use membox.Base.Text.{
  Lowering, strip, lstrip, rstrip, is_space, is_empty, split, split_from, join, text_length,
}
use membox.Graph.Normalize.{normalize_name}
use membox.Graph.Tables.{Document, Entity, Alias, Store, Vectors, ok, blob_of}
use membox.Graph.Entities.{
  find_or_create_entity, find_entity_by_alias, found, update_entity_description, longer_description,
}
use membox.Graph.Relations.{
  upsert_relation, add_relation, link_evidence, set_embedding, add_evidence, supersede_older,
  mark_superseded, is_superseded_sibling, has_older_evidence, older_document,
}
use membox.Graph.Documents.{insert_document}
use membox.Agent.{ExtractedGraph, entity_specs, resolve_entities}
use membox.Agent.Specs.{is_name_of}
use membox.Agent.Ingestion.{resolved, ingest_extracted-resolves}
use membox.Graph.Names.{
  well_named, binds, resolves, find_or_create_entity-binds, find_or_create_entity-again,
}
use membox.Graph.Assertion.{asserts, upsert_relation-asserts}
use membox.Graph.Steps.{carries, superseded_as}
use membox.Graph.Supersession.{upsert_relation-keeps}
use membox.Graph.Complete.{none_left, upsert_relation-none_left}

-- A table that folds nothing.
abbrev plain : Lowering
plain = λ s. s

abbrev vectors : Vectors ℕ
vectors = record { dimension = λ v. 1; cosine = λ v w. 50 }

abbrev document_of : ℕ → ℕ → Document
document_of i version = record {
  id = i;
  content = "notes";
  source = "notes.md";
  project = none;
  source_path = some "notes.md";
  section = none;
  doc_date = none;
  version = some version;
}

abbrev entity : ℕ → String → Entity ℕ
entity i name = record {
  id = i;
  canonical_name = name;
  entity_type = "tool";
  description = "";
  embedding = none;
}

abbrev alias_row : ℕ → String → Alias
alias_row i name = record { alias = name; entity_id = i }

-- Version 1 of the notes says that membox uses sqlite.
abbrev notes : Store ℕ
notes = record {
  documents = document_of 1 1 ∷ document_of 2 2 ∷ document_of 3 3 ∷ [];
  next_document = 4;
  entities = entity 1 "membox" ∷ entity 2 "sqlite" ∷ entity 3 "duckdb" ∷ [];
  next_entity = 4;
  entity_aliases = alias_row 1 "membox" ∷ alias_row 2 "sqlite" ∷ alias_row 3 "duckdb" ∷ [];
  relations =
      record {
        id = 1;
        source_id = 1;
        target_id = 2;
        predicate = "uses";
        embedding = none;
        superseded_by = none;
      }
      ∷ [];
  next_relation = 2;
  relation_evidence = record { relation_id = 1; doc_id = 1 } ∷ [];
}

named : well_named plain notes ≡ true
unfolding normalize_name strip lstrip rstrip is_space is_empty split split_from join
named = refl

find_or_create_entity-binds_example :
    binds plain "FTS5" (find_or_create_entity plain vectors none 85 "FTS5" "tool" "" notes) ≡ true
find_or_create_entity-binds_example =
    find_or_create_entity-binds plain vectors 85 "FTS5" "tool" "" notes none named

-- "sqlite" is the second entity.
abbrev described : Store ℕ
described = record notes {
  entities =
      entity 1 "membox"
      ∷ record (entity 2 "sqlite") { description = "a database" }
      ∷ entity 3 "duckdb"
      ∷ [];
}

sqlite_found :
    find_or_create_entity plain vectors none 85 "sqlite" "tool" "a database" notes
    ≡ ok (2, described)
unfolding find_or_create_entity find_entity_by_alias found update_entity_description
    longer_description normalize_name strip lstrip rstrip is_space is_empty split split_from join
    text_length
sqlite_found = refl

find_or_create_entity-again_example :
    resolves plain 2 3
      (find_or_create_entity plain vectors (some (λ t. 7)) 90 "sqlite" "store" "" described)
    ≡ true
find_or_create_entity-again_example =
    find_or_create_entity-again plain vectors vectors 85 90 "sqlite" "tool" "store" "a database" ""
      none (some (λ t. 7)) notes named sqlite_found

upsert_relation-asserts_example :
    asserts 1 3 "uses" 2 (upsert_relation vectors 1 3 "uses" 2 none notes) ≡ true
upsert_relation-asserts_example = upsert_relation-asserts 1 3 "uses" 2 vectors none notes refl

upsert_relation-none_left_example :
    carries (none_left 1 3 "uses" 2) (upsert_relation vectors 1 3 "uses" 2 none notes) ≡ true
upsert_relation-none_left_example = upsert_relation-none_left 1 3 "uses" 2 vectors none notes

-- Version 2 says duckdb: the first relation is superseded by the second.
abbrev superseded : Store ℕ
superseded = record notes {
  relations =
      record {
        id = 1;
        source_id = 1;
        target_id = 2;
        predicate = "uses";
        embedding = none;
        superseded_by = some 2;
      }
      ∷ record {
        id = 2;
        source_id = 1;
        target_id = 3;
        predicate = "uses";
        embedding = none;
        superseded_by = none;
      }
      ∷ [];
  next_relation = 3;
  relation_evidence =
      record { relation_id = 1; doc_id = 1 } ∷ record { relation_id = 2; doc_id = 2 } ∷ [];
}

second_version : upsert_relation vectors 1 3 "uses" 2 none notes ≡ ok (2, superseded)
unfolding upsert_relation add_relation link_evidence set_embedding add_evidence supersede_older
    mark_superseded is_superseded_sibling has_older_evidence older_document blob_of
second_version = refl

-- Version 3 says sqlite again: its relation stays superseded, and so is now the other.
upsert_relation-keeps_example :
    carries
      (λ rid s'. superseded_as 1 2 s'.relations)
      (upsert_relation vectors 1 2 "uses" 3 none superseded)
    ≡ true
upsert_relation-keeps_example = upsert_relation-keeps 1 2 "uses" 3 1 2 vectors none superseded refl

third_version :
    carries
      (λ rid s'. superseded_as 1 2 s'.relations && superseded_as 2 1 s'.relations)
      (upsert_relation vectors 1 2 "uses" 3 none superseded)
    ≡ true
unfolding upsert_relation add_relation link_evidence set_embedding add_evidence supersede_older
    mark_superseded is_superseded_sibling has_older_evidence older_document blob_of
third_version = refl

-- A graph with a name that only a relation has.
abbrev graph : ExtractedGraph
graph = record {
  entities = record { name = "membox"; entity_type = "tool"; description = "" } ∷ [];
  relations = record { source = "membox"; target = "fts5"; predicate = "uses" } ∷ [];
}

ingest_extracted-resolves_example :
    resolved plain vectors none 85 (is_name_of graph "fts5") "fts5" (
      resolve_entities plain vectors none 85
        (entity_specs graph)
        []
        (insert_document "text" "cli" none none none none none notes).1)
    ≡ true
ingest_extracted-resolves_example =
    ingest_extracted-resolves plain vectors none 85 "text" "cli" none none none none graph notes
      "fts5" named

fts5_is_named : is_name_of graph "fts5" ≡ true
fts5_is_named = refl
