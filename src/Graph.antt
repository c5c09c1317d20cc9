-- ===== src/Graph.antt =====
-- core/store/documents.py, entities.py, relations.py and core/normalize.py: the knowledge graph, its
-- evidence and its names. A write returns the new store beside its result.
pub mod Normalize
pub mod Tables
pub mod Documents
pub mod Entities
pub mod Relations
pub mod Aliases
pub mod Names
pub mod Versions
pub mod Assertion
pub mod Steps
pub mod Supersession
pub mod Complete
pub mod Bindings
