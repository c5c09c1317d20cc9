-- ===== src/Store/Units.antt =====
-- core/store/memory_units.py: the memory units with their labels, sources and status log, and the
-- triage decisions. A write returns the new store beside its result, or the error that it raises.
mod Tables
mod Create
mod Moves
mod Sources
pub mod Log
pub mod Batch
pub mod Restore
pub mod Cover
pub mod Dedup
pub mod Confidence
pub mod Formed
pub use Tables.{
  UnitRow, SourceRow, LogRow, Session, Store, Error, Result, ok, err, ◌>>=◌, Hashing, has_unit_id,
  unit_at, status_at, log_entry,
}
unfoldable pub use Create.{
  validate_labels, validate_sources, validate_memory_unit, covers, covering_unit, later_id,
  find_unit_covering_sources, memory_unit_content_hash, has_key, insert_unit, insert_row,
  lookup_unit_id, insert_labels, same_source, source_row, insert_source, insert_sources,
  create_memory_unit, fill_unit, create_fresh,
}
pub use Moves.{Transition}
unfoldable pub use Moves.{
  target_exists, move_unit, apply_status, write_transition, transition_memory_unit,
  validate_transition, apply_one, apply_each, transition_memory_units_atomically, last_archived,
  prior_status, restore_memory_unit, rollback,
}
unfoldable pub use Sources.{
  session_key, keys_of, strengthen, credit, attach_source, crystal_confidence_cap,
  crystal_confidence_increment, session_of, trace_session_key, before_marker, source_key,
  independent_source_keys, insert_key, count_independent_sources, evolved_confidence, gained_keys,
  attach_memory_unit_source, mark_memory_units_recalled, recall, member_id,
}
