-- ===== src/Triage.antt =====
-- core/triage.py: the heuristic gate, which decides which trace becomes a memory unit.
pub mod Shapes
pub mod Gate
pub mod Decision
