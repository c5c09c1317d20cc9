-- ===== src/Consolidate.antt =====
-- core/consolidate.py: the plan of promotions, supersessions and decay for the memory units.
pub mod Claims
pub mod Validate
pub mod Detect
pub mod Plan
pub mod Loop
pub mod Successors
pub mod Targets
pub mod Apply
pub mod Once
