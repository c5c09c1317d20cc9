-- ===== src/Store.antt =====
-- core/store: the tables of the SQLite store and the operations on them.
pub mod Meta
pub mod Leases
pub mod Queue
pub mod Units
pub mod Traces
pub mod Lifecycle
