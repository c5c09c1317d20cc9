-- ===== src/Worker.antt =====
-- core/worker.py: the drain loop of the ingestion worker. The agent that ingests one item is a
-- parameter: it may change its own world, of which the rest of the database is a part, and raise.
-- KeyboardInterrupt is the one exception that leaves the loop.
mod Drain
pub mod Rounds
pub mod Termination
pub mod Interrupt
pub use Drain.{
  Chunks, Ingested, results, raised, interrupted, Agent, Identity, Progress, Outcome, drained,
  keyboard_interrupt,
}
unfoldable pub use Drain.{
  at, chunk_errors, settle, settle_results, step, drain_loop, drain_queue, begin, end_drain, retry,
}
