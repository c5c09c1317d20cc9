-- ===== src/Tests.antt =====
-- The theorems at concrete stores, and the operations on small inputs.
mod QueueTests
mod LeaseTests
mod WorkerTests
mod UnitTests
mod SourceTests
mod PlanTests
mod GateTests
mod ChunkTests
mod GraphTests
mod RetrievalTests
mod TraceTests
