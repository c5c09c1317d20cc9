-- ===== src/Retrieval.antt =====
-- core/store/retrieval.py: the traversal of the graph and the answer that is made of it.
pub mod Bfs
pub mod Visits
pub mod Reach
pub mod Depths
pub mod Knapsack
pub mod Render
pub mod Budget
pub mod Selection
pub mod Chunks
pub mod Spread
pub mod Terms
pub mod Anchors
pub mod Excerpt
pub mod Spans
pub mod Search
pub mod Score
pub mod Isolation
