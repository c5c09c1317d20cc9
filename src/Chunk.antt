-- ===== src/Chunk.antt =====
-- core/chunking.py and core/tokens.py: the split of a document into sections, and of a long section
-- into parts under a token limit.
pub mod Tokens
pub mod Markdown
pub mod Split
pub mod Bounds
pub mod Titles
