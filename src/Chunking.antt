-- ===== src/Chunking.antt =====
-- backend/app/services/chunking/__init__.py: from parsed blocks to retrievable chunks.
pub mod Blocks
pub mod Separators
pub mod Packing
pub mod Oversized
pub mod Splitter
pub mod Whitespace
