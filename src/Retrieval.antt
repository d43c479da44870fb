-- ===== src/Retrieval.antt =====
-- backend/app/services/retrieval.py: the passages that answer a query.
pub mod Ranking
pub mod Terms
pub mod Snippets
pub mod Search
mod Tests
