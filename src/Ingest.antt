-- ===== src/Ingest.antt =====
-- src/resgraph/ingest: raw-first ingest.
pub mod Queue
pub mod Pipeline
mod Tests
