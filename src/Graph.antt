-- ===== src/Graph.antt =====
-- src/resgraph/graph/ingest.py: the hot store's write path. `Db` is the graph database behind it,
-- `Apply` the single-message path, `Batch` the batched one.
pub mod Db
pub mod Apply
pub mod View
pub mod Converge
pub mod Batch
mod Tests
