-- ===== src/Evals.antt =====
-- src/resgraph/evals: the gate in front of a merge.
pub mod Gate
mod Tests
