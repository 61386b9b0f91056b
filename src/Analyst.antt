-- ===== src/Analyst.antt =====
-- src/resgraph/analyst: what an approved remediation does.
pub mod Steps
pub mod Executor
pub mod Remediate
pub mod Approval
pub mod Audit
mod Tests
