-- ===== src/Tools.antt =====
-- src/resgraph/tools: the budgets of what a tool answers.
pub mod Budgets
mod Tests
