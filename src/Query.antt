-- ===== src/Query.antt =====
-- Queries: the commands (src/query/ast.rs), the planner (planner.rs), the results (result.rs), the port
-- that executors use (src/ports/query_context.rs) and the executor (executor.rs).
pub mod Ast
pub mod Planner
pub mod Context
pub mod Executor
