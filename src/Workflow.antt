-- ===== src/Workflow.antt =====
-- The durable workflow engine: backend/src/modules/workflows/durableEngine.ts.
pub mod Store
pub mod Steps
pub mod Chain
pub mod Resume
pub mod Run
mod Tests
