-- ===== src/Cases.antt =====
-- Case management: backend/src/modules/cases.
pub mod Table
pub mod Update
pub mod Violation
pub mod Sla
pub mod AutoRun
pub mod Create
mod Tests
