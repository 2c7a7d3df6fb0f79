-- ===== src/Triggers.antt =====
-- Inbound triggers (modules/workflows/triggers.service.ts).
pub mod Table
pub mod Fire
mod Tests
