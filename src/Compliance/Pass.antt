-- ===== src/Compliance/Pass.antt =====
-- The evaluation of the compliance policies on the devices: `runComplianceEvaluation` of
-- modules/compliance/compliance.service.ts.
pub mod Table
pub mod Breaker
pub mod Plan
pub mod Settle
pub mod Visit
pub mod Run
pub mod Evaluation
mod Tests
