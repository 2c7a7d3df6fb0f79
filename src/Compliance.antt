-- ===== src/Compliance.antt =====
-- Parts of the compliance evaluation: the order of versions and the verdict of a policy
-- (modules/compliance/complianceEvaluate.ts), and the devices that geofencing follows
-- (modules/geofencing/geofence.service.ts).
pub mod Versions
pub mod Policy
pub mod Scope
pub mod Alert
pub mod Pass
pub mod Review
pub mod Payload
pub mod Manage
pub mod Forced
pub mod Markers
pub mod Scheduler
mod Tests
