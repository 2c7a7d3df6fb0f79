-- ===== src/Access.antt =====
-- Who may do what (middleware/rbac.middleware.ts and modules/auth/rbac.service.ts): the decision on a
-- collaborator's role, the cache that holds it, and the guard that reads the cache.
pub mod Guard
pub mod Collaborator
pub mod Resolve
mod Tests
