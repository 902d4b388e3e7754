-- ===== src/BreakGlass.antt =====
-- Break-glass requests: the table of src/repositories/pg-break-glass-repository.ts and the service
-- of src/services/break-glass-service.ts.
pub mod Table
pub mod Invariant
pub mod Lifecycle
pub mod Service
pub mod History
pub mod Grants
pub mod Origin
mod Tests
