-- ===== src/Approvals.antt =====
-- Approval requests: the table of src/repositories/pg-approval-repository.ts and the service of
-- src/services/approval-service.ts.
pub mod Table
pub mod Service
pub mod Invariant
pub mod History
pub mod Lifecycle
pub mod Grants
pub mod Origin
mod Tests
