-- ===== src/Rotation.antt =====
-- Rotation runs: the table of src/repositories/pg-rotation-run-repository.ts and the service of
-- src/services/rotation-service.ts.
pub mod Table
pub mod Credentials
pub mod Service
pub mod Plan
pub mod Lifecycle
pub mod OneOpen
pub mod Methods
pub mod History
pub mod Settled
mod Tests
