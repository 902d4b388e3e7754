-- ===== src/Auth.antt =====
-- The authorization server: src/services/auth-service.ts, src/services/auth-secrets.ts and the
-- repositories of its tables.
pub mod Scopes
pub mod Tables
pub mod Statements
pub mod Assertion
pub mod Within
pub mod Issue
pub mod Authorize
pub mod Exchange
pub mod Bearer
pub mod Clients
pub mod History
pub mod Presentation
pub mod Redemption
pub mod Revocation
mod Tests
