-- ===== src/Domain/Reviews.antt =====
-- Reviews, approval requests and break-glass requests (src/domain/types.ts).
use keylore.Prelude.{ℕ, String, Option, List}
use keylore.Domain.{Operation, PrincipalRole}

pub data ReviewDecision : Type 0 where
  approved denied : ReviewDecision

pub record Review : Type 0 where
  pub review_id : String
  pub reviewed_at : ℕ
  pub reviewed_by : String
  pub decision : ReviewDecision
  pub note : Option String

pub data ApprovalStatus : Type 0 where
  pending approved denied expired : ApprovalStatus

pub record ApprovalRequest : Type 0 where
  pub id : String
  pub tenant_id : String
  pub created_at : ℕ
  pub expires_at : ℕ
  pub status : ApprovalStatus
  pub requested_by : String
  pub requested_roles : List PrincipalRole
  pub credential_id : String
  pub operation : Operation
  pub target_url : String
  pub target_host : String
  pub reason : String
  pub rule_id : Option String
  pub correlation_id : String
  pub fingerprint : String
  pub required_approvals : ℕ
  pub approval_count : ℕ
  pub denial_count : ℕ
  pub reviews : List Review
  pub reviewed_by : Option String
  pub reviewed_at : Option ℕ
  pub review_note : Option String

pub data BreakGlassStatus : Type 0 where
  pending active denied expired revoked : BreakGlassStatus

pub record BreakGlassRequest : Type 0 where
  pub id : String
  pub tenant_id : String
  pub created_at : ℕ
  pub expires_at : ℕ
  pub status : BreakGlassStatus
  pub requested_by : String
  pub requested_roles : List PrincipalRole
  pub credential_id : String
  pub operation : Operation
  pub target_url : String
  pub target_host : String
  pub justification : String
  pub requested_duration_seconds : ℕ
  pub correlation_id : String
  pub fingerprint : String
  pub required_approvals : ℕ
  pub approval_count : ℕ
  pub denial_count : ℕ
  pub reviews : List Review
  pub reviewed_by : Option String
  pub reviewed_at : Option ℕ
  pub review_note : Option String
  pub revoked_by : Option String
  pub revoked_at : Option ℕ
  pub revoke_note : Option String

pub record BreakGlassInput : Type 0 where
  pub credential_id : String
  pub operation : Operation
  pub target_url : String
  pub justification : String
  pub requested_duration_seconds : Option ℕ
