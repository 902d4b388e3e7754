-- ===== src/Domain/Access.antt =====
-- An access request and its decision (src/domain/types.ts), and the tenant test of the services.
use keylore.Prelude.{ℕ, String, Bool, true, Option, none, some, List, ◌||◌, ◌==◌}
use keylore.Domain.{Operation, CredentialSummary}

pub record AccessRequestInput : Type 0 where
  pub credential_id : String
  pub operation : Operation
  pub target_url : String
  pub headers : Option (List (String × String))
  pub payload : Option String
  pub approval_id : Option String
  pub break_glass_id : Option String
  pub dry_run : Option Bool

pub data AccessMode : Type 0 where
  live dry_run simulation : AccessMode

pub data AccessVerdict : Type 0 where
  allowed denied approval_required : AccessVerdict

pub record HttpResult : Type 0 where
  pub status : ℕ
  pub content_type : Option String
  pub body_preview : String
  pub body_truncated : Bool

pub record AccessDecision : Type 0 where
  pub decision : AccessVerdict
  pub mode : AccessMode
  pub reason : String
  pub correlation_id : String
  pub credential : Option CredentialSummary
  pub rule_id : Option String
  pub http_result : Option HttpResult
  pub approval_request_id : Option String

-- `!context.tenantId || context.tenantId === tenantId`; the empty text is falsy.
abbrev pub tenant_allowed : Option String → String → Bool
tenant_allowed none tenant_id = true
tenant_allowed (some own) tenant_id = own == "" || own == tenant_id
