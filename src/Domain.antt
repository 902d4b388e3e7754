-- ===== src/Domain.antt =====
-- The records of src/domain/types.ts that the modelled services read and write.
-- A timestamp is a number of milliseconds; an optional field is an `Option`.
pub mod Access
pub mod Reviews
pub mod Config
pub mod Auth
pub mod Rotation
use keylore.Prelude.{ℕ, String, Bool, true, false, Option, List, [], ◌∷◌, ◌||◌, eqb}

pub data ScopeTier : Type 0 where
  read_only read_write admin : ScopeTier

pub data Sensitivity : Type 0 where
  low moderate high critical : Sensitivity

pub data CredentialStatus : Type 0 where
  active disabled : CredentialStatus

pub data AuthType : Type 0 where
  bearer api_key : AuthType

pub data Operation : Type 0 where
  http_get http_post : Operation

-- The text of an operation in the JSON documents.
abbrev pub operation_text : Operation → String
operation_text http_get = "http.get"
operation_text http_post = "http.post"

pub data PrincipalRole : Type 0 where
  admin auth_admin operator maintenance_operator backup_operator : PrincipalRole
  breakglass_operator auditor approver consumer : PrincipalRole

abbrev pub role_index : PrincipalRole → ℕ
role_index PrincipalRole.admin = 0
role_index auth_admin = 1
role_index operator = 2
role_index maintenance_operator = 3
role_index backup_operator = 4
role_index breakglass_operator = 5
role_index auditor = 6
role_index approver = 7
role_index consumer = 8

-- `roles.includes(role)`
abbrev pub includes_role : List PrincipalRole → PrincipalRole → Bool
includes_role [] r = false
includes_role (q ∷ rs) r = eqb (role_index q) (role_index r) || includes_role rs r

pub data Adapter : Type 0 where
  local env vault onepassword aws_secrets_manager gcp_secret_manager : Adapter

pub record Binding : Type 0 where
  pub adapter : Adapter
  pub ref : String
  pub auth_type : AuthType
  pub header_name : String
  pub header_prefix : String
  pub injection_env_name : Option String

-- What a summary keeps of a credential: all but its binding.
pub record CredentialSummary : Type 0 where
  pub id : String
  pub tenant_id : String
  pub display_name : String
  pub service : String
  pub owner : String
  pub scope_tier : ScopeTier
  pub sensitivity : Sensitivity
  pub allowed_domains : List String
  pub permitted_operations : List Operation
  pub expires_at : Option ℕ
  pub rotation_policy : String
  pub last_validated_at : Option ℕ
  pub selection_notes : String
  pub user_context : Option String
  pub llm_context : Option String
  pub tags : List String
  pub status : CredentialStatus

pub record CredentialRecord : Type 0 where
  pub summary : CredentialSummary
  pub open summary use *
  pub binding : Binding

pub data Effect : Type 0 where
  allow deny approval : Effect

pub record PolicyRule : Type 0 where
  pub id : String
  pub tenant_id : String
  pub effect : Effect
  pub description : String
  pub principals : List String
  pub principal_roles : Option (List PrincipalRole)
  pub credential_ids : Option (List String)
  pub services : Option (List String)
  pub operations : List String
  pub domain_patterns : List String
  pub environments : Option (List String)

pub record AuthContext : Type 0 where
  pub principal : String
  pub client_id : String
  pub tenant_id : Option String
  pub roles : List PrincipalRole
  pub scopes : List String
  pub resource : Option String
