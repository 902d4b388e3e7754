-- ===== src/Domain/Auth.antt =====
-- Clients, tokens, codes and tenants of the authorization server (src/domain/types.ts and the rows of
-- src/repositories/interfaces.ts).
use keylore.Prelude.{ℕ, String, Option, List}
use keylore.Domain.{PrincipalRole}

pub data ClientStatus : Type 0 where
  active disabled : ClientStatus

pub data AuthMethod : Type 0 where
  client_secret_basic client_secret_post private_key_jwt none : AuthMethod

pub data GrantType : Type 0 where
  client_credentials authorization_code refresh_token : GrantType

pub data TenantStatus : Type 0 where
  active disabled : TenantStatus

pub data TokenStatus : Type 0 where
  active revoked : TokenStatus

pub data CodeStatus : Type 0 where
  active consumed revoked : CodeStatus

-- A public JSON web key: its `kid`, and its whole text.
pub record Jwk : Type 0 where
  pub kid : Option String
  pub key : String

pub record AuthClientRecord : Type 0 where
  pub client_id : String
  pub tenant_id : String
  pub display_name : String
  pub roles : List PrincipalRole
  pub allowed_scopes : List String
  pub status : ClientStatus
  pub token_endpoint_auth_method : AuthMethod
  pub grant_types : List GrantType
  pub redirect_uris : List String
  pub jwks : List Jwk

pub record StoredAuthClient : Type 0 where
  pub client : AuthClientRecord
  pub open client use *
  pub secret_hash : Option String
  pub secret_salt : Option String

-- What a token or a code grants, and to whom.
pub record Grant : Type 0 where
  pub client_id : String
  pub tenant_id : String
  pub subject : String
  pub scopes : List String
  pub roles : List PrincipalRole
  pub resource : Option String

pub record AccessToken : Type 0 where
  pub token_id : String
  pub token_hash : String
  pub grant : Grant
  pub open grant use *
  pub expires_at : ℕ
  pub status : TokenStatus
  pub created_at : ℕ
  pub last_used_at : Option ℕ

pub record RefreshToken : Type 0 where
  pub refresh_token_id : String
  pub token_hash : String
  pub grant : Grant
  pub open grant use *
  pub expires_at : ℕ
  pub status : TokenStatus
  pub created_at : ℕ
  pub last_used_at : Option ℕ
  pub replaced_by_token_id : Option String

pub record AuthorizationCode : Type 0 where
  pub code_id : String
  pub code_hash : String
  pub grant : Grant
  pub open grant use *
  pub redirect_uri : String
  pub code_challenge : String
  pub expires_at : ℕ
  pub status : CodeStatus
  pub created_at : ℕ
  pub consumed_at : Option ℕ

pub record ClientAssertion : Type 0 where
  pub client_id : String
  pub jti : String
  pub expires_at : ℕ

pub record TenantRecord : Type 0 where
  pub tenant_id : String
  pub display_name : String
  pub description : Option String
  pub status : TenantStatus
  pub created_at : ℕ
  pub updated_at : ℕ

-- The tables of the authorization server.
pub record AuthTables : Type 0 where
  pub clients : List StoredAuthClient
  pub access_tokens : List AccessToken
  pub refresh_tokens : List RefreshToken
  pub codes : List AuthorizationCode
  pub assertions : List ClientAssertion
  pub tenants : List TenantRecord

pub record TokenIssueInput : Type 0 where
  pub client_id : String
  pub client_secret : Option String
  pub grant_type : GrantType
  pub scope : Option (List String)
  pub resource : Option String
  pub code : Option String
  pub code_verifier : Option String
  pub redirect_uri : Option String
  pub refresh_token : Option String
  pub client_assertion_type : Option String
  pub client_assertion : Option String

pub record TokenIssueOutput : Type 0 where
  pub access_token : String
  pub refresh_token : Option String
  pub expires_in : ℕ
  pub scope : String

pub record AuthorizationInput : Type 0 where
  pub client_id : String
  pub redirect_uri : String
  pub scope : Option (List String)
  pub resource : Option String
  pub code_challenge : String
  pub state : Option String

pub record AuthorizationOutput : Type 0 where
  pub code : String
  pub client_id : String
  pub tenant_id : String
  pub subject : String
  pub redirect_uri : String
  pub expires_in : ℕ
  pub scope : String
  pub state : Option String

-- A missing array of keys is the empty one.
pub record ClientCreateInput : Type 0 where
  pub record_of : AuthClientRecord
  pub open record_of use *
  pub client_secret : Option String

pub record ClientUpdateInput : Type 0 where
  pub display_name : Option String
  pub roles : Option (List PrincipalRole)
  pub allowed_scopes : Option (List String)
  pub status : Option ClientStatus
  pub token_endpoint_auth_method : Option AuthMethod
  pub grant_types : Option (List GrantType)
  pub redirect_uris : Option (List String)
  pub jwks : Option (List Jwk)

pub record ClientSecretOutput : Type 0 where
  pub client : AuthClientRecord
  pub client_secret : Option String

-- `aud` of a client assertion: missing, one text, or several.
pub data Audience : Type 0 where
  missing : Audience
  one : String → Audience
  several : List String → Audience

-- The header and the claims of a client assertion, as parsed from JSON.
pub record JwtHeader : Type 0 where
  pub alg : Option String
  pub kid : Option String

pub record JwtClaims : Type 0 where
  pub iss : Option String
  pub sub : Option String
  pub aud : Audience
  pub exp : Option ℕ
  pub iat : Option ℕ
  pub nbf : Option ℕ
  pub jti : Option String
