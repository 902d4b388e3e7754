-- ===== src/Auth/Tables.antt =====
-- The statements on clients, assertions and tenants (src/repositories/pg-auth-client-repository.ts,
-- pg-oauth-client-assertion-repository.ts, pg-tenant-repository.ts), and the filter of tokens.
pub mod Access
pub mod Refresh
pub mod Codes
use keylore.Prelude.{
  ℕ, String, Bool, true, false, not, Option, none, some, List, [], ◌∷◌, ◌++◌, map, ◌&&◌, ◌||◌, ◌==◌,
  leb, if◌then◌else◌, any, find, filter, update_first, sort_desc, count_if, truthy, or_else,
}
use keylore.Exec.{Result, ok, thrown}
use keylore.Domain.Auth.{
  TokenStatus, CodeStatus, StoredAuthClient, Grant, AccessToken, RefreshToken, AuthorizationCode,
  ClientAssertion, TenantRecord,
}
use keylore.Auth.Scopes.{is_active, is_usable}

-- `client_id` is the primary key.
unfoldable pub get_by_client_id : String → List StoredAuthClient → Option StoredAuthClient
get_by_client_id id table = find (λ c. c.client_id == id) table

unfoldable pub upsert : StoredAuthClient → List StoredAuthClient → List StoredAuthClient
upsert client table =
    if any (λ c. c.client_id == client.client_id) table
    then update_first (λ c. c.client_id == client.client_id) (λ _. client) table
    else table ++ client ∷ []

unfoldable pub tenant_by_id : String → List TenantRecord → Option TenantRecord
tenant_by_id id table = find (λ t. t.tenant_id == id) table

-- `client_id` and `jti` are the primary key.
unfoldable pub register : ClientAssertion → List ClientAssertion → Bool × List ClientAssertion
register a table =
    if any (λ b. b.client_id == a.client_id && b.jti == a.jti) table
    then (false, table)
    else (true, table ++ a ∷ [])

unfoldable pub cleanup_assertions : ℕ → List ClientAssertion → ℕ × List ClientAssertion
cleanup_assertions now table =
    (count_if (λ a. leb a.expires_at now) table, filter (λ a. not (leb a.expires_at now)) table)

pub record TokenFilter : Type 0 where
  pub client_id : Option String
  pub tenant_id : Option String
  pub status : Option TokenStatus

abbrev pub passes : TokenFilter → Grant → TokenStatus → Bool
passes f grant status =
    (not (truthy f.client_id) || grant.client_id == or_else f.client_id "")
    && (elim f.status [
      | none ↦ true
      | some TokenStatus.active ↦ is_active status
      | some TokenStatus.revoked ↦ not (is_active status)
    ])
    && (not (truthy f.tenant_id) || grant.tenant_id == or_else f.tenant_id "")
