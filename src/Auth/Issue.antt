-- ===== src/Auth/Issue.antt =====
-- Tokens are written: `issueAccessTokenRecord` and `issueRefreshTokenRecord` of
-- src/services/auth-service.ts.
use keylore.Prelude.{ℕ, ◌+◌, ◌*◌, String, Option, none, some, List, [], ◌∷◌, if◌then◌else◌, ◌+++◌}
use keylore.Exec.{Exec, ◌>>=◌, ◌>>◌, return}
use keylore.Domain.Auth.{GrantType, TokenStatus, StoredAuthClient, Grant, AccessToken, RefreshToken}
use keylore.Domain.Config.{KeyLoreConfig}
use keylore.World.{World, Json, text, number, texts, Outcome}
use keylore.World.Host.{Host, random_uuid, random_bytes, current_time}
use keylore.Audit.{record_event}
use keylore.Approvals.Service.{or_null}
use keylore.Auth.Scopes.{grant_text, is_enabled}
use keylore.Auth.Tables.Access
use keylore.Auth.Tables.Refresh
use keylore.Auth.Statements.{on_access, on_refresh}

-- `client && client.status === "active"`
abbrev pub enabled : Option StoredAuthClient → Option StoredAuthClient
enabled none = none
enabled (some c) = if is_enabled c.status then some c else none

module _ (host : Host) (config : KeyLoreConfig) where
  -- The audit record of a token or a code.
  abbrev pub audit_token : String → Grant → List (String × Json) → Exec World Unit
  audit_token action grant details = record_event host (record {
    tenant_id = some grant.tenant_id;
    type = "auth.token";
    action = action;
    outcome = Outcome.success;
    principal = grant.subject;
    correlation_id = none;
    metadata = ("clientId", text grant.client_id) ∷ ("tenantId", text grant.tenant_id) ∷ details;
  })

  abbrev pub grant_details : Grant → ℕ → List (String × Json)
  grant_details grant expires_at =
      ("scopes", texts grant.scopes)
      ∷ ("resource", or_null grant.resource)
      ∷ ("expiresAt", number expires_at)
      ∷ []

  abbrev pub new_access : String → String → Grant → ℕ → AccessToken
  new_access token_id token_hash grant now = record {
    token_id = token_id;
    token_hash = token_hash;
    grant = grant;
    expires_at = now + config.access_token_ttl_seconds * 1000;
    status = TokenStatus.active;
    created_at = now;
    last_used_at = none;
  }

  unfoldable pub issue_access_token_record : Grant → GrantType → Exec World String
  issue_access_token_record grant grant_type = do
    bytes ← random_bytes host
    now ← current_time
    token_id ← random_uuid host
    let token = "kl_" +++ bytes
    on_access (Access.issue (new_access token_id (host.sha256_hex token) grant now))
    audit_token "auth.token.issue" grant (
        ("scopes", texts grant.scopes)
        ∷ ("resource", or_null grant.resource)
        ∷ ("expiresAt", number (now + config.access_token_ttl_seconds * 1000))
        ∷ ("grantType", text (grant_text grant_type))
        ∷ [])
    return token

  abbrev pub new_refresh : String → String → Grant → ℕ → RefreshToken
  new_refresh refresh_token_id token_hash grant now = record {
    refresh_token_id = refresh_token_id;
    token_hash = token_hash;
    grant = grant;
    expires_at = now + config.refresh_token_ttl_seconds * 1000;
    status = TokenStatus.active;
    created_at = now;
    last_used_at = none;
    replaced_by_token_id = none;
  }

  unfoldable pub issue_refresh_token_record : Grant → Exec World String
  issue_refresh_token_record grant = do
    bytes ← random_bytes host
    now ← current_time
    refresh_token_id ← random_uuid host
    let token = "klr_" +++ bytes
    on_refresh (Refresh.issue (new_refresh refresh_token_id (host.sha256_hex token) grant now))
    audit_token "auth.refresh.issue" grant
        (grant_details grant (now + config.refresh_token_ttl_seconds * 1000))
    return token
