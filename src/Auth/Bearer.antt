-- ===== src/Auth/Bearer.antt =====
-- Access tokens are presented and revoked: `authenticateBearerToken`, the scope and role tests, and
-- the lists and revocations of tokens, src/services/auth-service.ts.
use keylore.Prelude.{
  String, not, Option, none, some, List, [], ◌∷◌, leb, if◌then◌else◌, any, filter, includes, map,
  ◌+++◌,
}
use keylore.Exec.{ok, Exec, ◌>>=◌, ◌>>◌, return, gets, demand, existing}
use keylore.Domain.{PrincipalRole, AuthContext, includes_role}
use keylore.Domain.Access.{tenant_allowed}
use keylore.Domain.Auth.{Grant, AccessToken, RefreshToken}
use keylore.World.{World, text, Outcome}
use keylore.World.Host.{Host, current_time}
use keylore.Audit.{record_event}
use keylore.Auth.Scopes.{is_active, is_empty, join, role_text, resources_differ}
use keylore.Auth.Tables.{TokenFilter}
use keylore.Auth.Tables.Access
use keylore.Auth.Tables.Refresh
use keylore.Auth.Statements.{
  on_access, on_refresh, answered, get_access_token, require_active_tenant,
}

-- `token && token.status === "active"`
abbrev pub live : Option AccessToken → Option AccessToken
live none = none
live (some t) = if is_active t.status then some t else none

abbrev pub context_of : Grant → AuthContext
context_of grant = record {
  principal = grant.subject;
  client_id = grant.client_id;
  tenant_id = some grant.tenant_id;
  roles = grant.roles;
  scopes = grant.scopes;
  resource = grant.resource;
}

module _ (host : Host) where
  -- The tests on a presented token.
  unfoldable pub check_bearer : String → Option String → Exec World AccessToken
  check_bearer token requested_resource = do
    found ← get_access_token (host.sha256_hex token)
    stored ← existing (live found) "Invalid access token."
    require_active_tenant stored.tenant_id
    now ← current_time
    demand (not (leb stored.expires_at now)) "Access token expired."
    demand (not (resources_differ stored.resource requested_resource))
        "Access token resource does not match this protected resource."
    return stored

  unfoldable pub touch_token : AccessToken → Exec World Unit
  touch_token stored w = (
    ok tt,
    record w {
      auth = record w.auth {
        access_tokens = Access.touch w.now stored.token_hash w.auth.access_tokens;
      };
    },
  )

  unfoldable pub authenticate_bearer_token : String → Option String → Exec World AuthContext
  authenticate_bearer_token token requested_resource = do
    stored ← check_bearer token requested_resource
    touch_token stored
    return (context_of stored.grant)

  unfoldable pub require_scopes : List String → List String → Exec World Unit
  require_scopes held required =
      let missing = filter (λ s. not (includes held s)) required in
      demand (is_empty missing) ("Missing required scopes: " +++ join ", " missing)

  unfoldable pub require_any_scope : List String → List String → Exec World Unit
  require_any_scope held allowed =
      demand (any (includes held) allowed)
        ("Missing one of the required scopes: " +++ join ", " allowed)

  unfoldable pub require_roles : List PrincipalRole → List PrincipalRole → Exec World Unit
  require_roles held required =
      demand (any (includes_role held) required)
        ("Missing required role. Need one of: " +++ join ", " (map role_text required))

  unfoldable pub list_tokens : TokenFilter → Exec World (List AccessToken)
  list_tokens f = gets (λ w. Access.list f w.auth.access_tokens)

  unfoldable pub list_refresh_tokens : TokenFilter → Exec World (List RefreshToken)
  list_refresh_tokens f = gets (λ w. Refresh.list f w.auth.refresh_tokens)

  abbrev audit_revoke : String → AuthContext → Grant → String → String → Exec World Unit
  audit_revoke action actor grant key id = record_event host (record {
    tenant_id = some grant.tenant_id;
    type = "auth.token";
    action = action;
    outcome = Outcome.success;
    principal = actor.principal;
    correlation_id = none;
    metadata =
        (key, text id)
        ∷ ("tenantId", text grant.tenant_id)
        ∷ ("clientId", text grant.client_id)
        ∷ ("subject", text grant.subject)
        ∷ [];
  })

  unfoldable pub audit_access : AuthContext → Option AccessToken → Exec World Unit
  audit_access actor none = return tt
  audit_access actor (some t) = audit_revoke "auth.token.revoke" actor t.grant "tokenId" t.token_id

  -- The row is revoked, and recorded if it was active.
  unfoldable pub revoke_access :
      AuthContext → String → Option AccessToken → Exec World (Option AccessToken)
  revoke_access actor id none = return none
  revoke_access actor id (some found) = do
    demand (tenant_allowed actor.tenant_id found.tenant_id) "Tenant access denied."
    revoked ← on_access (λ table. answered (Access.revoke_by_id id table))
    audit_access actor revoked
    return revoked

  unfoldable pub revoke_token : AuthContext → String → Exec World (Option AccessToken)
  revoke_token actor id = do
    found ← gets (λ w. Access.get_by_id id w.auth.access_tokens)
    revoke_access actor id found

  unfoldable pub audit_refresh : AuthContext → Option RefreshToken → Exec World Unit
  audit_refresh actor none = return tt
  audit_refresh actor (some t) =
      audit_revoke "auth.refresh.revoke" actor t.grant "refreshTokenId" t.refresh_token_id

  unfoldable pub revoke_refresh :
      AuthContext → String → Option RefreshToken → Exec World (Option RefreshToken)
  revoke_refresh actor id none = return none
  revoke_refresh actor id (some found) = do
    demand (tenant_allowed actor.tenant_id found.tenant_id) "Tenant access denied."
    revoked ← on_refresh (λ table. answered (Refresh.revoke_by_id id table))
    audit_refresh actor revoked
    return revoked

  unfoldable pub revoke_refresh_token : AuthContext → String → Exec World (Option RefreshToken)
  revoke_refresh_token actor id = do
    found ← gets (λ w. Refresh.get_by_id id w.auth.refresh_tokens)
    revoke_refresh actor id found
