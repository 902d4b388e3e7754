-- ===== src/Auth/Authorize.antt =====
-- Authorization codes are given out: `authorize` of src/services/auth-service.ts.
use keylore.Prelude.{
  ℕ, ◌+◌, ◌*◌, String, not, Option, none, some, ◌∷◌, ◌&&◌, filter, includes, ◌+++◌,
}
use keylore.Exec.{Exec, ◌>>=◌, ◌>>◌, return, demand, existing}
use keylore.Domain.{AuthContext, includes_role}
use keylore.Domain.Access.{tenant_allowed}
use keylore.Domain.Auth.{
  authorization_code, CodeStatus, StoredAuthClient, Grant, AuthorizationCode, AuthorizationInput,
  AuthorizationOutput,
}
use keylore.Domain.Config.{KeyLoreConfig}
use keylore.World.{World, text}
use keylore.World.Host.{Host, random_uuid, random_bytes, current_time}
use keylore.Auth.Scopes.{
  includes_grant, unique_roles, join, is_empty, requested_or, unique_scopes, resources_differ,
}
use keylore.Auth.Tables.Codes
use keylore.Auth.Statements.{on_codes, get_client, require_active_tenant}
use keylore.Auth.Issue.{enabled, audit_token, grant_details}

-- `first ?? second`
abbrev or_other : Option String → Option String → Option String
or_other none second = second
or_other (some s) second = some s

module _ (host : Host) (config : KeyLoreConfig) where
  abbrev pub new_code : String → String → Grant → AuthorizationInput → ℕ → AuthorizationCode
  new_code code_id code_hash grant input now = record {
    code_id = code_id;
    code_hash = code_hash;
    grant = grant;
    redirect_uri = input.redirect_uri;
    code_challenge = input.code_challenge;
    expires_at = now + config.authorization_code_ttl_seconds * 1000;
    status = CodeStatus.active;
    created_at = now;
    consumed_at = none;
  }

  -- What `authorize` grants, before the tests that something is granted.
  abbrev pub authorized_grant : AuthContext → StoredAuthClient → AuthorizationInput → Grant
  authorized_grant actor client input = record {
    client_id = client.client_id;
    tenant_id = client.tenant_id;
    subject = actor.principal;
    scopes = unique_scopes (
        filter (λ s. includes actor.scopes s && includes client.allowed_scopes s)
          (requested_or input.scope client.allowed_scopes));
    roles = unique_roles (filter (includes_role client.roles) actor.roles);
    resource = or_other input.resource actor.resource;
  }

  -- The code is written, and its answer.
  unfoldable pub create_code : Grant → AuthorizationInput → Exec World AuthorizationOutput
  create_code grant input = do
    bytes ← random_bytes host
    now ← current_time
    code_id ← random_uuid host
    let code = "klc_" +++ bytes
    on_codes (Codes.create (new_code code_id (host.sha256_hex code) grant input now))
    audit_token host config "auth.code.authorize" grant (
        ("redirectUri", text input.redirect_uri)
        ∷ grant_details host config grant (now + config.authorization_code_ttl_seconds * 1000))
    return (record {
      code = code;
      client_id = grant.client_id;
      tenant_id = grant.tenant_id;
      subject = grant.subject;
      redirect_uri = input.redirect_uri;
      expires_in = config.authorization_code_ttl_seconds;
      scope = join " " grant.scopes;
      state = input.state;
    })

  unfoldable pub authorize_client :
      AuthContext → AuthorizationInput → StoredAuthClient → Exec World AuthorizationOutput
  authorize_client actor input client = do
    demand (includes_grant client.grant_types authorization_code)
        "Client does not support authorization_code."
    demand (includes client.redirect_uris input.redirect_uri) "Invalid redirect URI."
    demand (tenant_allowed actor.tenant_id client.tenant_id) "Tenant access denied."
    demand (not (resources_differ actor.resource input.resource))
        "Requested resource exceeds the caller resource binding."
    require_active_tenant client.tenant_id
    let grant = authorized_grant actor client input
    demand (not (is_empty grant.scopes)) "No valid scopes were granted."
    demand (not (is_empty grant.roles)) "No valid roles were granted."
    create_code grant input

  unfoldable pub authorize : AuthContext → AuthorizationInput → Exec World AuthorizationOutput
  authorize actor input = do
    stored ← get_client input.client_id
    client ← existing (enabled stored) "Unknown authorization client."
    authorize_client actor input client
