-- ===== src/Auth/Exchange.antt =====
-- Tokens are given out for secrets, codes and refresh tokens: `issueToken` of
-- src/services/auth-service.ts.
use keylore.Prelude.{
  ℕ, String, Bool, true, false, not, Option, none, some, List, [], ◌∷◌, ◌&&◌, ◌==◌, leb,
  if◌then◌else◌, or_else,
}
use keylore.Exec.{Exec, ◌>>=◌, ◌>>◌, return, demand, existing}
use keylore.Domain.Auth.{
  GrantType, client_credentials, authorization_code, refresh_token, StoredAuthClient, Grant,
  RefreshToken, AuthorizationCode, TokenIssueInput, TokenIssueOutput,
}
use keylore.Domain.Config.{KeyLoreConfig}
use keylore.World.{World, text}
use keylore.World.Host.{Host, current_time}
use keylore.Auth.Scopes.{
  is_active, includes_grant, join, is_empty, granted_scopes, resources_differ, is_text,
}
use keylore.Auth.Tables.Refresh
use keylore.Auth.Tables.Codes
use keylore.Auth.Statements.{
  on_refresh, on_codes, answered, get_client, get_refresh_token, require_active_tenant,
}
use keylore.Auth.Assertion.{authenticate_client_credentials}
use keylore.Auth.Issue.{enabled, audit_token, issue_access_token_record, issue_refresh_token_record}

-- `record && record.status === "active" && record.clientId === clientId`
abbrev pub usable_refresh : String → Option RefreshToken → Option RefreshToken
usable_refresh client_id none = none
usable_refresh client_id (some t) =
    if is_active t.status && t.client_id == client_id then some t else none

module _ (host : Host) (config : KeyLoreConfig) where
  abbrev issued : String → Option String → List String → TokenIssueOutput
  issued access_token refresh scopes = record {
    access_token = access_token;
    refresh_token = refresh;
    expires_in = config.access_token_ttl_seconds;
    scope = join " " scopes;
  }

  unfoldable pub by_client_credentials :
      StoredAuthClient → TokenIssueInput → Exec World TokenIssueOutput
  by_client_credentials client input = do
    authenticate_client_credentials host config client input
    demand (includes_grant client.grant_types client_credentials)
        "Unsupported grant type for client."
    let scopes = granted_scopes input.scope client.allowed_scopes
    demand (not (is_empty scopes)) "No valid scopes were granted."
    access ←
        issue_access_token_record host config
          (record {
            client_id = client.client_id;
            tenant_id = client.tenant_id;
            subject = client.client_id;
            scopes = scopes;
            roles = client.roles;
            resource = input.resource;
          })
          client_credentials
    return (issued access none scopes)

  -- A refresh token, for a client that may use one.
  unfoldable pub refresh_if : Bool → Grant → Exec World (Option String)
  refresh_if true grant = do
    token ← issue_refresh_token_record host config grant
    return (some token)
  refresh_if false grant = return none

  unfoldable pub consume_code : ℕ → String → Exec World (Option AuthorizationCode)
  consume_code now code_hash =
      on_codes (λ table. answered (Codes.consume_by_hash now code_hash table))

  -- The code is consumed, and tested against the request.
  unfoldable pub redeem_code : StoredAuthClient → TokenIssueInput → Exec World AuthorizationCode
  redeem_code client input = do
    now ← current_time
    consumed ← consume_code now (host.sha256_hex (or_else input.code ""))
    code ← existing consumed "Invalid authorization code."
    demand (code.client_id == client.client_id) "Invalid authorization code."
    demand (is_text code.redirect_uri input.redirect_uri) "Invalid redirect URI."
    demand (code.code_challenge == host.sha256_base64url (or_else input.code_verifier ""))
        "Invalid code verifier."
    return code

  abbrev pub with_scopes : String → Grant → List String → Grant
  with_scopes client_id grant scopes = record grant { client_id = client_id; scopes = scopes }

  unfoldable pub by_authorization_code :
      StoredAuthClient → TokenIssueInput → Exec World TokenIssueOutput
  by_authorization_code client input = do
    authenticate_client_credentials host config client input
    demand (includes_grant client.grant_types authorization_code)
        "Unsupported grant type for client."
    code ← redeem_code client input
    let scopes = granted_scopes input.scope code.scopes
    demand (not (is_empty scopes)) "No valid scopes were granted."
    let grant = with_scopes client.client_id code.grant scopes
    access ← issue_access_token_record host config grant authorization_code
    refresh ← refresh_if (includes_grant client.grant_types refresh_token) grant
    return (issued access refresh scopes)

  -- The tests on the refresh token of the request.
  unfoldable pub check_refresh_token : StoredAuthClient → TokenIssueInput → Exec World RefreshToken
  check_refresh_token client input = do
    stored ← get_refresh_token (host.sha256_hex (or_else input.refresh_token ""))
    token ← existing (usable_refresh client.client_id stored) "Invalid refresh token."
    now ← current_time
    demand (not (leb token.expires_at now)) "Refresh token expired."
    demand (not (resources_differ token.resource input.resource))
        "Refresh token resource does not match this protected resource."
    require_active_tenant token.tenant_id
    return token

  -- The old token is replaced by the new one; the code does not look at what `replace` returns.
  unfoldable pub rotate_refresh :
      StoredAuthClient → TokenIssueInput → RefreshToken → String → Exec World Unit
  rotate_refresh client input token rotated = do
    now ← current_time
    stored ← get_refresh_token (host.sha256_hex rotated)
    replacement ← existing stored "Failed to rotate refresh token."
    on_refresh (λ table. answered (
        Refresh.replace now (host.sha256_hex (or_else input.refresh_token ""))
          replacement.refresh_token_id table))
    audit_token host config "auth.refresh.rotate"
        (record token.grant { client_id = client.client_id })
        (("refreshTokenId", text token.refresh_token_id) ∷ [])

  unfoldable pub by_refresh_token : StoredAuthClient → TokenIssueInput → Exec World TokenIssueOutput
  by_refresh_token client input = do
    authenticate_client_credentials host config client input
    demand (includes_grant client.grant_types GrantType.refresh_token)
        "Unsupported grant type for client."
    token ← check_refresh_token client input
    let scopes = granted_scopes input.scope token.scopes
    demand (not (is_empty scopes)) "No valid scopes were granted."
    let grant = with_scopes client.client_id token.grant scopes
    access ← issue_access_token_record host config grant GrantType.refresh_token
    rotated ← issue_refresh_token_record host config grant
    rotate_refresh client input token rotated
    return (issued access (some rotated) scopes)

  unfoldable pub exchange :
      GrantType → StoredAuthClient → TokenIssueInput → Exec World TokenIssueOutput
  exchange client_credentials client input = by_client_credentials client input
  exchange authorization_code client input = by_authorization_code client input
  exchange GrantType.refresh_token client input = by_refresh_token client input

  unfoldable pub issue_token : TokenIssueInput → Exec World TokenIssueOutput
  issue_token input = do
    stored ← get_client input.client_id
    client ← existing (enabled stored) "Invalid client credentials."
    require_active_tenant client.tenant_id
    exchange input.grant_type client input
