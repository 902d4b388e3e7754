-- ===== src/Auth/Tests.antt =====
-- The authorization server on one tenant with one public client, and one caller.
use keylore.Prelude.{◌≡◌, refl, none, some, List, [], ◌∷◌, ◌↔◌}
use keylore.Exec.{ok}
use keylore.Domain.{PrincipalRole, AuthContext}
use keylore.Domain.Auth.{
  ClientStatus, AuthMethod, client_secret_basic, GrantType, authorization_code, TenantStatus,
  StoredAuthClient, AuthorizationCode, CodeStatus, TokenStatus, AccessToken, TokenIssueInput,
  TokenIssueOutput, AuthorizationInput, ClientUpdateInput,
}
use keylore.World.{World}
use keylore.Auth.Tables.Codes
use keylore.Auth.Clients as Clients
use keylore.Auth.Exchange.{issue_token}
use keylore.Auth.Within.Upsert.{AllBounded}
use keylore.Auth.History.{Call, run, run-AllBounded}
use keylore.Auth.Presentation.{Accepts, authenticate_bearer_token-ok_iff}
use keylore.Auth.Bearer.{authenticate_bearer_token}
use keylore.Auth.Redemption.{IsRedemption, issue_token-IsRedemption, consume_by_hash-once}
use keylore.Auth.Revocation.{IsStripped, update_client-IsStripped, rotate_client_secret-IsStripped}
use keylore.Audit
use keylore.Auth.Assertion
use keylore.Auth.Statements
use keylore.Auth.Tables
use keylore.Exec
use keylore.World.Host
use keylore.Auth.Tables.Access
use keylore.Auth.Tables.Refresh
use keylore.Auth.Issue as Issue
use keylore.Auth.Exchange as Exchange
use keylore.Auth.Bearer as Bearer
use keylore.Auth.Scopes as Scopes
use keylore.Fixtures.{host, config, caller, done, world}

-- A client that redeems codes, without a secret.
abbrev client : StoredAuthClient
client = record {
  client = record {
    client_id = "web";
    tenant_id = "acme";
    display_name = "Web";
    roles = PrincipalRole.consumer ∷ [];
    allowed_scopes = "catalog:read" ∷ "broker:use" ∷ [];
    status = ClientStatus.active;
    token_endpoint_auth_method = AuthMethod.none;
    grant_types = authorization_code ∷ GrantType.refresh_token ∷ [];
    redirect_uris = done ∷ [];
    jwks = [];
  };
  secret_hash = none;
  secret_salt = none;
}

-- The same client with a shared secret.
abbrev with_secret : StoredAuthClient
with_secret = record {
  client = record client.client { token_endpoint_auth_method = client_secret_basic };
  secret_hash = some "old";
  secret_salt = some "zero";
}

abbrev start : World
start = record (world []) {
  auth = record {
    clients = client ∷ [];
    access_tokens = [];
    refresh_tokens = [];
    codes = [];
    assertions = [];
    tenants =
        record {
          tenant_id = "acme";
          display_name = "Acme";
          description = none;
          status = TenantStatus.active;
          created_at = 0;
          updated_at = 0;
        }
        ∷ [];
  };
}

abbrev confidential : World
confidential = record start { auth = record start.auth { clients = with_secret ∷ [] } }

abbrev actor : AuthContext
actor = record (caller "ann") { scopes = "catalog:read" ∷ [] }

abbrev request : AuthorizationInput
request = record {
  client_id = "web";
  redirect_uri = done;
  scope = none;
  resource = none;
  code_challenge = "verifier";
  state = none;
}

-- The code is the first random text.
abbrev redeeming : TokenIssueInput
redeeming = record {
  client_id = "web";
  client_secret = none;
  grant_type = authorization_code;
  scope = none;
  resource = none;
  code = some "klc_zero";
  code_verifier = some "verifier";
  redirect_uri = some done;
  refresh_token = none;
  client_assertion_type = none;
  client_assertion = none;
}

abbrev narrow : ClientUpdateInput
narrow = record {
  display_name = none;
  roles = none;
  allowed_scopes = some ("catalog:read" ∷ []);
  status = none;
  token_endpoint_auth_method = none;
  grant_types = none;
  redirect_uris = none;
  jwks = none;
}

abbrev calls : List Call
calls = Call.authorize actor request ∷ Call.issue_token redeeming ∷ Call.wait 60 ∷ Call.clean ∷ []

-- The code that `request` of the caller gets.
abbrev code_row : AuthorizationCode
code_row = record {
  code_id = "id";
  code_hash = "klc_zero";
  grant = record {
    client_id = "web";
    tenant_id = "acme";
    subject = "ann";
    scopes = "catalog:read" ∷ [];
    roles = PrincipalRole.consumer ∷ [];
    resource = none;
  };
  redirect_uri = done;
  code_challenge = "verifier";
  expires_at = 301000;
  status = CodeStatus.active;
  created_at = 1000;
  consumed_at = none;
}

-- The token that is given for it.
abbrev token : AccessToken
token = record {
  token_id = "id";
  token_hash = "kl_one";
  grant = code_row.grant;
  expires_at = 3601000;
  status = TokenStatus.active;
  created_at = 1000;
  last_used_at = none;
}

abbrev authorized : World
authorized = record start { auth = record start.auth { codes = code_row ∷ [] } }

abbrev redeemed : World
redeemed = record start { auth = record start.auth { access_tokens = token ∷ [] } }

start-AllBounded : AllBounded start
unfolding AllBounded
start-AllBounded = record { clients = refl; access = tt; refresh = tt; codes = tt }

run-AllBounded_example : AllBounded (run host config calls start)
run-AllBounded_example = run-AllBounded host config calls start start-AllBounded

authenticate_bearer_token-ok_iff_example :
    ((authenticate_bearer_token host "kl_one" none redeemed).0 ≡ ok actor)
    ↔ Accepts host redeemed "kl_one" none actor
authenticate_bearer_token-ok_iff_example =
    authenticate_bearer_token-ok_iff host redeemed "kl_one" none actor

abbrev answer : TokenIssueOutput
answer = record {
  access_token = "kl_zero";
  refresh_token = some "klr_many";
  expires_in = 3600;
  scope = "catalog:read";
}

accepted :
    (authenticate_bearer_token host "kl_one" none redeemed).0
    ≡ ok (record actor { client_id = "web" })
unfolding authenticate_bearer_token Bearer.check_bearer Bearer.touch_token
    Statements.get_access_token Statements.require_active_tenant Statements.get_tenant
    Tables.tenant_by_id Access.get_by_hash Host.current_time Exec.demand Exec.existing
accepted = refl

issue_token-IsRedemption_example : IsRedemption host authorized redeeming
unfolding issue_token Statements.get_client Exec.existing Exec.demand Tables.get_by_client_id
    Statements.require_active_tenant Statements.get_tenant Tables.tenant_by_id Exchange.exchange
    Exchange.by_authorization_code Assertion.authenticate_client_credentials
    Assertion.authenticate_by Exchange.redeem_code Exchange.consume_code Codes.consume_by_hash
    Scopes.granted_scopes Issue.issue_access_token_record Issue.issue_refresh_token_record
    Access.issue Refresh.issue Exchange.refresh_if Audit.record_event Host.random_uuid
    Host.random_bytes Host.current_time
issue_token-IsRedemption_example =
    issue_token-IsRedemption host config authorized redeeming {out = answer} refl refl

consume_by_hash-once_example :
    (Codes.consume_by_hash 3000 "klc_zero"
      (Codes.consume_by_hash 2000 "klc_zero" (code_row ∷ [])).1).0
    ≡ none
unfolding Codes.consume_by_hash
consume_by_hash-once_example =
    consume_by_hash-once 2000 3000 "klc_zero" (code_row ∷ []) {c = Codes.consume 2000 code_row} refl

update_client-IsStripped_example :
    IsStripped "web" (Clients.update_client host config actor "web" narrow redeemed).1
unfolding Clients.changes_access Clients.update_client Clients.update_found Clients.merged
    Clients.replace_client Clients.revoke_all Statements.get_client Statements.upsert_client
    Tables.get_by_client_id Tables.upsert Access.revoke_by_client_id Refresh.revoke_by_client_id
    Codes.revoke_by_client_id Audit.record_event Exec.demand Host.random_uuid Clients.fits_schema
update_client-IsStripped_example =
    update_client-IsStripped host config actor "web" redeemed narrow
      {client = Clients.merged narrow client.client} refl refl

rotate_client_secret-IsStripped_example :
    IsStripped "web"
      (Clients.rotate_client_secret host config actor "web" (some "secret") confidential).1
unfolding Clients.rotate_client_secret Clients.rotate_found Clients.secret_or_new Clients.revoke_all
    Statements.get_client Statements.upsert_client Tables.get_by_client_id Tables.upsert
    Access.revoke_by_client_id Refresh.revoke_by_client_id Codes.revoke_by_client_id
    Assertion.hash_secret Audit.record_event Exec.demand Host.random_uuid Host.random_bytes
    Clients.fits_schema
rotate_client_secret-IsStripped_example =
    rotate_client_secret-IsStripped host config actor "web" confidential (some "secret")
      {output = record { client = with_secret.client; client_secret = some "secret" }} refl
