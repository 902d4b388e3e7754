-- ===== src/Tenants/Tests.antt =====
-- The tenant service on one tenant with one access token.
use keylore.Prelude.{◌≡◌, refl, none, some, [], ◌∷◌}
use keylore.Exec.{ok, thrown}
use keylore.Domain.{PrincipalRole, AuthContext}
use keylore.Domain.Auth.{
  ClientStatus, AuthMethod, GrantType, TenantStatus, TokenStatus, TenantRecord, AccessToken,
  ClientCreateInput,
}
use keylore.World.{World}
use keylore.Auth.Bearer as Bearer
use keylore.Tenants as Tenants
use keylore.Tenants.{TenantCreateInput, TenantUpdateInput, TenantSummary}
use keylore.Tenants.Disabled.{disabled_locks_out}
use keylore.Audit
use keylore.Auth.Statements
use keylore.Auth.Tables.Access
use keylore.Exec
use keylore.World.Host
use keylore.Auth.Clients as Clients
use keylore.Auth.Tables as Tables
use keylore.Fixtures.{host, config, caller, world}

abbrev acme : TenantRecord
acme = record {
  tenant_id = "acme";
  display_name = "Acme";
  description = none;
  status = TenantStatus.active;
  created_at = 0;
  updated_at = 0;
}

abbrev token : AccessToken
token = record {
  token_id = "id";
  token_hash = "kl_one";
  grant = record {
    client_id = "web";
    tenant_id = "acme";
    subject = "ann";
    scopes = "catalog:read" ∷ [];
    roles = PrincipalRole.consumer ∷ [];
    resource = none;
  };
  expires_at = 3601000;
  status = TokenStatus.active;
  created_at = 1000;
  last_used_at = none;
}

abbrev start : World
start = record (world []) {
  auth = record {
    clients = [];
    access_tokens = token ∷ [];
    refresh_tokens = [];
    codes = [];
    assertions = [];
    tenants = acme ∷ [];
  };
}

-- An operator of all tenants.
abbrev operator : AuthContext
operator = record (caller "ann") { tenant_id = none }

abbrev disabling : TenantUpdateInput
disabling = record { display_name = none; description = none; status = some TenantStatus.disabled }

abbrev disabled_summary : TenantSummary
disabled_summary = record {
  tenant = record acme { status = TenantStatus.disabled; updated_at = 1000 };
  credential_count = 1;
  auth_client_count = 0;
  active_token_count = 1;
}

accepted_before :
    (Bearer.authenticate_bearer_token host "kl_one" none start).0
    ≡ ok (Bearer.context_of token.grant)
unfolding Bearer.authenticate_bearer_token Bearer.check_bearer Statements.get_access_token
    Exec.existing Access.get_by_hash Statements.require_active_tenant Statements.get_tenant
    Tables.tenant_by_id Exec.demand Host.current_time Bearer.touch_token
accepted_before = refl

disabled_locks_out_example : ¬ (
    (Bearer.authenticate_bearer_token host "kl_one" none
      (Tenants.update host config operator "acme" disabling start).1).0
    ≡ ok (Bearer.context_of token.grant))
unfolding Tenants.update Tenants.require_tenant_admin Exec.demand Tenants.change_row
    Tenants.update_row Tables.tenant_by_id Tenants.update_found Audit.record_event
    Tenants.summary_of Tenants.patched
disabled_locks_out_example =
    disabled_locks_out host config operator "acme" disabling start {summary = disabled_summary} refl
      refl "kl_one" none (Bearer.context_of token.grant) refl

abbrev beta : TenantCreateInput
beta = record {
  tenant_id = "beta";
  display_name = "Beta";
  description = none;
  status = TenantStatus.active;
}

abbrev web : ClientCreateInput
web = record {
  record_of = record {
    client_id = "web";
    tenant_id = "";
    display_name = "Web";
    roles = PrincipalRole.consumer ∷ [];
    allowed_scopes = "catalog:read" ∷ [];
    status = ClientStatus.active;
    token_endpoint_auth_method = AuthMethod.none;
    grant_types = GrantType.refresh_token ∷ [];
    redirect_uris = [];
    jwks = [];
  };
  client_secret = none;
}

-- The same client twice: the call throws, and the tenant is there.
second_client_refused :
    (Tenants.bootstrap host config operator beta (web ∷ web ∷ []) start).0
    ≡ thrown "Client already exists: web"
unfolding Tenants.bootstrap Tenants.create Tenants.require_tenant_admin Exec.demand
    Statements.get_tenant Tables.tenant_by_id Tenants.create_row Tenants.insert Audit.record_event
    Tenants.create_clients Clients.create_client Statements.get_client Tables.get_by_client_id
    Exec.existing Tenants.summary_of Clients.add_client Clients.new_secret Statements.upsert_client
    Tables.upsert Host.random_uuid Clients.fits_schema
second_client_refused = refl

tenant_stays :
    (Tenants.get operator "beta"
      (Tenants.bootstrap host config operator beta (web ∷ web ∷ []) start).1).0
    ≡ ok (
        some (record {
          tenant = Tenants.new_row 1000 beta;
          credential_count = 0;
          auth_client_count = 1;
          active_token_count = 0;
        }))
unfolding Tenants.get Tenants.bootstrap Tenants.create Tenants.require_tenant_admin Exec.demand
    Statements.get_tenant Tables.tenant_by_id Tenants.create_row Tenants.insert Audit.record_event
    Tenants.create_clients Clients.create_client Statements.get_client Tables.get_by_client_id
    Exec.existing Tenants.summary_of Clients.add_client Clients.new_secret Statements.upsert_client
    Tables.upsert Host.random_uuid Clients.fits_schema
tenant_stays = refl
