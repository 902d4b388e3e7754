-- ===== src/Tenants.antt =====
-- Tenants: the table `tenants` of src/repositories/pg-tenant-repository.ts and the service of
-- src/services/tenant-service.ts.
pub mod Disabled
mod Tests
use keylore.Prelude.{
  ℕ, String, Bool, true, false, not, Option, none, some, List, [], ◌∷◌, ◌++◌, map, length, ◌&&◌,
  ◌==◌, if◌then◌else◌, any, filter, find, update_first, count_if, truthy, or_else, is_some, ◌+++◌,
  sorted,
}
use keylore.Exec.{Result, ok, thrown, Exec, ◌>>=◌, ◌>>◌, return, gets, demand, existing}
use keylore.Domain.{AuthContext}
use keylore.Domain.Config.{KeyLoreConfig}
use keylore.Domain.Auth.{TenantStatus, TenantRecord, ClientCreateInput, ClientSecretOutput}
use keylore.World.{World, Json, text, number, texts, Outcome}
use keylore.World.Host.{Host, current_time}
use keylore.Audit.{record_event}
use keylore.Auth.Scopes.{is_active, is_open}
use keylore.Auth.Tables as Tables
use keylore.Auth.Statements.{get_tenant}
use keylore.Auth.Clients.{create_client}

pub record TenantCreateInput : Type 0 where
  pub tenant_id : String
  pub display_name : String
  pub description : Option String
  pub status : TenantStatus

pub record TenantUpdateInput : Type 0 where
  pub display_name : Option String
  pub description : Option String
  pub status : Option TenantStatus

pub record TenantSummary : Type 0 where
  pub tenant : TenantRecord
  pub credential_count : ℕ
  pub auth_client_count : ℕ
  pub active_token_count : ℕ

pub record TenantBootstrap : Type 0 where
  pub tenant : TenantSummary
  pub clients : List ClientSecretOutput

abbrev pub status_text : TenantStatus → String
status_text TenantStatus.active = "active"
status_text TenantStatus.disabled = "disabled"

-- The statements of the table; `tenant_id` is the primary key.
abbrev pub new_row : ℕ → TenantCreateInput → TenantRecord
new_row now input = record {
  tenant_id = input.tenant_id;
  display_name = input.display_name;
  description = input.description;
  status = input.status;
  created_at = now;
  updated_at = now;
}

unfoldable pub insert :
    ℕ → TenantCreateInput → List TenantRecord → Result TenantRecord × List TenantRecord
insert now input table =
    if any (λ t. t.tenant_id == input.tenant_id) table
    then (thrown "duplicate key value violates unique constraint", table)
    else (ok (new_row now input), table ++ new_row now input ∷ [])

-- `first ?? second`
abbrev coalesce : Option String → Option String → Option String
coalesce none old = old
coalesce (some s) old = some s

unfoldable pub patched : ℕ → TenantUpdateInput → TenantRecord → TenantRecord
patched now patch t = record t {
  display_name = or_else patch.display_name t.display_name;
  description = coalesce patch.description t.description;
  status = or_else patch.status t.status;
  updated_at = now;
}

unfoldable pub update_row :
    ℕ → String → TenantUpdateInput → List TenantRecord → Option TenantRecord × List TenantRecord
update_row now id patch table = elim (Tables.tenant_by_id id table) [
  | none ↦ (none, table)
  | some t ↦
      (some (patched now patch t), update_first (λ q. q.tenant_id == id) (patched now patch) table)
]

unfoldable pub create_row : TenantCreateInput → Exec World TenantRecord
create_row input w =
    let (r, table) = insert w.now input w.auth.tenants in
    (r, record w { auth = record w.auth { tenants = table } })

unfoldable pub change_row : String → TenantUpdateInput → Exec World (Option TenantRecord)
change_row id patch w =
    let (r, table) = update_row w.now id patch w.auth.tenants in
    (ok r, record w { auth = record w.auth { tenants = table } })

-- `actor.tenantId && tenantId && actor.tenantId !== tenantId`; the empty text is falsy.
abbrev pub other_tenant : AuthContext → String → Bool
other_tenant actor tenant_id =
    truthy actor.tenant_id && not (tenant_id == "") && not (or_else actor.tenant_id "" == tenant_id)

unfoldable pub require_tenant_admin : AuthContext → String → Exec World Unit
require_tenant_admin actor tenant_id =
    demand (not (other_tenant actor tenant_id)) "Tenant access denied."

unfoldable pub summary_of : TenantRecord → World → TenantSummary
summary_of t w = record {
  tenant = t;
  credential_count = count_if (λ c. c.tenant_id == t.tenant_id) w.credentials;
  auth_client_count = count_if (λ c. c.tenant_id == t.tenant_id) w.auth.clients;
  active_token_count =
      count_if (λ a. a.tenant_id == t.tenant_id && is_active a.status) w.auth.access_tokens;
}

abbrev summary_for : TenantRecord → Exec World TenantSummary
summary_for t = gets (summary_of t)

unfoldable pub get : AuthContext → String → Exec World (Option TenantSummary)
get actor tenant_id = do
  require_tenant_admin actor tenant_id
  found ← get_tenant tenant_id
  gets (λ w. elim found [ none ↦ none | some t ↦ some (summary_of t w) ])

unfoldable pub require_active_tenant : String → Exec World TenantRecord
require_active_tenant tenant_id = do
  found ← get_tenant tenant_id
  tenant ← existing found ("Unknown tenant: " +++ tenant_id)
  demand (is_open tenant.status) ("Tenant is disabled: " +++ tenant_id)
  return tenant

-- `ORDER BY tenant_id ASC`
module _ (host : Host) where
  unfoldable pub ordered : List TenantRecord → List TenantRecord
  ordered table = sorted (λ t u. host.before t.tenant_id u.tenant_id) table

  unfoldable pub list : AuthContext → Exec World (List TenantSummary)
  list actor = gets (λ w.
      let all = ordered w.auth.tenants in
      let visible =
        if truthy actor.tenant_id
        then filter (λ t. t.tenant_id == or_else actor.tenant_id "") all
        else all in
      map (λ t. summary_of t w) visible)

-- `Object.keys(patch)`
abbrev fields_of : TenantUpdateInput → List String
fields_of patch =
    (if is_some patch.display_name then "displayName" ∷ [] else [])
    ++ (if is_some patch.description then "description" ∷ [] else [])
    ++ (if is_some patch.status then "status" ∷ [] else [])

module _ (host : Host) (config : KeyLoreConfig) where
  abbrev audit_tenant : String → AuthContext → String → List (String × Json) → Exec World Unit
  audit_tenant action actor tenant_id details = record_event host (record {
    tenant_id = some tenant_id;
    type = "auth.client";
    action = action;
    outcome = Outcome.success;
    principal = actor.principal;
    correlation_id = none;
    metadata = ("tenantId", text tenant_id) ∷ details;
  })

  unfoldable pub create : AuthContext → TenantCreateInput → Exec World TenantSummary
  create actor input = do
    require_tenant_admin actor input.tenant_id
    found ← get_tenant input.tenant_id
    demand (not (is_some found)) ("Tenant already exists: " +++ input.tenant_id)
    tenant ← create_row input
    audit_tenant "tenant.create" actor tenant.tenant_id
        (("status", text (status_text tenant.status)) ∷ [])
    summary_for tenant

  unfoldable pub update_found :
      AuthContext → TenantUpdateInput → TenantRecord → Exec World (Option TenantSummary)
  update_found actor patch tenant = do
    audit_tenant "tenant.update" actor tenant.tenant_id
        (("fields", texts (fields_of patch)) ∷ ("status", text (status_text tenant.status)) ∷ [])
    gets (λ w. some (summary_of tenant w))

  unfoldable pub update :
      AuthContext → String → TenantUpdateInput → Exec World (Option TenantSummary)
  update actor tenant_id patch = do
    require_tenant_admin actor tenant_id
    changed ← change_row tenant_id patch
    elim changed [ none ↦ return none | some tenant ↦ update_found actor patch tenant ]

  -- The loop over the clients of `bootstrap`, each moved to the tenant.
  unfoldable pub create_clients :
      AuthContext → String → List ClientCreateInput → Exec World (List ClientSecretOutput)
  create_clients actor tenant_id [] = return []
  create_clients actor tenant_id (c ∷ cs) = do
    client ←
        create_client host config actor
          (record c { record_of = record c.record_of { tenant_id = tenant_id } })
    clients ← create_clients actor tenant_id cs
    return (client ∷ clients)

  unfoldable pub bootstrap :
      AuthContext → TenantCreateInput → List ClientCreateInput → Exec World TenantBootstrap
  bootstrap actor input auth_clients = do
    created ← create actor input
    let tenant = created.tenant
    clients ← create_clients actor tenant.tenant_id auth_clients
    refreshed ← summary_for tenant
    audit_tenant "tenant.bootstrap" actor tenant.tenant_id
        (("authClientCount", number (length clients)) ∷ [])
    return (record { tenant = refreshed; clients = clients })
