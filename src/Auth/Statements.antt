-- ===== src/Auth/Statements.antt =====
-- The statements of the authorization server's repositories, run on the shared state.
use keylore.Prelude.{String, Bool, Option, List, ◌+++◌}
use keylore.Exec.{Result, ok, Exec, ◌>>=◌, gets, modify, demand, existing}
use keylore.Domain.Auth.{
  StoredAuthClient, AccessToken, RefreshToken, AuthorizationCode, ClientAssertion, TenantRecord,
}
use keylore.World.{World}
use keylore.Auth.Scopes.{is_open}
use keylore.Auth.Tables as Tables
use keylore.Auth.Tables.Access
use keylore.Auth.Tables.Refresh

-- A statement on one table, as a method.
abbrev pub on_access :
    {A : Type 0} → (List AccessToken → Result A × List AccessToken) → Exec World A
on_access statement w =
    let (r, table) = statement w.auth.access_tokens in
    (r, record w { auth = record w.auth { access_tokens = table } })

abbrev pub on_refresh :
    {A : Type 0} → (List RefreshToken → Result A × List RefreshToken) → Exec World A
on_refresh statement w =
    let (r, table) = statement w.auth.refresh_tokens in
    (r, record w { auth = record w.auth { refresh_tokens = table } })

abbrev pub on_codes :
    {A : Type 0} → (List AuthorizationCode → Result A × List AuthorizationCode) → Exec World A
on_codes statement w =
    let (r, table) = statement w.auth.codes in
    (r, record w { auth = record w.auth { codes = table } })

-- The outcome of a statement that does not throw.
abbrev pub answered : {A S : Type 0} → A × S → Result A × S
answered (a, s) = (ok a, s)

unfoldable pub get_client : String → Exec World (Option StoredAuthClient)
get_client id = gets (λ w. Tables.get_by_client_id id w.auth.clients)

unfoldable pub upsert_client : StoredAuthClient → Exec World Unit
upsert_client client =
    modify
      (λ w. record w { auth = record w.auth { clients = Tables.upsert client w.auth.clients } })

unfoldable pub register_assertion : ClientAssertion → Exec World Bool
register_assertion a w =
    let (taken, table) = Tables.register a w.auth.assertions in
    (ok taken, record w { auth = record w.auth { assertions = table } })

unfoldable pub get_tenant : String → Exec World (Option TenantRecord)
get_tenant tenant_id = gets (λ w. Tables.tenant_by_id tenant_id w.auth.tenants)

unfoldable pub require_active_tenant : String → Exec World Unit
require_active_tenant tenant_id = do
  tenant ← get_tenant tenant_id
  found ← existing tenant ("Unknown tenant: " +++ tenant_id)
  demand (is_open found.status) ("Tenant is disabled: " +++ tenant_id)

unfoldable pub get_access_token : String → Exec World (Option AccessToken)
get_access_token token_hash = gets (λ w. Access.get_by_hash token_hash w.auth.access_tokens)

unfoldable pub get_refresh_token : String → Exec World (Option RefreshToken)
get_refresh_token token_hash = gets (λ w. Refresh.get_by_hash token_hash w.auth.refresh_tokens)
