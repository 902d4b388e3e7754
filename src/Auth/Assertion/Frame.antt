-- ===== src/Auth/Assertion/Frame.antt =====
-- What the authentication of a client (src/services/auth-service.ts) keeps: it only writes assertions.
use keylore.Prelude.{ℕ, String, Bool, true, false, Option, none, some}
use keylore.Exec.{demand, existing}
use keylore.Exec.Keeps.{Keeps, Keeps-return, keeps_rules}
use keylore.Domain.Config.{KeyLoreConfig}
use keylore.Domain.Auth.{
  AuthMethod, private_key_jwt, client_secret_basic, client_secret_post, StoredAuthClient,
  TokenIssueInput, ClientAssertion, JwtClaims,
}
use keylore.World.{World}
use keylore.World.Host.{Host, current_time}
use keylore.Auth.Statements.{
  get_client, get_access_token, get_refresh_token, get_tenant, require_active_tenant,
  register_assertion,
}
use keylore.Auth.Assertion.{
  check_claims, verify_client_assertion, check_secret, check_assertion, authenticate_by,
  authenticate_client_credentials,
}

-- The statements that only read.
module _ {P : World → Type 0} where
  pub Keeps-demand : (b : Bool) (e : String) → Keeps P (demand b e)
  unfolding demand
  Keeps-demand true e = record { at = λ w h. h }
  Keeps-demand false e = record { at = λ w h. h }

  pub Keeps-existing : {A : Type 0} (o : Option A) (e : String) → Keeps P (existing o e)
  unfolding existing
  Keeps-existing none e = record { at = λ w h. h }
  Keeps-existing (some a) e = record { at = λ w h. h }

  pub Keeps-current_time : Keeps P current_time
  unfolding current_time
  Keeps-current_time = record { at = λ w h. h }

  pub Keeps-get_client : (id : String) → Keeps P (get_client id)
  unfolding get_client
  Keeps-get_client id = record { at = λ w h. h }

  pub Keeps-get_access_token : (token_hash : String) → Keeps P (get_access_token token_hash)
  unfolding get_access_token
  Keeps-get_access_token token_hash = record { at = λ w h. h }

  pub Keeps-get_refresh_token : (token_hash : String) → Keeps P (get_refresh_token token_hash)
  unfolding get_refresh_token
  Keeps-get_refresh_token token_hash = record { at = λ w h. h }

  pub Keeps-get_tenant : (tenant_id : String) → Keeps P (get_tenant tenant_id)
  unfolding get_tenant
  Keeps-get_tenant tenant_id = record { at = λ w h. h }

  pub Keeps-require_active_tenant : (tenant_id : String) → Keeps P (require_active_tenant tenant_id)
  unfolding require_active_tenant
  Keeps-require_active_tenant tenant_id =
      search (keeps_rules, Keeps-demand, Keeps-existing, Keeps-get_tenant)

pub ruleset reads_rules = (
  Keeps-demand, Keeps-existing, Keeps-current_time, Keeps-get_client, Keeps-get_access_token,
  Keeps-get_refresh_token, Keeps-get_tenant, Keeps-require_active_tenant,
)

module _ (P : World → Type 0)
    (assertions_keep : (a : ClientAssertion) → Keeps P (register_assertion a)) (host : Host)
    (config : KeyLoreConfig) where
  check_claims-Keeps :
      (client_id : String) (claims : JwtClaims) (now : ℕ)
      → Keeps P (check_claims host config client_id claims now)
  unfolding check_claims
  check_claims-Keeps client_id claims now = search (keeps_rules, Keeps-demand) depth 12

  verify_client_assertion-Keeps :
      (client : StoredAuthClient) (assertion : String)
      → Keeps P (verify_client_assertion host config client assertion)
  unfolding verify_client_assertion
  verify_client_assertion-Keeps client assertion =
      search (keeps_rules, reads_rules, check_claims-Keeps, assertions_keep) depth 16

  authenticate_by-Keeps :
      (method : AuthMethod) (client : StoredAuthClient) (input : TokenIssueInput)
      → Keeps P (authenticate_by host config method client input)
  unfolding authenticate_by check_secret check_assertion
  authenticate_by-Keeps AuthMethod.none client input = Keeps-return tt
  authenticate_by-Keeps private_key_jwt client input =
      search (keeps_rules, Keeps-demand, verify_client_assertion-Keeps)
  authenticate_by-Keeps client_secret_basic client input =
      search (keeps_rules, Keeps-demand) depth 8
  authenticate_by-Keeps client_secret_post client input = search (keeps_rules, Keeps-demand) depth 8

  pub authenticate-Keeps :
      (client : StoredAuthClient) (input : TokenIssueInput)
      → Keeps P (authenticate_client_credentials host config client input)
  unfolding authenticate_client_credentials
  authenticate-Keeps client input =
      authenticate_by-Keeps client.token_endpoint_auth_method client input
