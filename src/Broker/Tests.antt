-- ===== src/Broker/Tests.antt =====
-- The broker on a request that the policy allows.
use keylore.Prelude.{ℕ, ◌≡◌, refl, ◌⊎◌, none, some, List, [], ◌∷◌, length, take, ltb, ends_with}
use keylore.Domain.{AuthContext}
use keylore.Domain.Access.{AccessRequestInput, AccessMode}
use keylore.Broker.Proxy.{read_chunks, outbound_request}
use keylore.Broker.Proxy.Body.{flatten, read_chunks-take}
use keylore.Broker.Proxy.Headers.{
  field, last_field, expected, outbound_request-field, blocked_header_absent,
}
use keylore.Broker.Access.{request_access, simulate_access}
use keylore.Broker.Access.Sending.{Silent}
use keylore.Broker.Access.Simulation.{simulate_access-silent}
use keylore.Broker.Access.Monitor.{Sent, request_access-Sent}
use keylore.Audit
use keylore.Broker
use keylore.Broker.Access
use keylore.Broker.Proxy
use keylore.BreakGlass.Service as BreakGlass
use keylore.BreakGlass.Table as BreakGlassTable
use keylore.Egress
use keylore.Egress.Address
use keylore.Policy
use keylore.World.{World}
use keylore.World.Host
use keylore.Broker.Access.Hidden.{Unseen, hidden_as_missing}
use keylore.Broker.Access.Preview.{Agrees, simulate_access-Agrees}
use keylore.Fixtures.{
  credential, host, config, caller, request, repos, repos_url, allow_rule, deny_rule, world,
}

-- The broker hands this request to `fetch`, and the caller's cookies are not in it.
allowed_is_sent :
    (request_access host config (caller "ci") request (world (allow_rule ∷ []))).1.outbound
    ≡ record {
      method = "GET";
      url = repos;
      headers =
          ("accept", "application/json, text/plain;q=0.9, */*;q=0.8")
          ∷ ("Authorization", "Bearer t0ken")
          ∷ [];
      body = none;
    }
      ∷ []
unfolding request_access Broker.evaluate_access Host.random_uuid Audit.record_event
    Egress.validate_egress_target Egress.addresses_of Address.is_loopback_ip Egress.is_blocked_ip
    Address.is_blocked_ipv4 BreakGlass.verify_active BreakGlassTable.get_by_id
    BreakGlassTable.expire_stale Broker.policy_decision Policy.evaluate Policy.match_pattern
    Policy.choose Policy.rule_matches ends_with Access.execute_allowed_request
    Proxy.execute_proxy_request
allowed_is_sent = refl

denied_is_not_sent :
    (request_access host config
      (caller "ci")
      request
      (world (allow_rule ∷ deny_rule ∷ []))).1.outbound
    ≡ []
unfolding request_access Broker.evaluate_access Host.random_uuid Audit.record_event
    Egress.validate_egress_target Egress.addresses_of Address.is_loopback_ip Egress.is_blocked_ip
    Address.is_blocked_ipv4 BreakGlass.verify_active BreakGlassTable.get_by_id
    BreakGlassTable.expire_stale Broker.policy_decision Policy.evaluate Policy.match_pattern
    Policy.choose Policy.rule_matches ends_with
denied_is_not_sent = refl

request_access-Sent_example :
    Silent [] (request_access host config (caller "ci") request (world (allow_rule ∷ [])))
    ⊎ Sent host config
        (caller "ci")
        request
        (world (allow_rule ∷ []))
        (request_access host config (caller "ci") request (world (allow_rule ∷ [])))
request_access-Sent_example =
    request_access-Sent host config (caller "ci") request (world (allow_rule ∷ []))

simulate_access-silent_example :
    (simulate_access host config
      (caller "ci")
      request
      AccessMode.simulation
      (world (allow_rule ∷ []))).1.outbound
    ≡ []
simulate_access-silent_example =
    simulate_access-silent host config (caller "ci") request AccessMode.simulation
      (world (allow_rule ∷ []))

abbrev chunks : List (List ℕ)
chunks = (1 ∷ 2 ∷ 3 ∷ []) ∷ (4 ∷ 5 ∷ []) ∷ (6 ∷ []) ∷ []

read_chunks-take_example :
    read_chunks 4 0 chunks ≡ (take 4 (flatten chunks), ltb 4 (length (flatten chunks)))
read_chunks-take_example = read_chunks-take 4 chunks

-- A caller's header that differs from the adapter's in letter case only goes out beside it.
abbrev shadowing : AccessRequestInput
shadowing = record request { headers = some (("x-api-key", "mine") ∷ ("Cookie", "session") ∷ []) }

both_spellings_go_out :
    (outbound_request host shadowing repos_url (("X-API-Key", "t0ken") ∷ [])).headers
    ≡ ("accept", "application/json, text/plain;q=0.9, */*;q=0.8")
      ∷ ("x-api-key", "mine")
      ∷ ("X-API-Key", "t0ken")
      ∷ []
unfolding outbound_request
both_spellings_go_out = refl

outbound_request-field_example :
    field "x-api-key"
      (outbound_request host shadowing repos_url (("X-API-Key", "t0ken") ∷ [])).headers
    ≡ some "mine"
unfolding expected last_field
outbound_request-field_example =
    outbound_request-field host shadowing repos_url "X-API-Key" "t0ken" "x-api-key"

blocked_header_absent_example :
    field "cookie"
      (outbound_request host request repos_url (("Authorization", "Bearer t0ken") ∷ [])).headers
    ≡ none
blocked_header_absent_example =
    blocked_header_absent host request repos_url "Authorization" "Bearer t0ken" "cookie" refl refl
      refl

-- A state without any credential.
abbrev bare_world : World
bare_world = record (world []) { credentials = [] }

abbrev stranger : AuthContext
stranger = record (caller "ci") { tenant_id = some "globex" }

hidden_as_missing_example :
    (request_access host config stranger request (world (allow_rule ∷ []))).0
    ≡ (request_access host config stranger request bare_world).0
hidden_as_missing_example =
    hidden_as_missing host config stranger request (world (allow_rule ∷ [])) bare_world
      (Unseen.hidden credential refl refl) (Unseen.missing refl) refl

simulate_access-Agrees_example :
    Agrees host config
      (caller "ci")
      request
      AccessMode.simulation
      (simulate_access host config
        (caller "ci")
        request
        AccessMode.simulation
        (world (allow_rule ∷ []))).0
      (request_access host config (caller "ci") request (world (allow_rule ∷ []))).0
simulate_access-Agrees_example =
    simulate_access-Agrees host config (caller "ci") request AccessMode.simulation
      (world (allow_rule ∷ [])) refl
