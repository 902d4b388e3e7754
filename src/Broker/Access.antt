-- ===== src/Broker/Access.antt =====
-- `requestAccess`, `simulateAccess` and `executeAllowedRequest` of src/services/broker-service.ts.
pub mod Sending
pub mod Simulation
pub mod Monitor
pub mod Hidden
pub mod Preview
use keylore.Prelude.{
  String, Bool, true, false, Option, none, some, List, [], ◌∷◌, if◌then◌else◌, truthy,
}
use keylore.Exec.{Result, Exec, ◌>>=◌, ◌>>◌, return}
use keylore.Domain.{AuthContext, CredentialRecord, operation_text}
use keylore.Domain.Access.{
  AccessRequestInput, AccessMode, AccessVerdict, AccessDecision, HttpResult,
}
use keylore.Domain.Reviews.{ApprovalRequest, BreakGlassRequest}
use keylore.Domain.Config.{KeyLoreConfig}
use keylore.Policy.{Verdict, PolicyDecision}
use keylore.Egress.{Url}
use keylore.World.{World, Json, null, text, number, Outcome}
use keylore.World.Host.{Host}
use keylore.Audit.{record_event}
use keylore.Approvals.Service as Approvals
use keylore.Approvals.Service.{or_null}
use keylore.BreakGlass.Service as BreakGlass
use keylore.Broker.Proxy.{execute_proxy_request}
use keylore.Broker.{
  Evaluation, evaluate_access, decide, to_allowed_decision, to_denied_decision,
  to_break_glass_denied_decision, to_approval_required_decision, emergency,
}

abbrev grant_json : Option BreakGlassRequest → Json
grant_json none = null
grant_json (some grant) = text grant.id

-- `input.dryRun` is set and true.
abbrev pub is_dry_run : Option Bool → Bool
is_dry_run none = false
is_dry_run (some b) = b

module _ (host : Host) (config : KeyLoreConfig) where
  -- The audit record of a use, and the decision that is returned.
  record_credential_use :
      AccessMode
      → AuthContext
      → AccessRequestInput
      → CredentialRecord
      → PolicyDecision
      → String
      → Url
      → Option BreakGlassRequest
      → HttpResult
      → Exec World AccessDecision
  record_credential_use mode context input credential decision correlation_id target_url grant
        http_result =
      do
        record_event host (record {
          tenant_id = some credential.tenant_id;
          type = "credential.use";
          action = "proxy.http";
          outcome = Outcome.success;
          principal = context.principal;
          correlation_id = some correlation_id;
          metadata =
              ("tenantId", text credential.tenant_id)
              ∷ ("credentialId", text credential.id)
              ∷ ("operation", text (operation_text input.operation))
              ∷ ("targetHost", text target_url.hostname)
              ∷ ("ruleId", or_null decision.rule_id)
              ∷ ("status", number http_result.status)
              ∷ ("breakGlassId", grant_json grant)
              ∷ [];
        })
        return (record (to_allowed_decision mode correlation_id credential decision) {
          http_result = some http_result;
        })

  unfoldable pub execute_allowed_request :
      AccessMode
      → AuthContext
      → AccessRequestInput
      → CredentialRecord
      → PolicyDecision
      → String
      → Url
      → Option BreakGlassRequest
      → Exec World AccessDecision
  unfolding record_credential_use
  execute_allowed_request mode context input credential decision correlation_id target_url grant =
      do
        resolved ← (λ w. (host.resolve credential, w))
        http_result ←
            execute_proxy_request host config input target_url resolved.secret
              ((resolved.header_name, resolved.header_value) ∷ [])
        record_credential_use mode context input credential decision correlation_id target_url grant
            http_result

  -- The part of `requestAccess` after the approval was looked up.
  after_approval :
      AuthContext
      → AccessRequestInput
      → CredentialRecord
      → PolicyDecision
      → String
      → Url
      → Option ApprovalRequest
      → Exec World AccessDecision
  unfolding execute_allowed_request
  after_approval context input credential d id url (some approved) =
      execute_allowed_request AccessMode.live context input credential d id url none
  after_approval context input credential d id url none =
      if truthy input.break_glass_id
      then return (to_break_glass_denied_decision AccessMode.live id credential)
      else do
        approval ←
            Approvals.create_pending host config context input
              (record { reason = d.reason; rule_id = d.rule_id; correlation_id = id })
              credential.tenant_id
        return (to_approval_required_decision AccessMode.live id credential d (some approval.id))

  -- The part after the policy decision, with no break-glass grant.
  by_verdict :
      AuthContext
      → AccessRequestInput
      → CredentialRecord
      → PolicyDecision
      → String
      → Url
      → Verdict
      → Exec World AccessDecision
  unfolding after_approval
  by_verdict context input credential d id url Verdict.deny =
      if truthy input.break_glass_id
      then return (to_break_glass_denied_decision AccessMode.live id credential)
      else return (to_denied_decision AccessMode.live id credential d)
  by_verdict context input credential d id url Verdict.approval = do
    approved ← Approvals.verify_approval host config context input
    after_approval context input credential d id url approved
  by_verdict context input credential d id url Verdict.allow =
      execute_allowed_request AccessMode.live context input credential d id url none

  -- The part after the break-glass grant was looked up.
  after_grant :
      AuthContext
      → AccessRequestInput
      → CredentialRecord
      → PolicyDecision
      → String
      → Url
      → Option BreakGlassRequest
      → Exec World AccessDecision
  unfolding by_verdict
  after_grant context input credential d id url (some grant) = do
    BreakGlass.record_use host config context grant
    execute_allowed_request AccessMode.live context input credential emergency id url (some grant)
  after_grant context input credential d id url none =
      by_verdict context input credential d id url d.decision

  -- The part after a live evaluation; one that stopped early carries its decision.
  after_evaluation :
      AuthContext
      → AccessRequestInput
      → AccessDecision
      → String
      → Option CredentialRecord
      → Option PolicyDecision
      → Option Url
      → Exec World AccessDecision
  unfolding after_grant
  after_evaluation context input early id (some credential) (some d) (some url) = do
    grant ← BreakGlass.verify_active host config context input
    after_grant context input credential d id url grant
  after_evaluation context input early id _ _ _ = return early

  -- The same for `simulateAccess`, which sends and creates nothing.
  simulated_approval :
      AccessRequestInput
      → AccessMode
      → CredentialRecord
      → PolicyDecision
      → String
      → Option ApprovalRequest
      → AccessDecision
  simulated_approval input mode credential d id (some approved) =
      to_allowed_decision mode id credential d
  simulated_approval input mode credential d id none =
      if truthy input.break_glass_id
      then to_break_glass_denied_decision mode id credential
      else to_approval_required_decision mode id credential d none

  simulated_verdict :
      AuthContext
      → AccessRequestInput
      → AccessMode
      → CredentialRecord
      → PolicyDecision
      → String
      → Verdict
      → Exec World AccessDecision
  unfolding simulated_approval
  simulated_verdict context input mode credential d id Verdict.deny =
      if truthy input.break_glass_id
      then return (to_break_glass_denied_decision mode id credential)
      else return (to_denied_decision mode id credential d)
  simulated_verdict context input mode credential d id Verdict.approval = do
    approved ← Approvals.verify_approval host config context input
    return (simulated_approval input mode credential d id approved)
  simulated_verdict context input mode credential d id Verdict.allow =
      return (to_allowed_decision mode id credential d)

  simulated_grant :
      AuthContext
      → AccessRequestInput
      → AccessMode
      → CredentialRecord
      → PolicyDecision
      → String
      → Option BreakGlassRequest
      → Exec World AccessDecision
  unfolding simulated_verdict
  simulated_grant context input mode credential d id (some grant) =
      return (to_allowed_decision mode id credential emergency)
  simulated_grant context input mode credential d id none =
      simulated_verdict context input mode credential d id d.decision

  simulated_evaluation :
      AuthContext
      → AccessRequestInput
      → AccessMode
      → AccessDecision
      → String
      → Option CredentialRecord
      → Option PolicyDecision
      → Exec World AccessDecision
  unfolding simulated_grant
  simulated_evaluation context input mode early id (some credential) (some d) = do
    grant ← BreakGlass.verify_active host config context input
    simulated_grant context input mode credential d id grant
  simulated_evaluation context input mode early id _ _ = return early

  unfoldable pub simulate_access :
      AuthContext → AccessRequestInput → AccessMode → Exec World AccessDecision
  unfolding simulated_evaluation
  simulate_access context input mode = do
    e ← evaluate_access host config context input mode
    simulated_evaluation context input mode e.decision e.correlation_id e.credential
        e.policy_decision

  unfoldable pub request_access : AuthContext → AccessRequestInput → Exec World AccessDecision
  unfolding after_evaluation simulate_access
  request_access context input =
      if is_dry_run input.dry_run then simulate_access context input AccessMode.dry_run else do
        e ← evaluate_access host config context input AccessMode.live
        after_evaluation context input e.decision e.correlation_id e.credential e.policy_decision
            e.target_url
