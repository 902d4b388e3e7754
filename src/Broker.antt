-- ===== src/Broker.antt =====
-- The access path of src/services/broker-service.ts: evaluation, live requests and simulations.
pub mod Proxy
pub mod Access
pub mod Evaluate
mod Tests
use keylore.Prelude.{
  ℕ, String, Bool, true, false, not, Option, none, some, List, [], ◌∷◌, ◌||◌, ◌==◌, if◌then◌else◌,
  find, filter, truthy, or_else,
}
use keylore.Exec.{Result, ok, thrown, Exec, ◌>>=◌, ◌>>◌, return, throw, gets}
use keylore.Domain.{AuthContext, CredentialRecord, CredentialSummary, PolicyRule, operation_text}
use keylore.Domain.Access.{
  AccessRequestInput, AccessMode, live, AccessVerdict, AccessDecision, HttpResult, tenant_allowed,
}
use keylore.Domain.Reviews.{ApprovalRequest, BreakGlassRequest, BreakGlassInput}
use keylore.Domain.Config.{KeyLoreConfig}
use keylore.Policy.{Verdict, PolicyDecision, evaluate}
use keylore.Egress.{Url, validate_egress_target}
use keylore.World.{World, Json, text, number, flag, Outcome}
use keylore.World.Host.{Host, random_uuid}
use keylore.Audit.{RecordAuditInput, record_event}
use keylore.Approvals.Service as Approvals
use keylore.Approvals.Service.{or_null}
use keylore.BreakGlass.Service as BreakGlass
use keylore.Broker.Proxy.{execute_proxy_request}

abbrev mode_text : AccessMode → String
mode_text AccessMode.live = "live"
mode_text AccessMode.dry_run = "dry_run"
mode_text AccessMode.simulation = "simulation"

abbrev action_of : AccessMode → String
action_of AccessMode.live = "access.request"
action_of AccessMode.dry_run = "access.dry_run"
action_of AccessMode.simulation = "access.simulate"

abbrev is_dry : AccessMode → Bool
is_dry AccessMode.live = false
is_dry _ = true

abbrev verdict_outcome : Verdict → Outcome
verdict_outcome Verdict.allow = Outcome.allowed
verdict_outcome _ = Outcome.denied

-- What `evaluateAccess` returns.
pub record Evaluation : Type 0 where
  pub correlation_id : String
  pub credential : Option CredentialRecord
  pub decision : AccessDecision
  pub policy_decision : Option PolicyDecision
  pub target_url : Option Url

abbrev pub get_credential_by_id : String → List CredentialRecord → Option CredentialRecord
get_credential_by_id id table = find (λ (c : CredentialRecord). c.id == id) table

-- A decision about a credential; the optional fields are filled where the code has them.
abbrev pub decide :
    AccessVerdict
    → AccessMode
    → String
    → String
    → Option CredentialSummary
    → Option String
    → AccessDecision
decide verdict mode reason correlation_id credential rule_id = record {
  decision = verdict;
  mode = mode;
  reason = reason;
  correlation_id = correlation_id;
  credential = credential;
  rule_id = rule_id;
  http_result = none;
  approval_request_id = none;
}

abbrev pub to_allowed_decision :
    AccessMode → String → CredentialRecord → PolicyDecision → AccessDecision
to_allowed_decision mode id credential d =
    decide AccessVerdict.allowed mode d.reason id (some credential.summary) d.rule_id

abbrev pub to_denied_decision :
    AccessMode → String → CredentialRecord → PolicyDecision → AccessDecision
to_denied_decision mode id credential d =
    decide AccessVerdict.denied mode d.reason id (some credential.summary) d.rule_id

abbrev pub to_break_glass_denied_decision : AccessMode → String → CredentialRecord → AccessDecision
to_break_glass_denied_decision mode id credential =
    decide AccessVerdict.denied mode
      "Break-glass grant is invalid, expired, or does not match this request." id
      (some credential.summary) none

abbrev pub to_approval_required_decision :
    AccessMode → String → CredentialRecord → PolicyDecision → Option String → AccessDecision
to_approval_required_decision mode id credential d approval_id =
    record (decide AccessVerdict.approval_required mode d.reason id (some credential.summary)
      d.rule_id) { approval_request_id = approval_id }

abbrev pub emergency : PolicyDecision
emergency = record {
  decision = Verdict.allow;
  reason = "Emergency break-glass grant is active.";
  rule_id = none;
}

-- The tenant of a record about a credential that may be missing.
abbrev tenant_of : AuthContext → Option CredentialRecord → Option String
tenant_of context none = context.tenant_id
tenant_of context (some credential) = some credential.tenant_id

module _ (host : Host) (config : KeyLoreConfig) where
  -- The branches of `evaluateAccess`: the audit record that is written, and what is returned.
  assess_unseen :
      AuthContext
      → AccessRequestInput
      → AccessMode
      → String
      → Option CredentialRecord
      → RecordAuditInput × Evaluation
  assess_unseen context input mode id found = (
    record {
      tenant_id = tenant_of context found;
      type = "authz.decision";
      action = action_of mode;
      outcome = Outcome.denied;
      principal = context.principal;
      correlation_id = some id;
      metadata =
          ("tenantId", or_null (tenant_of context found))
          ∷ ("credentialId", text input.credential_id)
          ∷ ("reason", text "Credential not found.")
          ∷ ("mode", text (mode_text mode))
          ∷ [];
    },
    record {
      correlation_id = id;
      credential = none;
      decision = decide AccessVerdict.denied mode "Credential not found." id none none;
      policy_decision = none;
      target_url = none;
    },
  )

  assess_blocked :
      AuthContext
      → AccessRequestInput
      → AccessMode
      → String
      → CredentialRecord
      → String
      → RecordAuditInput × Evaluation
  assess_blocked context input mode id credential reason = (
    record {
      tenant_id = some credential.tenant_id;
      type = "authz.decision";
      action = action_of mode;
      outcome = Outcome.denied;
      principal = context.principal;
      correlation_id = some id;
      metadata =
          ("tenantId", text credential.tenant_id)
          ∷ ("credentialId", text credential.id)
          ∷ ("operation", text (operation_text input.operation))
          ∷ ("targetUrl", text input.target_url)
          ∷ ("reason", text reason)
          ∷ ("mode", text (mode_text mode))
          ∷ ("dryRun", flag (is_dry mode))
          ∷ [];
    },
    record {
      correlation_id = id;
      credential = some credential;
      decision = decide AccessVerdict.denied mode reason id (some credential.summary) none;
      policy_decision = none;
      target_url = none;
    },
  )

  assess_policy :
      AuthContext
      → AccessRequestInput
      → AccessMode
      → String
      → CredentialRecord
      → Url
      → PolicyDecision
      → RecordAuditInput × Evaluation
  assess_policy context input mode id credential url d = (
    record {
      tenant_id = some credential.tenant_id;
      type = "authz.decision";
      action = action_of mode;
      outcome = verdict_outcome d.decision;
      principal = context.principal;
      correlation_id = some id;
      metadata =
          ("tenantId", text credential.tenant_id)
          ∷ ("credentialId", text credential.id)
          ∷ ("operation", text (operation_text input.operation))
          ∷ ("targetHost", text url.hostname)
          ∷ ("ruleId", or_null d.rule_id)
          ∷ ("reason", text d.reason)
          ∷ ("mode", text (mode_text mode))
          ∷ ("dryRun", flag (is_dry mode))
          ∷ [];
    },
    record {
      correlation_id = id;
      credential = some credential;
      decision = to_allowed_decision mode id credential d;
      policy_decision = some d;
      target_url = some url;
    },
  )

  -- The policy decision, over the rules of the credential's tenant only.
  unfoldable pub policy_decision :
      World → AuthContext → AccessRequestInput → CredentialRecord → Url → PolicyDecision
  policy_decision w context input credential url =
      evaluate host.lower w.now
        (filter (λ (rule : PolicyRule). rule.tenant_id == credential.tenant_id) w.policies)
        context.principal context.roles credential (operation_text input.operation) url.hostname
        config.environment

  assess_target :
      AuthContext
      → AccessRequestInput
      → AccessMode
      → String
      → CredentialRecord
      → World
      → RecordAuditInput × Evaluation
  unfolding assess_blocked assess_policy
  assess_target context input mode id credential w =
      elim (validate_egress_target host.platform config input.target_url) [
        | thrown reason ↦ assess_blocked context input mode id credential reason
        | ok url ↦
            assess_policy context input mode id credential url
              (policy_decision w context input credential url)
      ]

  unfoldable pub assess :
      AuthContext → AccessRequestInput → AccessMode → String → World → RecordAuditInput × Evaluation
  unfolding assess_unseen assess_target
  assess context input mode id w = elim (get_credential_by_id input.credential_id w.credentials) [
    | none ↦ assess_unseen context input mode id none
    | some credential ↦
        if tenant_allowed context.tenant_id credential.tenant_id
        then assess_target context input mode id credential w
        else assess_unseen context input mode id (some credential)
  ]

  unfoldable pub evaluate_access :
      AuthContext → AccessRequestInput → AccessMode → Exec World Evaluation
  unfolding assess
  evaluate_access context input mode = do
    id ← random_uuid host
    assessed ← gets (assess context input mode id)
    record_event host assessed.0
    return assessed.1
