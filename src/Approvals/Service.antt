-- ===== src/Approvals/Service.antt =====
-- The service of src/services/approval-service.ts.
pub mod Methods
use keylore.Prelude.{
  ℕ, suc, ◌+◌, ◌*◌, String, Bool, true, false, not, Option, none, some, List, [], ◌∷◌, ◌&&◌, ◌||◌,
  ◌==◌, leb, if◌then◌else◌, truthy, or_else, ◌+++◌,
}
use keylore.Exec.{Result, ok, thrown, Exec, ◌>>=◌, ◌>>◌, return, throw, gets, modify, lift}
use keylore.Domain.{AuthContext, operation_text}
use keylore.Domain.Access.{AccessRequestInput, tenant_allowed}
use keylore.Domain.Reviews.{ReviewDecision, ApprovalStatus, ApprovalRequest}
use keylore.Domain.Config.{KeyLoreConfig}
use keylore.Egress.{Url}
use keylore.World.{World, Json, null, text, number, Outcome}
use keylore.World.Host.{Host, random_uuid}
use keylore.Audit.{record_event}
use keylore.Notifications.{send}
use keylore.Fingerprint.{access_fingerprint}
use keylore.Approvals.Table as Table
use keylore.Approvals.Table.{ReviewUpdate, is_approved, is_pending, is_approval}

abbrev pub or_null : Option String → Json
or_null none = null
or_null (some s) = text s

-- `decision` of `createPending`
pub record PendingDecision : Type 0 where
  pub reason : String
  pub rule_id : Option String
  pub correlation_id : String

abbrev pub status_text : ApprovalStatus → String
status_text ApprovalStatus.pending = "pending"
status_text ApprovalStatus.approved = "approved"
status_text ApprovalStatus.denied = "denied"
status_text ApprovalStatus.expired = "expired"

abbrev pub decision_text : ReviewDecision → String
decision_text ReviewDecision.approved = "approved"
decision_text ReviewDecision.denied = "denied"

-- The row reached approved or denied.
abbrev is_final : ApprovalStatus → Bool
is_final ApprovalStatus.approved = true
is_final ApprovalStatus.denied = true
is_final _ = false

-- A statement of the repository, run on the shared state.
abbrev pub on_approvals :
    {A : Type 0} → (List ApprovalRequest → Result A × List ApprovalRequest) → Exec World A
on_approvals statement w =
    let (r, table) = statement w.approvals in (r, record w { approvals = table })

-- `new URL(text)`
abbrev pub new_url : Host → String → Exec World Url
new_url host raw w = elim (host.parse_url raw) [
  | none ↦ (thrown "Invalid URL", w)
  | some url ↦ (ok url, w)
]

unfoldable pub expire_stale : Exec World Unit
expire_stale w = (ok tt, record w { approvals = Table.expire_stale w.now w.approvals })

pub insert : ApprovalRequest → Exec World ApprovalRequest
insert request = on_approvals (Table.create request)

module _ (host : Host) (config : KeyLoreConfig) where
  pending_request :
      AuthContext
      → AccessRequestInput
      → PendingDecision
      → String
      → String
      → Url
      → ℕ
      → ApprovalRequest
  pending_request context input decision tenant_id id url now = record {
    id = id;
    tenant_id = tenant_id;
    created_at = now;
    expires_at = now + config.approval_ttl_seconds * 1000;
    status = ApprovalStatus.pending;
    requested_by = context.principal;
    requested_roles = context.roles;
    credential_id = input.credential_id;
    operation = input.operation;
    target_url = input.target_url;
    target_host = url.hostname;
    reason = decision.reason;
    rule_id = decision.rule_id;
    correlation_id = decision.correlation_id;
    fingerprint = access_fingerprint host context input;
    required_approvals = config.approval_review_quorum;
    approval_count = 0;
    denial_count = 0;
    reviews = [];
    reviewed_by = none;
    reviewed_at = none;
    review_note = none;
  }

  announce_pending : AuthContext → PendingDecision → String → ApprovalRequest → Exec World Unit
  announce_pending context decision tenant_id created = do
    record_event host (record {
      tenant_id = some tenant_id;
      type = "approval.request";
      action = "approval.request";
      outcome = Outcome.success;
      principal = context.principal;
      correlation_id = some decision.correlation_id;
      metadata =
          ("approvalId", text created.id)
          ∷ ("tenantId", text tenant_id)
          ∷ ("credentialId", text created.credential_id)
          ∷ ("operation", text (operation_text created.operation))
          ∷ ("targetHost", text created.target_host)
          ∷ ("ruleId", or_null created.rule_id)
          ∷ ("requiredApprovals", number created.required_approvals)
          ∷ [];
    })
    send host config "approval.pending" (
        ("approvalId", text created.id)
        ∷ ("credentialId", text created.credential_id)
        ∷ ("requestedBy", text created.requested_by)
        ∷ ("requiredApprovals", number created.required_approvals)
        ∷ ("targetHost", text created.target_host)
        ∷ [])

  unfoldable pub create_pending :
      AuthContext → AccessRequestInput → PendingDecision → String → Exec World ApprovalRequest
  unfolding insert announce_pending pending_request
  create_pending context input decision tenant_id = do
    id ← random_uuid host
    now ← gets (λ w. w.now)
    url ← new_url host input.target_url
    created ← insert (pending_request context input decision tenant_id id url now)
    announce_pending context decision tenant_id created
    return created

  -- The tests on the row that an approval identifier names.
  abbrev pub is_grant : AuthContext → AccessRequestInput → ℕ → ApprovalRequest → Bool
  is_grant context input now approval =
      is_approved approval.status
      && tenant_allowed context.tenant_id approval.tenant_id
      && not (leb approval.expires_at now)
      && approval.fingerprint == access_fingerprint host context input

  unfoldable pub find_grant :
      AuthContext → AccessRequestInput → ℕ → List ApprovalRequest → Option ApprovalRequest
  find_grant context input now table =
      if not (truthy input.approval_id)
      then none
      else elim (Table.get_by_id (or_else input.approval_id "") table) [
        | none ↦ none
        | some approval ↦ if is_grant context input now approval then some approval else none
      ]

  unfoldable pub verify_approval :
      AuthContext → AccessRequestInput → Exec World (Option ApprovalRequest)
  unfolding expire_stale find_grant
  verify_approval context input = do
    expire_stale
    gets (λ w. find_grant context input w.now w.approvals)

  unfoldable pub list : AuthContext → Option ApprovalStatus → Exec World (List ApprovalRequest)
  unfolding expire_stale
  list context status = do expire_stale; gets (λ w. Table.list status context.tenant_id w.approvals)

  -- The audit record and the notifications of a review that was taken.
  announce_review : AuthContext → ReviewUpdate → ApprovalRequest → Exec World Unit
  announce_review context update reviewed = do
    record_event host (record {
      tenant_id = some reviewed.tenant_id;
      type = "approval.review";
      action = "approval." +++ decision_text update.status;
      outcome = if is_approval update.status then Outcome.allowed else Outcome.denied;
      principal = context.principal;
      correlation_id = some reviewed.correlation_id;
      metadata =
          ("approvalId", text reviewed.id)
          ∷ ("tenantId", text reviewed.tenant_id)
          ∷ ("credentialId", text reviewed.credential_id)
          ∷ ("requestedBy", text reviewed.requested_by)
          ∷ ("reviewNote", or_null reviewed.review_note)
          ∷ ("approvalCount", number reviewed.approval_count)
          ∷ ("denialCount", number reviewed.denial_count)
          ∷ ("requiredApprovals", number reviewed.required_approvals)
          ∷ ("currentStatus", text (status_text reviewed.status))
          ∷ [];
    })
    send host config "approval.reviewed" (
        ("approvalId", text reviewed.id)
        ∷ ("credentialId", text reviewed.credential_id)
        ∷ ("requestedBy", text reviewed.requested_by)
        ∷ ("reviewer", text context.principal)
        ∷ ("decision", text (decision_text update.status))
        ∷ ("currentStatus", text (status_text reviewed.status))
        ∷ ("approvalCount", number reviewed.approval_count)
        ∷ ("denialCount", number reviewed.denial_count)
        ∷ ("requiredApprovals", number reviewed.required_approvals)
        ∷ [])
    if is_final reviewed.status
        then send host config ("approval." +++ status_text reviewed.status) (
            ("approvalId", text reviewed.id)
            ∷ ("credentialId", text reviewed.credential_id)
            ∷ ("requestedBy", text reviewed.requested_by)
            ∷ ("approvalCount", number reviewed.approval_count)
            ∷ ("denialCount", number reviewed.denial_count)
            ∷ ("requiredApprovals", number reviewed.required_approvals)
            ∷ [])
        else return tt

  announce_if_taken : AuthContext → ReviewUpdate → Option ApprovalRequest → Exec World Unit
  unfolding announce_review
  announce_if_taken context update none = return tt
  announce_if_taken context update (some reviewed) = announce_review context update reviewed

  -- `existing && context.tenantId && existing.tenantId !== context.tenantId`
  abbrev pub foreign : AuthContext → Option ApprovalRequest → Bool
  foreign context none = false
  foreign context (some existing) = not (tenant_allowed context.tenant_id existing.tenant_id)

  -- Only a review that is taken draws an identifier.
  abbrev drawn_after : Result (Option ApprovalRequest) → ℕ → ℕ
  drawn_after (ok (some reviewed)) n = suc n
  drawn_after _ n = n

  pub take_review : String → ReviewUpdate → Exec World (Option ApprovalRequest)
  take_review id update w =
      let (r, table) = Table.review w.now (host.uuid w.drawn) id update w.approvals in
      (r, record w { approvals = table; drawn = drawn_after r w.drawn })

  unfoldable pub review :
      String → AuthContext → ReviewDecision → Option String → Exec World (Option ApprovalRequest)
  unfolding expire_stale take_review announce_if_taken
  review id context status note = do
    expire_stale
    existing ← gets (λ w. Table.get_by_id id w.approvals)
    if foreign context existing then throw "Tenant access denied." else do
      let update : ReviewUpdate = record {
        status = status;
        reviewed_by = context.principal;
        review_note = note;
      }
      reviewed ← take_review id update
      announce_if_taken context update reviewed
      return reviewed
