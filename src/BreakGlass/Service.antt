-- ===== src/BreakGlass/Service.antt =====
-- The service of src/services/break-glass-service.ts.
pub mod Methods
use Prim.Native.String.{count}
use keylore.Prelude.{
  ℕ, suc, ◌+◌, ◌*◌, min, String, Bool, true, false, not, Option, none, some, List, [], ◌∷◌, ◌&&◌,
  ◌==◌, leb, if◌then◌else◌, truthy, or_else, ◌+++◌,
}
use keylore.Exec.{Result, ok, thrown, Exec, ◌>>=◌, ◌>>◌, return, throw, gets}
use keylore.Domain.{AuthContext, operation_text}
use keylore.Domain.Access.{AccessRequestInput, tenant_allowed}
use keylore.Domain.Reviews.{BreakGlassStatus, BreakGlassRequest, BreakGlassInput}
use keylore.Domain.Config.{KeyLoreConfig}
use keylore.Egress.{Url}
use keylore.World.{World, Json, text, number, Outcome}
use keylore.World.Host.{Host, random_uuid}
use keylore.Audit.{record_event}
use keylore.Notifications.{send}
use keylore.Fingerprint.{access_fingerprint}
use keylore.Approvals.Service.{or_null, new_url}
use keylore.BreakGlass.Table as Table
use keylore.BreakGlass.Table.{Ruling, ReviewUpdate, is_active}

abbrev status_text : BreakGlassStatus → String
status_text BreakGlassStatus.pending = "pending"
status_text BreakGlassStatus.active = "active"
status_text BreakGlassStatus.denied = "denied"
status_text BreakGlassStatus.expired = "expired"
status_text BreakGlassStatus.revoked = "revoked"

abbrev ruling_text : Ruling → String
ruling_text Ruling.active = "active"
ruling_text Ruling.denied = "denied"

abbrev ruling_action : Ruling → String
ruling_action Ruling.active = "breakglass.approve"
ruling_action Ruling.denied = "breakglass.deny"

abbrev ruling_outcome : Ruling → Outcome
ruling_outcome Ruling.active = Outcome.allowed
ruling_outcome Ruling.denied = Outcome.denied

-- The row reached active or denied.
abbrev is_decided : BreakGlassStatus → Bool
is_decided BreakGlassStatus.active = true
is_decided BreakGlassStatus.denied = true
is_decided _ = false

abbrev on_requests :
    {A : Type 0} → (List BreakGlassRequest → Result A × List BreakGlassRequest) → Exec World A
on_requests statement w =
    let (r, table) = statement w.break_glass in (r, record w { break_glass = table })

unfoldable pub expire_stale : Exec World Unit
expire_stale w = (ok tt, record w { break_glass = Table.expire_stale w.now w.break_glass })

insert : BreakGlassRequest → Exec World BreakGlassRequest
insert request = on_requests (Table.create request)

-- `breakGlassRequestInputSchema`, beyond the format of the URL
abbrev duration_fits : Option ℕ → Bool
duration_fits none = true
duration_fits (some seconds) = leb 60 seconds && leb seconds 86400

unfoldable pub parse_input : BreakGlassInput → Result BreakGlassInput
parse_input input =
    if not (input.credential_id == "")
      && leb 12 (count input.justification)
      && leb (count input.justification) 2000
      && duration_fits input.requested_duration_seconds
    then ok input
    else thrown "ZodError"

-- The request that a fingerprint is taken of: a break-glass input has no headers and no payload.
abbrev pub as_access : BreakGlassInput → AccessRequestInput
as_access input = record {
  credential_id = input.credential_id;
  operation = input.operation;
  target_url = input.target_url;
  headers = none;
  payload = none;
  approval_id = none;
  break_glass_id = none;
  dry_run = none;
}

-- `existing && context.tenantId && existing.tenantId !== context.tenantId`
abbrev foreign : AuthContext → Option BreakGlassRequest → Bool
foreign context none = false
foreign context (some existing) = not (tenant_allowed context.tenant_id existing.tenant_id)

module _ (host : Host) (config : KeyLoreConfig) where
  -- Nobody gets more time than the configured maximum.
  abbrev pub granted_seconds : BreakGlassInput → ℕ
  granted_seconds input =
      min (or_else input.requested_duration_seconds config.breakglass_max_duration_seconds)
        config.breakglass_max_duration_seconds

  pending_request :
      AuthContext → BreakGlassInput → String → String → String → Url → ℕ → BreakGlassRequest
  pending_request context input tenant_id id correlation_id url now = record {
    id = id;
    tenant_id = tenant_id;
    created_at = now;
    expires_at = now + granted_seconds input * 1000;
    status = BreakGlassStatus.pending;
    requested_by = context.principal;
    requested_roles = context.roles;
    credential_id = input.credential_id;
    operation = input.operation;
    target_url = input.target_url;
    target_host = url.hostname;
    justification = input.justification;
    requested_duration_seconds = granted_seconds input;
    correlation_id = correlation_id;
    fingerprint = access_fingerprint host context (as_access input);
    required_approvals = config.breakglass_review_quorum;
    approval_count = 0;
    denial_count = 0;
    reviews = [];
    reviewed_by = none;
    reviewed_at = none;
    review_note = none;
    revoked_by = none;
    revoked_at = none;
    revoke_note = none;
  }

  announce_request : AuthContext → String → BreakGlassRequest → Exec World Unit
  announce_request context tenant_id created = do
    record_event host (record {
      tenant_id = some tenant_id;
      type = "breakglass.request";
      action = "breakglass.request";
      outcome = Outcome.success;
      principal = context.principal;
      correlation_id = some created.correlation_id;
      metadata =
          ("breakGlassId", text created.id)
          ∷ ("tenantId", text tenant_id)
          ∷ ("credentialId", text created.credential_id)
          ∷ ("operation", text (operation_text created.operation))
          ∷ ("targetHost", text created.target_host)
          ∷ ("requestedDurationSeconds", number created.requested_duration_seconds)
          ∷ ("requiredApprovals", number created.required_approvals)
          ∷ [];
    })
    send host config "breakglass.pending" (
        ("breakGlassId", text created.id)
        ∷ ("credentialId", text created.credential_id)
        ∷ ("requestedBy", text created.requested_by)
        ∷ ("requiredApprovals", number created.required_approvals)
        ∷ ("targetHost", text created.target_host)
        ∷ [])

  unfoldable pub create_request :
      AuthContext → BreakGlassInput → String → Exec World BreakGlassRequest
  unfolding insert announce_request pending_request parse_input
  create_request context input tenant_id = do
    parsed ← (λ w. (parse_input input, w))
    id ← random_uuid host
    now ← gets (λ w. w.now)
    url ← new_url host parsed.target_url
    correlation_id ← random_uuid host
    created ← insert (pending_request context parsed tenant_id id correlation_id url now)
    announce_request context tenant_id created
    return created

  -- The tests on the row that a break-glass identifier names.
  abbrev pub is_grant : AuthContext → AccessRequestInput → ℕ → BreakGlassRequest → Bool
  is_grant context input now request =
      is_active request.status
      && tenant_allowed context.tenant_id request.tenant_id
      && not (leb request.expires_at now)
      && request.fingerprint == access_fingerprint host context input

  unfoldable pub find_grant :
      AuthContext → AccessRequestInput → ℕ → List BreakGlassRequest → Option BreakGlassRequest
  find_grant context input now table =
      if not (truthy input.break_glass_id)
      then none
      else elim (Table.get_by_id (or_else input.break_glass_id "") table) [
        | none ↦ none
        | some request ↦ if is_grant context input now request then some request else none
      ]

  unfoldable pub verify_active :
      AuthContext → AccessRequestInput → Exec World (Option BreakGlassRequest)
  unfolding expire_stale find_grant
  verify_active context input = do
    expire_stale
    gets (λ w. find_grant context input w.now w.break_glass)

  -- The caller's tenant replaces that of the filter.
  unfoldable pub list : AuthContext → Table.Filter → Exec World (List BreakGlassRequest)
  unfolding expire_stale
  list context wanted = do
    expire_stale
    gets (λ w. Table.list (record wanted { tenant_id = context.tenant_id }) w.break_glass)

  announce_review : AuthContext → ReviewUpdate → BreakGlassRequest → Exec World Unit
  announce_review context update reviewed = do
    record_event host (record {
      tenant_id = some reviewed.tenant_id;
      type = "breakglass.review";
      action = ruling_action update.status;
      outcome = ruling_outcome update.status;
      principal = context.principal;
      correlation_id = some reviewed.correlation_id;
      metadata =
          ("breakGlassId", text reviewed.id)
          ∷ ("tenantId", text reviewed.tenant_id)
          ∷ ("credentialId", text reviewed.credential_id)
          ∷ ("requestedBy", text reviewed.requested_by)
          ∷ ("reviewNote", or_null reviewed.review_note)
          ∷ ("approvalCount", number reviewed.approval_count)
          ∷ ("denialCount", number reviewed.denial_count)
          ∷ ("requiredApprovals", number reviewed.required_approvals)
          ∷ ("currentStatus", text (status_text reviewed.status))
          ∷ [];
    })
    send host config "breakglass.reviewed" (
        ("breakGlassId", text reviewed.id)
        ∷ ("credentialId", text reviewed.credential_id)
        ∷ ("requestedBy", text reviewed.requested_by)
        ∷ ("reviewer", text context.principal)
        ∷ ("decision", text (ruling_text update.status))
        ∷ ("currentStatus", text (status_text reviewed.status))
        ∷ ("approvalCount", number reviewed.approval_count)
        ∷ ("denialCount", number reviewed.denial_count)
        ∷ ("requiredApprovals", number reviewed.required_approvals)
        ∷ [])
    if is_decided reviewed.status
        then send host config ("breakglass." +++ status_text reviewed.status) (
            ("breakGlassId", text reviewed.id)
            ∷ ("credentialId", text reviewed.credential_id)
            ∷ ("requestedBy", text reviewed.requested_by)
            ∷ ("approvalCount", number reviewed.approval_count)
            ∷ ("denialCount", number reviewed.denial_count)
            ∷ ("requiredApprovals", number reviewed.required_approvals)
            ∷ [])
        else return tt

  announce_if_taken : AuthContext → ReviewUpdate → Option BreakGlassRequest → Exec World Unit
  unfolding announce_review
  announce_if_taken context update none = return tt
  announce_if_taken context update (some reviewed) = announce_review context update reviewed

  -- Only a review that is taken draws an identifier.
  abbrev drawn_after : Result (Option BreakGlassRequest) → ℕ → ℕ
  drawn_after (ok (some reviewed)) n = suc n
  drawn_after _ n = n

  take_review : String → ReviewUpdate → Exec World (Option BreakGlassRequest)
  take_review id update w =
      let (r, table) = Table.review w.now (host.uuid w.drawn) id update w.break_glass in
      (r, record w { break_glass = table; drawn = drawn_after r w.drawn })

  unfoldable pub review :
      String → AuthContext → Ruling → Option String → Exec World (Option BreakGlassRequest)
  unfolding expire_stale take_review announce_if_taken
  review id context status note = do
    expire_stale
    existing ← gets (λ w. Table.get_by_id id w.break_glass)
    if foreign context existing then throw "Tenant access denied." else do
      let update : ReviewUpdate = record {
        status = status;
        reviewed_by = context.principal;
        review_note = note;
      }
      reviewed ← take_review id update
      announce_if_taken context update reviewed
      return reviewed

  announce_revocation : AuthContext → BreakGlassRequest → Exec World Unit
  announce_revocation context revoked = do
    record_event host (record {
      tenant_id = some revoked.tenant_id;
      type = "breakglass.review";
      action = "breakglass.revoke";
      outcome = Outcome.denied;
      principal = context.principal;
      correlation_id = some revoked.correlation_id;
      metadata =
          ("breakGlassId", text revoked.id)
          ∷ ("tenantId", text revoked.tenant_id)
          ∷ ("credentialId", text revoked.credential_id)
          ∷ ("requestedBy", text revoked.requested_by)
          ∷ ("revokeNote", or_null revoked.revoke_note)
          ∷ [];
    })
    send host config "breakglass.revoked" (
        ("breakGlassId", text revoked.id)
        ∷ ("credentialId", text revoked.credential_id)
        ∷ ("requestedBy", text revoked.requested_by)
        ∷ ("revokedBy", text context.principal)
        ∷ [])

  announce_if_revoked : AuthContext → Option BreakGlassRequest → Exec World Unit
  unfolding announce_revocation
  announce_if_revoked context none = return tt
  announce_if_revoked context (some revoked) = announce_revocation context revoked

  take_revocation : String → String → Option String → Exec World (Option BreakGlassRequest)
  take_revocation id revoked_by note w =
      let (r, table) = Table.revoke w.now id revoked_by note w.break_glass in
      (r, record w { break_glass = table })

  unfoldable pub revoke :
      String → AuthContext → Option String → Exec World (Option BreakGlassRequest)
  unfolding expire_stale take_revocation announce_if_revoked
  revoke id context note = do
    expire_stale
    existing ← gets (λ w. Table.get_by_id id w.break_glass)
    if foreign context existing then throw "Tenant access denied." else do
      revoked ← take_revocation id context.principal note
      announce_if_revoked context revoked
      return revoked

  unfoldable pub record_use : AuthContext → BreakGlassRequest → Exec World Unit
  record_use context request = record_event host (record {
    tenant_id = some request.tenant_id;
    type = "breakglass.use";
    action = "breakglass.use";
    outcome = Outcome.allowed;
    principal = context.principal;
    correlation_id = some request.correlation_id;
    metadata =
        ("breakGlassId", text request.id)
        ∷ ("tenantId", text request.tenant_id)
        ∷ ("credentialId", text request.credential_id)
        ∷ ("targetHost", text request.target_host)
        ∷ [];
  })
