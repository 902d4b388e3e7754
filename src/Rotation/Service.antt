-- ===== src/Rotation/Service.antt =====
-- The service of src/services/rotation-service.ts.
use Prim.Native.String.{count}
use keylore.Prelude.{
  ℕ, String, Bool, true, false, not, leb, Option, none, some, List, [], ◌∷◌, ◌&&◌, ◌==◌,
  if◌then◌else◌, is_some, or_else, truthy,
}
use keylore.Exec.{ok, Exec, ◌>>=◌, ◌>>◌, return, gets, demand, existing}
use keylore.Domain.{AuthContext, Binding, CredentialRecord}
use keylore.Domain.Access.{tenant_allowed}
use keylore.Domain.Config.{KeyLoreConfig}
use keylore.Domain.Rotation.{
  RotationStatus, RotationSource, RotationRun, RotationCompleteInput, RotationCreateInput,
  CredentialPatch,
}
use keylore.World.{World, Json, null, text, number, Outcome}
use keylore.World.Host.{Host, random_uuid, current_time}
use keylore.Audit.{record_event}
use keylore.Notifications.{send}
use keylore.Approvals.Service.{or_null}
use keylore.Rotation.Table as Table
use keylore.Rotation.Table.{Transition, is_open, is_waiting}
use keylore.Rotation.Credentials as Credentials

abbrev pub source_text : RotationSource → String
source_text RotationSource.manual = "manual"
source_text RotationSource.catalog_expiry = "catalog_expiry"
source_text RotationSource.secret_expiry = "secret_expiry"
source_text RotationSource.secret_rotation_window = "secret_rotation_window"

abbrev time_or_null : Option ℕ → Json
time_or_null none = null
time_or_null (some t) = number t

unfoldable pub get_run : String → Exec World (Option RotationRun)
get_run id = gets (λ w. Table.get_by_id id w.rotations)

unfoldable pub find_open : String → Exec World (Option RotationRun)
find_open credential_id = gets (λ w. Table.find_open_by_credential_id credential_id w.rotations)

unfoldable pub get_credential : String → Exec World (Option CredentialRecord)
get_credential id = gets (λ w. Credentials.get_by_id id w.credentials)

unfoldable pub insert_run : RotationRun → Exec World RotationRun
insert_run run w =
    let (r, table) = Table.create run w.rotations in (r, record w { rotations = table })

unfoldable pub move_run : String → Transition → Exec World (Option RotationRun)
move_run id update w =
    let (r, table) = Table.transition w.now id update w.rotations in
    (ok r, record w { rotations = table })

-- `existing && !tenantAllowed(context, existing.tenantId)`
abbrev pub foreign : AuthContext → Option RotationRun → Bool
foreign context none = false
foreign context (some r) = not (tenant_allowed context.tenant_id r.tenant_id)

module _ (host : Host) (config : KeyLoreConfig) where
  unfoldable pub update_credential : String → CredentialPatch → Exec World CredentialRecord
  update_credential id patch w =
      let (r, table) = Credentials.update host id patch w.credentials in
      (r, record w { credentials = table })

  abbrev audit_run :
      String → Outcome → AuthContext → RotationRun → List (String × Json) → Exec World Unit
  audit_run action outcome actor run details = record_event host (record {
    tenant_id = some run.tenant_id;
    type = "rotation.run";
    action = action;
    outcome = outcome;
    principal = actor.principal;
    correlation_id = none;
    metadata =
        ("rotationId", text run.id)
        ∷ ("tenantId", text run.tenant_id)
        ∷ ("credentialId", text run.credential_id)
        ∷ details;
  })

  unfoldable pub create_run : RotationRun → AuthContext → Exec World RotationRun
  create_run input actor = do
    created ← insert_run input
    audit_run "rotation.create" Outcome.success actor created (
        ("source", text (source_text created.source)) ∷ ("dueAt", time_or_null created.due_at) ∷ [])
    send host config "rotation.created" (
        ("rotationId", text created.id)
        ∷ ("credentialId", text created.credential_id)
        ∷ ("source", text (source_text created.source))
        ∷ ("dueAt", time_or_null created.due_at)
        ∷ [])
    return created

  -- A pending run for a credential.
  abbrev pub new_run :
      String
      → CredentialRecord
      → RotationSource
      → String
      → Option ℕ
      → ℕ
      → String
      → Option String
      → RotationRun
  new_run id credential source reason due_at now principal note = record {
    id = id;
    tenant_id = credential.tenant_id;
    credential_id = credential.id;
    status = RotationStatus.pending;
    source = source;
    reason = reason;
    due_at = due_at;
    planned_at = now;
    started_at = none;
    completed_at = none;
    planned_by = principal;
    updated_by = principal;
    note = note;
    target_ref = none;
    result_note = none;
  }

  abbrev short : Option String → Bool
  short none = true
  short (some s) = leb (count s) 2000

  -- What `rotationCreateInputSchema` asks.
  unfoldable pub fits_create : RotationCreateInput → Bool
  fits_create input =
      not (input.credential_id == "")
      && leb 8 (count input.reason)
      && leb (count input.reason) 2000
      && short input.note

  unfoldable pub create_manual : AuthContext → RotationCreateInput → Exec World RotationRun
  create_manual context input = do
    demand (fits_create input) "ZodError"
    found ← get_credential input.credential_id
    credential ← existing found "Credential not found."
    demand (tenant_allowed context.tenant_id credential.tenant_id) "Tenant access denied."
    current ← find_open input.credential_id
    demand (not (is_some current)) "An open rotation already exists for this credential."
    id ← random_uuid host
    now ← current_time
    create_run
        (new_run id credential RotationSource.manual input.reason input.due_at now context.principal
          input.note)
        context

  -- The audit record and the notification of a transition that was made.
  unfoldable pub announce :
      String
      → String
      → Outcome
      → AuthContext
      → List (String × Json)
      → Option RotationRun
      → Exec World Unit
  announce action type outcome context details none = return tt
  announce action type outcome context details (some r) = do
    audit_run action outcome context r details
    send host config type
        (("rotationId", text r.id) ∷ ("credentialId", text r.credential_id) ∷ details)

  unfoldable pub start : String → AuthContext → Option String → Exec World (Option RotationRun)
  start id context note = do
    found ← get_run id
    demand (not (foreign context found)) "Tenant access denied."
    updated ← move_run id (record {
      from_statuses = is_waiting;
      status = RotationStatus.in_progress;
      updated_by = context.principal;
      note = note;
      target_ref = none;
      result_note = none;
    })
    announce "rotation.start" "rotation.started" Outcome.success context [] updated
    return updated

  -- `input.targetRef && input.targetRef !== credential.binding.ref ? { ...binding, ref } : undefined`
  abbrev next_binding : Option String → Binding → Option Binding
  next_binding target binding =
      if truthy target && not (or_else target "" == binding.ref)
      then some (record binding { ref = or_else target "" })
      else none

  abbrev or_null_text : Option RotationRun → Json
  or_null_text none = null
  or_null_text (some r) = or_null r.target_ref

  abbrev flat : Option (Option ℕ) → Option ℕ → Option ℕ
  flat (some (some t)) old = some t
  flat _ old = old

  -- The patch of the credential when a run is completed.
  unfoldable pub completion_patch : RotationCompleteInput → ℕ → CredentialRecord → CredentialPatch
  completion_patch input now credential = record {
    expires_at = flat input.expires_at credential.expires_at;
    last_validated_at = or_else input.last_validated_at now;
    binding = next_binding input.target_ref credential.binding;
    tags = none;
    status = none;
  }

  -- `complete` for a run that was found.
  unfoldable pub complete_found :
      String → AuthContext → RotationCompleteInput → RotationRun → Exec World (Option RotationRun)
  complete_found id context input run = do
    demand (tenant_allowed context.tenant_id run.tenant_id) "Tenant access denied."
    found ← get_credential run.credential_id
    credential ← existing found "Credential not found."
    now ← current_time
    update_credential credential.id (completion_patch input now credential)
    updated ← move_run id (record {
      from_statuses = is_open;
      status = RotationStatus.completed;
      updated_by = context.principal;
      note = input.note;
      target_ref = input.target_ref;
      result_note = input.note;
    })
    announce "rotation.complete" "rotation.completed" Outcome.success context
        (("targetRef", or_null_text updated) ∷ []) updated
    return updated

  unfoldable pub complete_if :
      String
      → AuthContext
      → RotationCompleteInput
      → Option RotationRun
      → Exec World (Option RotationRun)
  complete_if id context input none = return none
  complete_if id context input (some run) = complete_found id context input run

  unfoldable pub complete :
      String → AuthContext → RotationCompleteInput → Exec World (Option RotationRun)
  complete id context input = do run ← get_run id; complete_if id context input run

  unfoldable pub fail : String → AuthContext → Option String → Exec World (Option RotationRun)
  fail id context note = do
    found ← get_run id
    demand (not (foreign context found)) "Tenant access denied."
    updated ← move_run id (record {
      from_statuses = is_open;
      status = RotationStatus.failed;
      updated_by = context.principal;
      note = note;
      target_ref = none;
      result_note = note;
    })
    announce "rotation.fail" "rotation.failed" Outcome.error context [] updated
    return updated
