-- ===== src/Rotation/Plan.antt =====
-- Runs are planned for credentials that fall due: `planDue` of src/services/rotation-service.ts.
use keylore.Prelude.{
  ℕ, ◌+◌, ◌*◌, min, String, Bool, true, false, Option, none, some, List, [], ◌∷◌, ◌&&◌, leb,
  if◌then◌else◌, is_some, or_else, includes, any, not, length, ◌==◌,
}
use keylore.Exec.{Exec, ◌>>=◌, ◌>>◌, return, gets, lift, demand}
use keylore.Domain.{AuthContext, CredentialRecord, CredentialStatus}
use keylore.Domain.Access.{tenant_allowed}
use keylore.Domain.Config.{KeyLoreConfig}
use keylore.Domain.Rotation.{RotationSource, RotationRun, RotationPlanInput}
use keylore.World.{World}
use keylore.World.Host.{Host, Inspection, random_uuid, current_time}
use keylore.Rotation.Credentials as Credentials
use keylore.Rotation.Service.{find_open, new_run, create_run}

-- `earliestDueDate`
abbrev earlier : Option ℕ → Option ℕ → Option ℕ
earlier none t = t
earlier (some s) none = some s
earlier (some s) (some t) = some (min s t)

abbrev pub earliest_due_date : List (Option ℕ) → Option ℕ
earliest_due_date [] = none
earliest_due_date (t ∷ ts) = earlier t (earliest_due_date ts)

unfoldable pub due_source : CredentialRecord → Inspection → Option RotationSource
due_source credential inspection =
    if is_some inspection.next_rotation_at
    then some RotationSource.secret_rotation_window
    else if is_some inspection.expires_at
    then some RotationSource.secret_expiry
    else if is_some credential.expires_at
    then some RotationSource.catalog_expiry
    else none

abbrev plan_reason : RotationSource → String
plan_reason RotationSource.catalog_expiry = "Credential catalogue expiry is approaching."
plan_reason RotationSource.secret_expiry = "Secret backend reports upcoming expiry."
plan_reason _ = "Secret backend reports upcoming rotation window."

abbrev is_enabled : CredentialStatus → Bool
is_enabled CredentialStatus.active = true
is_enabled CredentialStatus.disabled = false

-- `!ids?.length || ids.includes(id)`
abbrev is_chosen : Option (List String) → String → Bool
is_chosen (some (x ∷ xs)) id = includes (x ∷ xs) id
is_chosen _ id = true

-- The tests before the table is asked.
unfoldable pub is_candidate : AuthContext → RotationPlanInput → CredentialRecord → Bool
is_candidate context input c =
    is_enabled c.status
    && tenant_allowed context.tenant_id c.tenant_id
    && is_chosen input.credential_ids c.id

module _ (host : Host) (config : KeyLoreConfig) where
  unfoldable pub plan_found :
      AuthContext → ℕ → CredentialRecord → ℕ → RotationSource → Exec World (Option RotationRun)
  plan_found context cutoff c due_at source =
      if leb due_at cutoff
      then (do
        id ← random_uuid host
        now ← current_time
        created ←
            create_run host config
              (new_run host config id c source (plan_reason source) (some due_at) now
                context.principal none)
              context
        return (some created))
      else return none

  unfoldable pub plan_inspected :
      AuthContext
      → ℕ
      → CredentialRecord
      → Option ℕ
      → Option RotationSource
      → Exec World (Option RotationRun)
  plan_inspected context cutoff c (some due_at) (some source) =
      plan_found context cutoff c due_at source
  plan_inspected context cutoff c _ _ = return none

  unfoldable pub plan_unless :
      Bool → AuthContext → ℕ → CredentialRecord → Exec World (Option RotationRun)
  plan_unless true context cutoff c = return none
  plan_unless false context cutoff c = do
    inspection ← lift (host.inspect c)
    plan_inspected context cutoff c
        (earliest_due_date
          (c.expires_at ∷ inspection.expires_at ∷ inspection.next_rotation_at ∷ []))
        (due_source c inspection)

  -- One round of the loop.
  unfoldable pub plan_one :
      AuthContext → RotationPlanInput → ℕ → CredentialRecord → Exec World (Option RotationRun)
  plan_one context input cutoff c =
      if is_candidate context input c
      then (do current ← find_open c.id; plan_unless (is_some current) context cutoff c)
      else return none

  abbrev with_created : Option RotationRun → List RotationRun → List RotationRun
  with_created none runs = runs
  with_created (some r) runs = r ∷ runs

  unfoldable pub plan_each :
      AuthContext → RotationPlanInput → ℕ → List CredentialRecord → Exec World (List RotationRun)
  plan_each context input cutoff [] = return []
  plan_each context input cutoff (c ∷ cs) = do
    created ← plan_one context input cutoff c
    rest ← plan_each context input cutoff cs
    return (with_created created rest)

  -- What `rotationPlanInputSchema` asks.
  unfoldable pub fits_plan : RotationPlanInput → Bool
  fits_plan input =
      leb 1 input.horizon_days && leb input.horizon_days 365 && (elim input.credential_ids [
        | none ↦ true
        | some ids ↦ not (any (λ s. s == "") ids) && leb (length ids) 100
      ])

  -- Without an input the horizon is that of the configuration.
  unfoldable pub plan_due : AuthContext → Option RotationPlanInput → Exec World (List RotationRun)
  plan_due context given = do
    let input =
        or_else given
          (record { horizon_days = config.rotation_horizon_days; credential_ids = none })
    demand (fits_plan input) "ZodError"
    credentials ← gets (λ w. Credentials.list host w.credentials)
    now ← current_time
    plan_each context input (now + input.horizon_days * 24 * 60 * 60 * 1000) credentials
