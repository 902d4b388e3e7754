-- ===== src/Broker/Access/Hidden.antt =====
-- What a caller learns of the credentials of other tenants from src/services/broker-service.ts.
use keylore.Prelude.{
  String, ◌≡◌, refl, sym, ap, ◌∙◌, false, Option, none, some, Bool-cases, inl, inr, if◌then◌else◌,
}
use keylore.Exec.{ok}
use keylore.Domain.{AuthContext, CredentialRecord}
use keylore.Domain.Access.{AccessRequestInput, AccessMode, tenant_allowed}
use keylore.Domain.Config.{KeyLoreConfig}
use keylore.World.{World}
use keylore.World.Host.{Host, random_uuid}
use keylore.Broker.{Evaluation, get_credential_by_id, assess_unseen, assess}
use keylore.Broker.Evaluate.{evaluation, evaluate_access-eq}
use keylore.Broker.Access.{
  is_dry_run, after_evaluation, simulated_evaluation, simulate_access, request_access,
}

-- The credential is missing, or the caller's tenant may not see it.
pub data Unseen (tenant_id : Option String) (found : Option CredentialRecord) : Type 0 where
  missing : found ≡ none → Unseen tenant_id found
  hidden :
      (c : CredentialRecord)
      → found ≡ some c
      → tenant_allowed tenant_id c.tenant_id ≡ false
      → Unseen tenant_id found

module _ (host : Host) (config : KeyLoreConfig) (context : AuthContext)
    (input : AccessRequestInput) where
  abbrev CannotSee : World → Type 0
  CannotSee w = Unseen context.tenant_id (get_credential_by_id input.credential_id w.credentials)

  -- What an evaluation returns then; it depends on the mode and the identifier only.
  abbrev not_found : AccessMode → String → Evaluation
  not_found mode id = (assess_unseen host config context input mode id none).1

  assess-not_found :
      (mode : AccessMode) (id : String) (w : World)
      → CannotSee w
      → (assess host config context input mode id w).1 ≡ not_found mode id
  unfolding assess assess_unseen
  assess-not_found mode id w (missing e) = rw (assess, e) refl
  assess-not_found mode id w (hidden c e h) = rw (assess, e, h) refl

  evaluation-not_found :
      (mode : AccessMode) (w : World)
      → CannotSee w
      → evaluation host config context input mode w ≡ not_found mode (host.uuid w.drawn)
  unfolding random_uuid
  evaluation-not_found mode w h = assess-not_found mode (host.uuid w.drawn) (random_uuid host w).1 h

  simulate_not_found :
      (mode : AccessMode) (w : World)
      → CannotSee w
      → (simulate_access host config context input mode w).0
        ≡ ok (not_found mode (host.uuid w.drawn)).decision
  unfolding simulate_access simulated_evaluation assess_unseen
  simulate_not_found mode w h =
      rw
        (
          simulate_access,
          evaluate_access-eq host config context input mode w,
          evaluation-not_found mode w h,
        )
        refl

  request_not_found :
      (w : World)
      → CannotSee w
      → (request_access host config context input w).0
        ≡ ok
            (not_found
              (if is_dry_run input.dry_run then AccessMode.dry_run else AccessMode.live)
              (host.uuid w.drawn)).decision
  unfolding request_access after_evaluation assess_unseen
  request_not_found w h = elim (Bool-cases (is_dry_run input.dry_run)) [
    | inl dry ↦ rw (request_access, dry) (simulate_not_found AccessMode.dry_run w h)
    | inr wet ↦
        rw
          (
            request_access,
            wet,
            evaluate_access-eq host config context input AccessMode.live w,
            evaluation-not_found AccessMode.live w h,
          )
          refl
  ]

  -- A credential that the caller's tenant may not see is answered as one that does not exist: in any
  -- two states in which the credential is missing or hidden, and which draw the same identifier next,
  -- the request has the same answer.
  pub hidden_as_missing :
      (w w' : World)
      → CannotSee w
      → CannotSee w'
      → w.drawn ≡ w'.drawn
      → (request_access host config context input w).0
        ≡ (request_access host config context input w').0
  hidden_as_missing w w' h h' same =
      request_not_found w h
      ∙ ap
          (λ n.
            ok
              (not_found (if is_dry_run input.dry_run then AccessMode.dry_run else AccessMode.live)
                (host.uuid n)).decision)
          same
      ∙ sym (request_not_found w' h')
