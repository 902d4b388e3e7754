-- ===== src/Broker/Evaluate.antt =====
-- What `evaluateAccess` of src/services/broker-service.ts returns and touches.
pub mod Modes
use keylore.Prelude.{String, ◌≡◌, refl, true, none, some, ◌⊎◌, Bool-cases, Option-cases, inl, inr}
use keylore.Exec.{Result, ok, thrown}
use keylore.Domain.{AuthContext, CredentialRecord}
use keylore.Domain.Access.{AccessRequestInput, AccessMode, AccessVerdict, tenant_allowed}
use keylore.Domain.Config.{KeyLoreConfig}
use keylore.Policy.{PolicyDecision}
use keylore.Egress.{Url, validate_egress_target}
use keylore.World.{World}
use keylore.World.Host.{Host, random_uuid}
use keylore.World.Quiet.{SameData, SameData-trans, then_run-ok}
use keylore.Audit.{record_event}
use keylore.Audit.Frame.{random_uuid-Quiet, record_event-Quiet}
use keylore.Broker.{
  Evaluation, get_credential_by_id, policy_decision, assess_unseen, assess_target, assess_blocked,
  assess_policy, assess, evaluate_access,
}

pub Result-cases :
    {A : Type 0} (r : Result A) → ((e : String) × (r ≡ thrown e)) ⊎ ((a : A) × (r ≡ ok a))
Result-cases (ok a) = inr (a, refl)
Result-cases (thrown e) = inl (e, refl)

module _ (host : Host) (config : KeyLoreConfig) (context : AuthContext)
    (input : AccessRequestInput) where
  -- The checks that an evaluation which reached the policy has passed.
  pub record IsEvaluated (w : World) (credential : CredentialRecord) (d : PolicyDecision)
      (url : Url) : Type 0 where
    pub listed : get_credential_by_id input.credential_id w.credentials ≡ some credential
    pub visible : tenant_allowed context.tenant_id credential.tenant_id ≡ true
    pub validated : validate_egress_target host.platform config input.target_url ≡ ok url
    pub decided : policy_decision host config w context input credential url ≡ d

  -- An evaluation stops early with a denial, or has passed the checks.
  pub record Stopped (e : Evaluation) : Type 0 where
    pub no_policy : e.policy_decision ≡ none
    pub refused : e.decision.decision ≡ AccessVerdict.denied

  pub record Reached (w : World) (e : Evaluation) : Type 0 where
    pub credential : CredentialRecord
    pub decision : PolicyDecision
    pub url : Url
    pub with_credential : e.credential ≡ some credential
    pub with_decision : e.policy_decision ≡ some decision
    pub with_url : e.target_url ≡ some url
    pub evaluated : IsEvaluated w credential decision url

  module _ (mode : AccessMode) (id : String) (w : World) where
    assess_target-cases :
        (credential : CredentialRecord)
        → get_credential_by_id input.credential_id w.credentials ≡ some credential
        → tenant_allowed context.tenant_id credential.tenant_id ≡ true
        → Stopped (assess_target host config context input mode id credential w).1
          ⊎ Reached w (assess_target host config context input mode id credential w).1
    unfolding assess_target assess_blocked assess_policy
    assess_target-cases credential listed visible =
        elim (Result-cases (validate_egress_target host.platform config input.target_url)) [
          | inl (reason, e) ↦
              inl (rw (assess_target, e) (record { no_policy = refl; refused = refl }))
          | inr (url, e) ↦ inr (
              rw (assess_target, e)
                (record {
                  credential = credential;
                  decision = policy_decision host config w context input credential url;
                  url = url;
                  with_credential = refl;
                  with_decision = refl;
                  with_url = refl;
                  evaluated = record {
                    listed = listed;
                    visible = visible;
                    validated = e;
                    decided = refl;
                  };
                }))
        ]

    pub assess-cases :
        Stopped (assess host config context input mode id w).1
        ⊎ Reached w (assess host config context input mode id w).1
    unfolding assess assess_unseen
    assess-cases = elim (Option-cases (get_credential_by_id input.credential_id w.credentials)) [
      | inl e ↦ inl (rw (assess, e) (record { no_policy = refl; refused = refl }))
      | inr (credential, e) ↦
          elim (Bool-cases (tenant_allowed context.tenant_id credential.tenant_id)) [
            | inl visible ↦ rw (assess, e, visible) (assess_target-cases credential e visible)
            | inr hidden ↦
                inl (rw (assess, e, hidden) (record { no_policy = refl; refused = refl }))
          ]
    ]

  module _ (mode : AccessMode) (w : World) where
    -- The state after the identifier is drawn, and what is then returned.
    abbrev drawn : World
    drawn = (random_uuid host w).1

    abbrev pub evaluation : Evaluation
    evaluation = (assess host config context input mode (host.uuid w.drawn) drawn).1

    abbrev pub evaluated_world : World
    evaluated_world =
        (record_event host (assess host config context input mode (host.uuid w.drawn) drawn).0
          drawn).1

    pub evaluate_access-eq :
        evaluate_access host config context input mode w ≡ (ok evaluation, evaluated_world)
    unfolding evaluate_access random_uuid
    evaluate_access-eq =
        let logged =
          record_event-Quiet host
            (assess host config context input mode (host.uuid w.drawn) drawn).0 in
        then_run-ok _ _ (logged.value drawn) (logged.returns drawn)

    pub evaluated_world-same : SameData w evaluated_world
    evaluated_world-same = SameData-trans ((random_uuid-Quiet host).same w) (
        (record_event-Quiet host
            (assess host config context input mode (host.uuid w.drawn) drawn).0).same
          drawn)

    pub evaluation-cases : Stopped evaluation ⊎ Reached w evaluation
    unfolding policy_decision random_uuid
    evaluation-cases = elim (assess-cases mode (host.uuid w.drawn) drawn) [
      | inl stopped ↦ inl stopped
      | inr r ↦ inr (record {
        credential = r.credential;
        decision = r.decision;
        url = r.url;
        with_credential = r.with_credential;
        with_decision = r.with_decision;
        with_url = r.with_url;
        evaluated = record {
          listed = r.evaluated.listed;
          visible = r.evaluated.visible;
          validated = r.evaluated.validated;
          decided = r.evaluated.decided;
        };
      })
    ]
