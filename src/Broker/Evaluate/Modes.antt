-- ===== src/Broker/Evaluate/Modes.antt =====
-- How far `evaluateAccess` of src/services/broker-service.ts depends on the mode.
use keylore.Prelude.{String, ◌≡◌, refl, Option, none, some, Bool-cases, Option-cases, inl, inr}
use keylore.Domain.{AuthContext, CredentialRecord}
use keylore.Domain.Access.{AccessRequestInput, AccessMode, AccessDecision, tenant_allowed}
use keylore.Domain.Config.{KeyLoreConfig}
use keylore.Egress.{validate_egress_target}
use keylore.World.{World}
use keylore.World.Host.{Host}
use keylore.Broker.{
  Evaluation, get_credential_by_id, assess_unseen, assess_blocked, assess_policy, assess_target,
  assess,
}
use keylore.Broker.Evaluate.{Result-cases, evaluation}

-- The same verdict about the same credential, for the same reason, under the same rule.
pub record SameDecision (a b : AccessDecision) : Type 0 where
  pub decision : a.decision ≡ b.decision
  pub reason : a.reason ≡ b.reason
  pub rule_id : a.rule_id ≡ b.rule_id
  pub credential : a.credential ≡ b.credential

pub record SameEvaluation (a b : Evaluation) : Type 0 where
  pub correlation_id : a.correlation_id ≡ b.correlation_id
  pub credential : a.credential ≡ b.credential
  pub policy_decision : a.policy_decision ≡ b.policy_decision
  pub target_url : a.target_url ≡ b.target_url
  pub decision : SameDecision a.decision b.decision

module _ (host : Host) (config : KeyLoreConfig) (context : AuthContext) (input : AccessRequestInput)
    (mode mode' : AccessMode) where
  assess_target-SameEvaluation :
      (id : String) (credential : CredentialRecord) (w : World)
      → SameEvaluation
          (assess_target host config context input mode id credential w).1
          (assess_target host config context input mode' id credential w).1
  unfolding assess_target assess_blocked assess_policy
  assess_target-SameEvaluation id credential w =
      elim (Result-cases (validate_egress_target host.platform config input.target_url)) [
        | inl (reason, e) ↦
            rw (assess_target, e)
              (record {
                correlation_id = refl;
                credential = refl;
                policy_decision = refl;
                target_url = refl;
                decision = record {
                  decision = refl;
                  reason = refl;
                  rule_id = refl;
                  credential = refl;
                };
              })
        | inr (url, e) ↦
            rw (assess_target, e)
              (record {
                correlation_id = refl;
                credential = refl;
                policy_decision = refl;
                target_url = refl;
                decision = record {
                  decision = refl;
                  reason = refl;
                  rule_id = refl;
                  credential = refl;
                };
              })
      ]

  unseen-SameEvaluation :
      (id : String) (found found' : Option CredentialRecord)
      → SameEvaluation
          (assess_unseen host config context input mode id found).1
          (assess_unseen host config context input mode' id found').1
  unfolding assess_unseen
  unseen-SameEvaluation id found found' = record {
    correlation_id = refl;
    credential = refl;
    policy_decision = refl;
    target_url = refl;
    decision = record { decision = refl; reason = refl; rule_id = refl; credential = refl };
  }

  assess-SameEvaluation :
      (id : String) (w : World)
      → SameEvaluation
          (assess host config context input mode id w).1
          (assess host config context input mode' id w).1
  unfolding assess
  assess-SameEvaluation id w =
      elim (Option-cases (get_credential_by_id input.credential_id w.credentials)) [
        | inl e ↦ rw (assess, e) (unseen-SameEvaluation id none none)
        | inr (credential, e) ↦
            elim (Bool-cases (tenant_allowed context.tenant_id credential.tenant_id)) [
              | inl visible ↦ rw (assess, e, visible) (assess_target-SameEvaluation id credential w)
              | inr hidden ↦
                  rw (assess, e, hidden)
                    (unseen-SameEvaluation id (some credential) (some credential))
            ]
      ]

  -- Evaluations of one request in two modes differ in the mode they carry, and in nothing else.
  pub evaluation-SameEvaluation :
      (w : World)
      → SameEvaluation
          (evaluation host config context input mode w)
          (evaluation host config context input mode' w)
  evaluation-SameEvaluation w = assess-SameEvaluation _ _
