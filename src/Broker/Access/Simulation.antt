-- ===== src/Broker/Access/Simulation.antt =====
-- What `simulateAccess` of src/services/broker-service.ts sends.
use keylore.Prelude.{String, ◌≡◌, refl, ◌∙◌, Option, none, some, List, truthy}
use keylore.Exec.Keeps.{Keeps, Keeps-bind, Keeps-if, Keeps-return}
use keylore.Domain.{AuthContext, CredentialRecord}
use keylore.Domain.Access.{AccessRequestInput, AccessMode, AccessDecision}
use keylore.Domain.Reviews.{BreakGlassRequest}
use keylore.Domain.Config.{KeyLoreConfig}
use keylore.Policy.{Verdict, PolicyDecision}
use keylore.World.{World, Outbound}
use keylore.World.Host.{Host}
use keylore.Approvals.Service as Approvals
use keylore.BreakGlass.Service as BreakGlass
use keylore.Broker.{Evaluation, evaluate_access}
use keylore.Broker.Evaluate.{evaluate_access-eq, evaluated_world-same}
use keylore.Broker.Access.{
  simulated_verdict, simulated_grant, simulated_evaluation, simulate_access,
}

module _ (host : Host) (config : KeyLoreConfig) (context : AuthContext) (input : AccessRequestInput)
    (mode : AccessMode) (sent : List Outbound) where
  abbrev P : World → Type 0
  P w = w.outbound ≡ sent

  evaluate_sends : Keeps P (evaluate_access host config context input mode)
  evaluate_sends = record {
    at = λ w h.
        rw (evaluate_access-eq host config context input mode w)
          (evaluated_world-same host config context input mode w).outbound
        ∙ h;
  }

  verify_approval_sends : Keeps P (Approvals.verify_approval host config context input)
  unfolding Approvals.verify_approval Approvals.expire_stale
  verify_approval_sends = record { at = λ w h. h }

  verify_active_sends : Keeps P (BreakGlass.verify_active host config context input)
  unfolding BreakGlass.verify_active BreakGlass.expire_stale
  verify_active_sends = record { at = λ w h. h }

  verdict_sends :
      (credential : CredentialRecord) (d : PolicyDecision) (id : String) (v : Verdict)
      → Keeps P (simulated_verdict host config context input mode credential d id v)
  unfolding simulated_verdict
  verdict_sends credential d id Verdict.deny =
      Keeps-if (truthy input.break_glass_id) _ _ (Keeps-return _) (Keeps-return _)
  verdict_sends credential d id Verdict.approval =
      Keeps-bind _ _ verify_approval_sends (λ a. Keeps-return _)
  verdict_sends credential d id Verdict.allow = Keeps-return _

  grant_sends :
      (credential : CredentialRecord) (d : PolicyDecision) (id : String)
      (g : Option BreakGlassRequest)
      → Keeps P (simulated_grant host config context input mode credential d id g)
  unfolding simulated_grant
  grant_sends credential d id none = verdict_sends credential d id d.decision
  grant_sends credential d id (some g) = Keeps-return _

  evaluation_sends :
      (early : AccessDecision) (id : String) (c : Option CredentialRecord)
      (d : Option PolicyDecision)
      → Keeps P (simulated_evaluation host config context input mode early id c d)
  unfolding simulated_evaluation
  evaluation_sends early id none d = Keeps-return early
  evaluation_sends early id (some c) none = Keeps-return early
  evaluation_sends early id (some c) (some d) =
      Keeps-bind _ _ verify_active_sends (grant_sends c d id)

  simulate_sends : Keeps P (simulate_access host config context input mode)
  unfolding simulate_access
  simulate_sends = Keeps-bind _ _ evaluate_sends (λ (e : Evaluation).
      evaluation_sends e.decision e.correlation_id e.credential e.policy_decision)

module _ (host : Host) (config : KeyLoreConfig) (context : AuthContext) (input : AccessRequestInput)
    (mode : AccessMode) (w : World) where
  -- A simulation sends no request with a credential, whatever it finds.
  pub simulate_access-silent :
      (simulate_access host config context input mode w).1.outbound ≡ w.outbound
  simulate_access-silent = (simulate_sends host config context input mode w.outbound).at w refl
