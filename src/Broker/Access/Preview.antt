-- ===== src/Broker/Access/Preview.antt =====
-- `simulateAccess` of src/services/broker-service.ts beside `requestAccess`.
use keylore.Prelude.{
  String, ◌≡◌, refl, sym, ap, ◌∙◌, subst, false, Option, none, some, truthy, Bool-cases, inl, inr,
  [], ◌∷◌,
}
use keylore.Exec.{Result, ok, thrown, Exec, then_run}
use keylore.Domain.{AuthContext, CredentialRecord}
use keylore.Domain.Access.{AccessRequestInput, AccessMode, AccessDecision}
use keylore.Domain.Reviews.{ApprovalRequest, BreakGlassRequest}
use keylore.Domain.Config.{KeyLoreConfig}
use keylore.Policy.{Verdict, PolicyDecision}
use keylore.Egress.{Url}
use keylore.World.{World}
use keylore.World.Host.{Host}
use keylore.World.Quiet.{SameData}
use keylore.Audit.{record_event}
use keylore.Approvals.Table as ApprovalTable
use keylore.Approvals.Service as Approvals
use keylore.BreakGlass.Table as BreakGlassTable
use keylore.BreakGlass.Service as BreakGlass
use keylore.Broker.{Evaluation, emergency, to_allowed_decision}
use keylore.Broker.Evaluate.{
  evaluation, evaluated_world, evaluate_access-eq, evaluated_world-same, evaluation-cases,
}
use keylore.Broker.Evaluate.Modes.{SameDecision, SameEvaluation, evaluation-SameEvaluation}
use keylore.Broker.Proxy.{execute_proxy_request}
use keylore.Broker.Access.{
  record_credential_use, execute_allowed_request, after_approval, by_verdict, after_grant,
  simulated_approval, simulated_verdict, simulated_grant, after_evaluation, simulated_evaluation,
  simulate_access, request_access, is_dry_run,
}

-- What a live request returned, if it returned, is the same decision as the one announced.
abbrev pub Announces : AccessDecision → Result AccessDecision → Type 0
Announces b (thrown e) = Unit
Announces b (ok a) = SameDecision a b

-- Whatever the statement before it gives, a block announces what its rest announces.
then_run-Announces :
    {A : Type 0} (b : AccessDecision) (r : Result A × World) (f : A → Exec World AccessDecision)
    → ((a : A) (w : World) → Announces b (f a w).0)
    → Announces b (then_run r f).0
then_run-Announces b (ok a, w) f h = h a w
then_run-Announces b (thrown e, w) f h = tt

module _ (host : Host) (config : KeyLoreConfig) (context : AuthContext) (input : AccessRequestInput)
    (mode : AccessMode) where
  -- The simulation returns a decision, and the live request, if it returns, the same.
  abbrev pub Agrees : Result AccessDecision → Result AccessDecision → Type 0
  Agrees simulated answered = (b : AccessDecision) × (simulated ≡ ok b) × Announces b answered

  execute-Announces :
      (credential : CredentialRecord) (d : PolicyDecision) (id : String) (url : Url)
      (grant : Option BreakGlassRequest) (w : World)
      → Announces
          (to_allowed_decision mode id credential d)
          (execute_allowed_request host config AccessMode.live context input credential d id url
            grant w).0
  unfolding execute_allowed_request record_credential_use
  execute-Announces credential d id url grant w =
      let b = to_allowed_decision mode id credential d in
      then_run-Announces b (host.resolve credential, w) _
        (λ s v.
          then_run-Announces b
            (execute_proxy_request host config input url s.secret
              ((s.header_name, s.header_value) ∷ []) v)
            _
            (λ r u. then_run-Announces b (record_event host _ u) _ (λ _ t. record {
              decision = refl;
              reason = refl;
              rule_id = refl;
              credential = refl;
            })))

  module _ (credential : CredentialRecord) (id : String) (url : Url) where
    unapproved-Agrees :
        (d : PolicyDecision) (w : World)
        → Announces
            (simulated_approval host config input mode credential d id none)
            (after_approval host config context input credential d id url none w).0
    unfolding after_approval simulated_approval
    unapproved-Agrees d w = elim (Bool-cases (truthy input.break_glass_id)) [
      | inl e ↦
          rw (after_approval, simulated_approval, e)
            (record { decision = refl; reason = refl; rule_id = refl; credential = refl })
      | inr e ↦
          rw (after_approval, simulated_approval, e)
            (then_run-Announces _ (Approvals.create_pending host config context input _ _ w) _
              (λ a v. record { decision = refl; reason = refl; rule_id = refl; credential = refl }))
    ]

    approval-Agrees :
        (d : PolicyDecision) (found : Option ApprovalRequest) (w : World)
        → Announces
            (simulated_approval host config input mode credential d id found)
            (after_approval host config context input credential d id url found w).0
    unfolding after_approval simulated_approval
    approval-Agrees d none w = unapproved-Agrees d w
    approval-Agrees d (some a) w = execute-Announces credential d id url none w

    -- The approval that a request finds in a state.
    abbrev found_in : World → Option ApprovalRequest
    found_in w =
        Approvals.find_grant host config context input w.now
          (ApprovalTable.expire_stale w.now w.approvals)

    found_in-same :
        (w w' : World) → w'.now ≡ w.now → w'.approvals ≡ w.approvals → found_in w' ≡ found_in w
    found_in-same w w' now approvals =
        ap (λ t. found_in (record w' { now = t })) now
        ∙ ap (λ a. found_in (record w { approvals = a })) approvals

    verdict-Agrees :
        (d : PolicyDecision) (v : Verdict) (w w' : World)
        → w'.now ≡ w.now
        → w'.approvals ≡ w.approvals
        → Agrees
            (simulated_verdict host config context input mode credential d id v w').0
            (by_verdict host config context input credential d id url v w).0
    unfolding by_verdict simulated_verdict Approvals.verify_approval Approvals.expire_stale
    verdict-Agrees d Verdict.deny w w' now approvals =
        elim (Bool-cases (truthy input.break_glass_id)) [
          | inl e ↦
              rw (by_verdict, simulated_verdict, e)
                (
                  _,
                  refl,
                  record { decision = refl; reason = refl; rule_id = refl; credential = refl },
                )
          | inr e ↦
              rw (by_verdict, simulated_verdict, e)
                (
                  _,
                  refl,
                  record { decision = refl; reason = refl; rule_id = refl; credential = refl },
                )
        ]
    verdict-Agrees d Verdict.allow w w' now approvals =
        (_, refl, execute-Announces credential d id url none w)
    verdict-Agrees d Verdict.approval w w' now approvals = (
      simulated_approval host config input mode credential d id (found_in w'),
      refl,
      subst
          (λ f.
            Announces (simulated_approval host config input mode credential d id f)
              (by_verdict host config context input credential d id url Verdict.approval w).0)
          (sym (found_in-same w w' now approvals))
          (approval-Agrees d (found_in w)
            (record w { approvals = ApprovalTable.expire_stale w.now w.approvals })),
    )

    grant-Agrees :
        (d : PolicyDecision) (g : Option BreakGlassRequest) (w w' : World)
        → w'.now ≡ w.now
        → w'.approvals ≡ w.approvals
        → Agrees
            (simulated_grant host config context input mode credential d id g w').0
            (after_grant host config context input credential d id url g w).0
    unfolding after_grant simulated_grant
    grant-Agrees d none w w' now approvals = verdict-Agrees d d.decision w w' now approvals
    grant-Agrees d (some g) w w' now approvals = (
      _,
      refl,
      then_run-Announces _ (BreakGlass.record_use host config context g w) _
          (λ _ v. execute-Announces credential emergency id url (some g) v),
    )

    emergency_in : World → Option BreakGlassRequest
    emergency_in w =
        BreakGlass.find_grant host config context input w.now
          (BreakGlassTable.expire_stale w.now w.break_glass)

    emergency_in-same :
        (w w' : World)
        → w'.now ≡ w.now
        → w'.break_glass ≡ w.break_glass
        → emergency_in w' ≡ emergency_in w
    unfolding emergency_in
    emergency_in-same w w' now grants =
        ap (λ t. emergency_in (record w' { now = t })) now
        ∙ ap (λ b. emergency_in (record w { break_glass = b })) grants

    evaluated-Agrees :
        (d : PolicyDecision) (early early' : AccessDecision) (w w' : World)
        → SameData w w'
        → Agrees
            (simulated_evaluation host config context input mode early' id
              (some credential)
              (some d)
              w').0
            (after_evaluation host config context input early id
              (some credential)
              (some d)
              (some url)
              w).0
    unfolding after_evaluation simulated_evaluation BreakGlass.verify_active BreakGlass.expire_stale
        emergency_in
    evaluated-Agrees d early early' w w' same =
        subst
          (λ g.
            Agrees
              (simulated_grant host config context input mode credential d id g
                (record w' { break_glass = BreakGlassTable.expire_stale w'.now w'.break_glass })).0
              (after_evaluation host config context input early id (some credential) (some d)
                (some url) w).0)
          (sym (emergency_in-same w w' same.now same.break_glass))
          (grant-Agrees d (emergency_in w)
            (record w { break_glass = BreakGlassTable.expire_stale w.now w.break_glass })
            (record w' { break_glass = BreakGlassTable.expire_stale w'.now w'.break_glass })
            same.now same.approvals)

  stopped-Agrees :
      (early early' : AccessDecision) (id id' : String) (c c' : Option CredentialRecord)
      (d d' : Option PolicyDecision) (url : Option Url) (w w' : World)
      → d ≡ none
      → d' ≡ none
      → SameDecision early early'
      → Agrees
          (simulated_evaluation host config context input mode early' id' c' d' w').0
          (after_evaluation host config context input early id c d url w).0
  unfolding after_evaluation simulated_evaluation
  stopped-Agrees early early' id id' c c' d d' url w w' e e' same = rw (e, e') (stopped c c' url)
    where
      stopped :
          (c c' : Option CredentialRecord) (url : Option Url)
          → Agrees
              (simulated_evaluation host config context input mode early' id' c' none w').0
              (after_evaluation host config context input early id c none url w).0
      stopped none none url = (early', refl, same)
      stopped none (some x) url = (early', refl, same)
      stopped (some x) none url = (early', refl, same)
      stopped (some x) (some y) url = (early', refl, same)

  module _ (w : World) where
    abbrev e : Evaluation
    e = evaluation host config context input AccessMode.live w

    abbrev e' : Evaluation
    e' = evaluation host config context input mode w

    modes : SameEvaluation e e'
    modes = evaluation-SameEvaluation host config context input AccessMode.live mode w

    both :
        SameData
          (evaluated_world host config context input AccessMode.live w)
          (evaluated_world host config context input mode w)
    both =
        let live = evaluated_world-same host config context input AccessMode.live w in
        let dry = evaluated_world-same host config context input mode w in
        record {
          now = dry.now ∙ sym live.now;
          credentials = dry.credentials ∙ sym live.credentials;
          policies = dry.policies ∙ sym live.policies;
          approvals = dry.approvals ∙ sym live.approvals;
          break_glass = dry.break_glass ∙ sym live.break_glass;
          auth = dry.auth ∙ sym live.auth;
          rotations = dry.rotations ∙ sym live.rotations;
          outbound = dry.outbound ∙ sym live.outbound;
        }

    answers-Agrees :
        Agrees
          (simulated_evaluation host config context input mode e'.decision e'.correlation_id
            e'.credential e'.policy_decision
            (evaluated_world host config context input mode w)).0
          (after_evaluation host config context input e.decision e.correlation_id e.credential
            e.policy_decision e.target_url
            (evaluated_world host config context input AccessMode.live w)).0
    answers-Agrees = elim (evaluation-cases host config context input AccessMode.live w) [
      | inl stopped ↦
          stopped-Agrees e.decision e'.decision e.correlation_id e'.correlation_id e.credential
            e'.credential e.policy_decision e'.policy_decision e.target_url _ _ stopped.no_policy
            (sym modes.policy_decision ∙ stopped.no_policy) modes.decision
      | inr r ↦
          rw
            (
              r.with_credential,
              r.with_decision,
              r.with_url,
              sym modes.correlation_id,
              sym modes.credential ∙ r.with_credential,
              sym modes.policy_decision ∙ r.with_decision,
            )
            (evaluated-Agrees r.credential e.correlation_id r.url r.decision e.decision e'.decision
              _ _ both)
    ]

    -- A simulation of a request that is not itself a dry run returns a decision, and if the live request
    -- returns in the same state, its decision has the same verdict about the same credential, with the
    -- same reason and rule.
    pub simulate_access-Agrees :
        is_dry_run input.dry_run ≡ false
        → Agrees
            (simulate_access host config context input mode w).0
            (request_access host config context input w).0
    unfolding simulate_access request_access
    simulate_access-Agrees wet =
        rw
          (
            request_access,
            wet,
            simulate_access,
            evaluate_access-eq host config context input AccessMode.live w,
            evaluate_access-eq host config context input mode w,
          )
          answers-Agrees
