-- ===== src/Broker/Access/Monitor.antt =====
-- When `requestAccess` of src/services/broker-service.ts sends a request with a credential.
use keylore.Prelude.{
  String, ◌≡◌, refl, ◌∙◌, subst, Option, none, some, List, ◌⊎◌, inl, inr, truthy, Bool-cases,
  Option-cases,
}
use keylore.Exec.{Result}
use keylore.Exec.Keeps.{Keeps-bind, Keeps-if, Keeps-return}
use keylore.Domain.{AuthContext, CredentialRecord}
use keylore.Domain.Access.{AccessRequestInput, AccessMode, AccessDecision}
use keylore.Domain.Reviews.{ApprovalRequest, BreakGlassRequest}
use keylore.Domain.Config.{KeyLoreConfig}
use keylore.Policy.{Verdict, PolicyDecision}
use keylore.Egress.{Url}
use keylore.World.{World, Outbound}
use keylore.World.Host.{Host}
use keylore.World.Quiet.{SameData, then_run-ok}
use keylore.Approvals.Table as ApprovalTable
use keylore.Approvals.Service as Approvals
use keylore.Approvals.Service.Methods.{create_pending_sends}
use keylore.BreakGlass.Table as BreakGlassTable
use keylore.BreakGlass.Service as BreakGlass
use keylore.BreakGlass.Service.Methods.{record_use-Quiet}
use keylore.Broker.{Evaluation, emergency}
use keylore.Broker.Evaluate.{
  IsEvaluated, Reached, evaluation, evaluated_world, evaluate_access-eq, evaluated_world-same,
  evaluation-cases,
}
use keylore.Broker.Access.Simulation.{simulate_access-silent}
use keylore.Broker.Access.Sending.{Silent, SentOnce, execute_sends}
use keylore.Broker.Access.{
  is_dry_run, execute_allowed_request, after_approval, by_verdict, after_grant, after_evaluation,
  request_access,
}

module _ (host : Host) (config : KeyLoreConfig) (context : AuthContext)
    (input : AccessRequestInput) where
  -- Why a policy decision lets a request be sent: it allows it, or it wants an approval and there is one.
  pub data PolicyGrounds (w : World) (d : PolicyDecision) : Type 0 where
    allowed_by_policy : d.decision ≡ Verdict.allow → PolicyGrounds w d
    approved :
        (a : ApprovalRequest)
        → d.decision ≡ Verdict.approval
        → Approvals.find_grant host config context input w.now
            (ApprovalTable.expire_stale w.now w.approvals)
          ≡ some a
        → PolicyGrounds w d

  -- Why a request may be sent: an active break-glass grant for it, or the policy.
  pub data Grounds (w : World) (d : PolicyDecision) : Type 0 where
    emergency_grant :
        (g : BreakGlassRequest)
        → BreakGlass.find_grant host config context input w.now
            (BreakGlassTable.expire_stale w.now w.break_glass)
          ≡ some g
        → Grounds w d
    by_policy : PolicyGrounds w d → Grounds w d

  abbrev ApprovalFound : World → ApprovalRequest → Type 0
  ApprovalFound w a =
      Approvals.find_grant host config context input w.now
        (ApprovalTable.expire_stale w.now w.approvals)
      ≡ some a

  abbrev EmergencyFound : World → BreakGlassRequest → Type 0
  EmergencyFound w g =
      BreakGlass.find_grant host config context input w.now
        (BreakGlassTable.expire_stale w.now w.break_glass)
      ≡ some g

  Grounds-same : {d : PolicyDecision} (v w : World) → SameData v w → Grounds w d → Grounds v d
  Grounds-same v w same (emergency_grant g h) = emergency_grant g (
      subst (λ t. EmergencyFound (record v { now = t }) g) same.now
        (subst (λ b. EmergencyFound (record w { break_glass = b }) g) same.break_glass h))
  Grounds-same v w same (by_policy (allowed_by_policy h)) = by_policy (allowed_by_policy h)
  Grounds-same v w same (by_policy (approved a e h)) = by_policy (
      approved a e (
        subst (λ t. ApprovalFound (record v { now = t }) a) same.now
          (subst (λ b. ApprovalFound (record w { approvals = b }) a) same.approvals h)))

  module _ (credential : CredentialRecord) (id : String) (url : Url) where
    -- A method that sends nothing, or makes one call of `fetch` on these grounds.
    abbrev Guarded : {A : Type 0} → Type 0 → List Outbound → Result A × World → Type 0
    Guarded G before r =
        Silent before r ⊎ (G × SentOnce host config context input credential url before r)

    on_grounds :
        {A G : Type 0} {before : List Outbound} (r : Result A × World)
        → G
        → Silent before r ⊎ SentOnce host config context input credential url before r
        → Guarded G before r
    on_grounds r g (inl h) = inl h
    on_grounds r g (inr h) = inr (g, h)

    regrounded :
        {A G H : Type 0} {before : List Outbound} (r : Result A × World)
        → (G → H)
        → Guarded G before r
        → Guarded H before r
    regrounded r k (inl h) = inl h
    regrounded r k (inr (g, h)) = inr (k g, h)

    unapproved_sends :
        (d : PolicyDecision) (w : World)
        → Silent w.outbound (after_approval host config context input credential d id url none w)
    unfolding after_approval
    unapproved_sends d w =
        (Keeps-if (truthy input.break_glass_id) _ _ (Keeps-return _) (
            Keeps-bind _ _
              (create_pending_sends w.outbound host config context input
                (record { reason = d.reason; rule_id = d.rule_id; correlation_id = id })
                credential.tenant_id)
              (λ a. Keeps-return _))).at
          w refl

    by_verdict-Guarded :
        (d : PolicyDecision) (w : World) (v : Verdict)
        → d.decision ≡ v
        → Guarded
            (PolicyGrounds w d)
            w.outbound
            (by_verdict host config context input credential d id url v w)
    unfolding by_verdict after_approval Approvals.verify_approval Approvals.expire_stale
    by_verdict-Guarded d w Verdict.deny e = inl (
        (Keeps-if {P = λ v. v.outbound ≡ w.outbound} (truthy input.break_glass_id) _ _
            (Keeps-return _) (Keeps-return _)).at
          w refl)
    by_verdict-Guarded d w Verdict.allow e =
        on_grounds _ (allowed_by_policy e)
          (execute_sends host config context input AccessMode.live credential d id url none w)
    by_verdict-Guarded d w Verdict.approval e =
        let now_approvals = ApprovalTable.expire_stale w.now w.approvals in
        let w' : World = record w { approvals = now_approvals } in
        elim (Option-cases (Approvals.find_grant host config context input w.now now_approvals)) [
          | inl f ↦ inl (rw (by_verdict, f) (unapproved_sends d w'))
          | inr (a, f) ↦
              rw (by_verdict, f)
                (on_grounds _ (approved a e f) (
                  execute_sends host config context input AccessMode.live credential d id url none
                    w'))
        ]

    granted_sends :
        (d : PolicyDecision) (g : BreakGlassRequest) (w : World)
        → Silent w.outbound (after_grant host config context input credential d id url (some g) w)
          ⊎ SentOnce host config context input credential url w.outbound
              (after_grant host config context input credential d id url (some g) w)
    unfolding after_grant
    granted_sends d g w =
        let used = record_use-Quiet host config context g in
        let w' : World = (BreakGlass.record_use host config context g w).1 in
        rw
          (
            after_grant,
            then_run-ok (BreakGlass.record_use host config context g w)
                (λ _.
                  execute_allowed_request host config AccessMode.live context input credential
                    emergency id url (some g))
                (used.value w) (used.returns w),
          )
          (subst
            (λ before.
              Silent before (
                execute_allowed_request host config AccessMode.live context input credential
                  emergency id url (some g) w')
              ⊎ SentOnce host config context input credential url before (
                  execute_allowed_request host config AccessMode.live context input credential
                    emergency id url (some g) w'))
            ((used.same w).outbound)
            (execute_sends host config context input AccessMode.live credential emergency id url
              (some g) w'))

    after_expiry :
        {d : PolicyDecision} (w : World) (grants : List BreakGlassRequest)
        → PolicyGrounds (record w { break_glass = grants }) d
        → Grounds w d
    after_expiry w grants (allowed_by_policy h) = by_policy (allowed_by_policy h)
    after_expiry w grants (approved a e h) = by_policy (approved a e h)

    after_evaluation-Guarded :
        (d : PolicyDecision) (early : AccessDecision) (w : World)
        → Guarded (Grounds w d) w.outbound (
            after_evaluation host config context input early id
              (some credential)
              (some d)
              (some url)
              w)
    unfolding after_evaluation BreakGlass.verify_active BreakGlass.expire_stale
    after_evaluation-Guarded d early w =
        let now_grants = BreakGlassTable.expire_stale w.now w.break_glass in
        let w' : World = record w { break_glass = now_grants } in
        elim (Option-cases (BreakGlass.find_grant host config context input w.now now_grants)) [
          | inl f ↦
              rw (after_evaluation, f)
                (regrounded _ (after_expiry w now_grants) (by_verdict-Guarded d w' d.decision refl))
          | inr (grant, f) ↦
              rw (after_evaluation, f)
                (on_grounds _ (emergency_grant grant f) (granted_sends d grant w'))
        ]

  -- A request was sent on these grounds.
  pub record Sent (w : World) (r : Result AccessDecision × World) : Type 0 where
    pub credential : CredentialRecord
    pub decision : PolicyDecision
    pub url : Url
    pub evaluated : IsEvaluated host config context input w credential decision url
    pub grounds : Grounds w decision
    pub once : SentOnce host config context input credential url w.outbound r

  stopped_sends :
      (early : AccessDecision) (id : String) (c : Option CredentialRecord)
      (d : Option PolicyDecision) (url : Option Url) (w : World)
      → d ≡ none
      → Silent w.outbound (after_evaluation host config context input early id c d url w)
  unfolding after_evaluation
  stopped_sends early id none d url w e = refl
  stopped_sends early id (some c) none url w e = refl
  stopped_sends early id (some c) (some d) url w e = cc

  module _ (w : World) where
    abbrev e : Evaluation
    e = evaluation host config context input AccessMode.live w

    abbrev evaluated_w : World
    evaluated_w = evaluated_world host config context input AccessMode.live w

    same : SameData w evaluated_w
    same = evaluated_world-same host config context input AccessMode.live w

    abbrev answered : Result AccessDecision × World
    answered =
        after_evaluation host config context input e.decision e.correlation_id e.credential
          e.policy_decision e.target_url evaluated_w

    Reached-Guarded :
        (r : Reached host config context input w e)
        → Guarded r.credential e.correlation_id r.url (Grounds w r.decision) w.outbound answered
    Reached-Guarded r =
        rw (r.with_credential, r.with_decision, r.with_url)
          (subst
            (λ before. Guarded r.credential e.correlation_id r.url (Grounds w r.decision) before (
              after_evaluation host config context input e.decision e.correlation_id
                (some r.credential) (some r.decision) (some r.url) evaluated_w))
            same.outbound
            (regrounded r.credential e.correlation_id r.url _ (Grounds-same w evaluated_w same) (
              after_evaluation-Guarded r.credential e.correlation_id r.url r.decision e.decision
                evaluated_w)))

    answered-Sent : Silent w.outbound answered ⊎ Sent w answered
    answered-Sent = elim (evaluation-cases host config context input AccessMode.live w) [
      | inl stopped ↦ inl (
          stopped_sends e.decision e.correlation_id e.credential e.policy_decision e.target_url
            evaluated_w stopped.no_policy
          ∙ same.outbound)
      | inr r ↦ elim (Reached-Guarded r) [
        | inl silent ↦ inl silent
        | inr (g, once) ↦ inr (record {
          credential = r.credential;
          decision = r.decision;
          url = r.url;
          evaluated = r.evaluated;
          grounds = g;
          once = once;
        })
      ]
    ]

    -- `requestAccess` sends no request with a credential, or calls `fetch` exactly once, and then only
    -- so: for the credential named in the request, which exists and which the caller may see, with the
    -- secret that its adapter resolved, to the validated url, after the rules of its tenant were
    -- evaluated, and on grounds of a break-glass grant found for it, a decision that allows, or a
    -- decision that asks for approval and an approval found for it. What goes out besides that request
    -- are those by which `fetch` follows redirects of it, of which nothing is said.
    pub request_access-Sent :
        Silent w.outbound (request_access host config context input w)
        ⊎ Sent w (request_access host config context input w)
    unfolding request_access
    request_access-Sent = elim (Bool-cases (is_dry_run input.dry_run)) [
      | inl dry ↦ inl (
          rw (request_access, dry)
            (simulate_access-silent host config context input AccessMode.dry_run w))
      | inr wet ↦
          rw (request_access, wet, evaluate_access-eq host config context input AccessMode.live w)
            answered-Sent
    ]
