-- ===== src/Approvals/Origin.antt =====
-- Where the grants of src/services/approval-service.ts come from: each was put before the reviewers by
-- a call, and approved by its quorum.
use keylore.Prelude.{
  ℕ, ◌≤◌, String, ◌≡◌, refl, sym, ap, ◌∙◌, subst, some, List, [], ◌∷◌, arith, leb, Bool-cases,
  Option-cases, inl, inr, All, All-mem, All-map, All-append, All-update_first, All-tabulate, Memᴰ,
  Mem-cons, any, ◌==◌, ◌&&◌,
}
use keylore.Exec.{ok}
use keylore.Domain.{AuthContext}
use keylore.Domain.Access.{AccessRequestInput}
use keylore.Domain.Reviews.{ApprovalStatus, ApprovalRequest}
use keylore.Domain.Config.{KeyLoreConfig}
use keylore.World.{World}
use keylore.World.Host.{Host}
use keylore.Fingerprint.{access_fingerprint}
use keylore.Fingerprint.Binding.{SameRequest, IsToldApart, SameRequest-of}
use keylore.Approvals.Table as Table
use keylore.Approvals.Service.{PendingDecision, expire_stale, verify_approval}
use keylore.Approvals.Invariant.{approvals_in, denials_in, DistinctReviewers}
use keylore.Approvals.Grants.{find_grant-IsGrant}
use keylore.Approvals.History.{Call, run, CallMade, run_keeps, approved_by_quorum}

-- Some call puts a request with this fingerprint before the reviewers.
pub record IsMade (host : Host) (calls : List Call) (fingerprint : String) : Type 0 where
  pub context : AuthContext
  pub input : AccessRequestInput
  pub decision : PendingDecision
  pub tenant_id : String
  pub called : Memᴰ (Call.create_pending context input decision tenant_id) calls
  pub same : fingerprint ≡ access_fingerprint host context input

abbrev TableMade : Host → List Call → List ApprovalRequest → Type 0
TableMade host calls table = All (λ (r : ApprovalRequest). IsMade host calls r.fingerprint) table

module _ (host : Host) (calls : List Call) where
  listed-IsMade : (call : Call) → Memᴰ call calls → CallMade (IsMade host calls) host call
  listed-IsMade (Call.create_pending c i d t) m = record {
    context = c;
    input = i;
    decision = d;
    tenant_id = t;
    called = m;
    same = refl;
  }
  listed-IsMade (Call.verify _ _) m = tt
  listed-IsMade (Call.list _ _) m = tt
  listed-IsMade (Call.review _ _ _ _) m = tt
  listed-IsMade (Call.wait _) m = tt

  expire-fingerprint :
      (now : ℕ) (r : ApprovalRequest) → (Table.expire now r).fingerprint ≡ r.fingerprint
  unfolding Table.expire
  expire-fingerprint now r = elim (Bool-cases (Table.is_pending r.status && leb r.expires_at now)) [
    | inl e ↦ rw e refl
    | inr e ↦ rw e refl
  ]

  expire_stale-TableMade :
      (now : ℕ) (table : List ApprovalRequest)
      → TableMade host calls table
      → TableMade host calls (Table.expire_stale now table)
  unfolding Table.expire_stale
  expire_stale-TableMade now table h =
      All-map _ (Table.expire now) table h
        (λ r k. subst (IsMade host calls) (sym (expire-fingerprint now r)) k)

  create-TableMade :
      (r : ApprovalRequest) (table : List ApprovalRequest)
      → IsMade host calls r.fingerprint
      → TableMade host calls table
      → TableMade host calls (Table.create r table).1
  unfolding Table.create
  create-TableMade r table made h = elim (Bool-cases (Table.fits_schema r)) [
    | inr e ↦ rw e h
    | inl e ↦ elim (Bool-cases (any (λ q. q.id == r.id) table)) [
      | inl f ↦ rw (e, f) h
      | inr f ↦ rw (e, f) (All-append _ table (r ∷ []) h (made, tt))
    ]
  ]

  review-TableMade :
      (now : ℕ) (review_id id : String) (update : Table.ReviewUpdate) (table : List ApprovalRequest)
      → TableMade host calls table
      → TableMade host calls (Table.review now review_id id update table).1
  unfolding Table.review Table.with_review
  review-TableMade now review_id id update table h =
      elim (Option-cases (Table.get_by_id id table)) [
        | inl e ↦ rw (e, Table.review) h
        | inr (current, e) ↦ elim (Bool-cases (Table.is_pending current.status)) [
          | inr f ↦ rw (e, Table.review, f) h
          | inl f ↦ elim (Bool-cases (Table.has_reviewed update.reviewed_by current.reviews)) [
            | inl g ↦ rw (e, Table.review, f, g) h
            | inr g ↦
                rw (e, Table.review, f, g)
                  (All-update_first _ (λ r. r.id == id) (Table.with_review now review_id update)
                    table h (λ x found k. k))
          ]
        ]
      ]

  run-TableMade :
      (config : KeyLoreConfig) (w : World)
      → w.approvals ≡ []
      → TableMade host calls (run host config calls w).approvals
  run-TableMade config w empty =
      run_keeps (TableMade host calls) (IsMade host calls) expire_stale-TableMade
        (λ r table f made h. create-TableMade r table made h) review-TableMade host config calls w
        (All-tabulate _ calls listed-IsMade) (subst (TableMade host calls) (sym empty) tt)

-- A row that the expiry leaves approved was there before it.
before_expiry :
    (now : ℕ) (table : List ApprovalRequest) {a : ApprovalRequest}
    → Memᴰ a (Table.expire_stale now table)
    → a.status ≡ ApprovalStatus.approved
    → Memᴰ a table
unfolding Table.expire_stale Table.expire
before_expiry now [] m h = elim m [ ]
before_expiry now (r ∷ rs) {a} m h =
    let rest : (Memᴰ a (Table.expire_stale now rs) → Memᴰ a rs) = λ n. before_expiry now rs n h in
    elim (Bool-cases (Table.is_pending r.status && leb r.expires_at now)) [
      | inl e ↦
          Mem-cons (Table.expire_stale now rs) rs (rw e at m) rest
            (λ same. absurd (cc (ap (λ (q : ApprovalRequest). q.status) same, h)))
      | inr e ↦ Mem-cons (Table.expire_stale now rs) rs (rw e at m) rest (λ same. Memᴰ.head same)
    ]

-- Some call put this very request before the reviewers.
pub record WasPut (calls : List Call) (context : AuthContext) (input : AccessRequestInput)
    : Type 0 where
  pub context_then : AuthContext
  pub input_then : AccessRequestInput
  pub decision : PendingDecision
  pub tenant_id : String
  pub called : Memᴰ (Call.create_pending context_then input_then decision tenant_id) calls
  pub same : SameRequest context_then input_then context input

-- The digest tells the request of the call from the given one, if they differ.
abbrev pub CallToldApart : Host → AuthContext → AccessRequestInput → Call → Type 0
CallToldApart host context input (Call.create_pending c i d t) = IsToldApart host c i context input
CallToldApart host context input _ = Unit

module _ (host : Host) (config : KeyLoreConfig) (calls : List Call) (w : World)
    (context : AuthContext) (input : AccessRequestInput) where
  WasPut-of :
      (a : ApprovalRequest)
      → All (CallToldApart host context input) calls
      → IsMade host calls a.fingerprint
      → a.fingerprint ≡ access_fingerprint host context input
      → WasPut calls context input
  unfolding access_fingerprint
  WasPut-of a apart made e = record {
    context_then = made.context;
    input_then = made.input;
    decision = made.decision;
    tenant_id = made.tenant_id;
    called = made.called;
    same =
        SameRequest-of made.context made.input context input
          (All-mem (CallToldApart host context input) calls apart made.called (sym made.same ∙ e));
  }

  -- After any calls on an empty table: what `verifyApproval` finds for a request was put before the
  -- reviewers by one of the calls, by the same caller, for the same credential, operation, target,
  -- headers and payload, and as many different reviewers as its quorum approved it and none denied it;
  -- provided that the digest tells this request from those of the calls that differ from it.
  pub grant_was_approved :
      {a : ApprovalRequest}
      → w.approvals ≡ []
      → All (CallToldApart host context input) calls
      → (verify_approval host config context input (run host config calls w)).0 ≡ ok (some a)
      → WasPut calls context input
        × (a.required_approvals ≤ approvals_in a.reviews)
        × (denials_in a.reviews ≡ 0)
        × DistinctReviewers a.reviews
  unfolding verify_approval expire_stale
  grant_was_approved {a} empty apart h =
      let v = run host config calls w in
      let table = Table.expire_stale v.now v.approvals in
      let g =
        find_grant-IsGrant host config context input v.now table {a = a} (ground (arith, h)) in
      let made =
        All-mem _ table
          (expire_stale-TableMade host calls v.now v.approvals
            (run-TableMade host calls config w empty))
          g.listed in
      let listed = before_expiry v.now v.approvals g.listed g.approved in
      let (quorum, undenied, distinct) =
        approved_by_quorum host config calls w empty listed g.approved in
      (WasPut-of a apart made g.matching, quorum, undenied, distinct)
