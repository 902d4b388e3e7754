-- ===== src/BreakGlass/Origin.antt =====
-- Where the grants of src/services/break-glass-service.ts come from: each was asked for by a call, and
-- activated by its quorum.
use keylore.Prelude.{
  ℕ, ◌≤◌, String, ◌≡◌, refl, sym, ap, ◌∙◌, subst, Option, some, List, [], ◌∷◌, arith, leb,
  Bool-cases, Option-cases, inl, inr, All, All-mem, All-map, All-append, All-update_first,
  All-tabulate, Memᴰ, Mem-cons, any, find, ◌==◌, ◌&&◌, ◌||◌,
}
use keylore.Exec.{ok}
use keylore.Domain.{AuthContext}
use keylore.Domain.Access.{AccessRequestInput}
use keylore.Domain.Reviews.{BreakGlassStatus, BreakGlassRequest, BreakGlassInput}
use keylore.Domain.Config.{KeyLoreConfig}
use keylore.World.{World}
use keylore.World.Host.{Host}
use keylore.Fingerprint.{access_fingerprint}
use keylore.Fingerprint.Binding.{SameRequest, IsToldApart, SameRequest-of}
use keylore.BreakGlass.Table as Table
use keylore.BreakGlass.Service.{as_access, expire_stale, verify_active}
use keylore.BreakGlass.Invariant.{approvals_in, denials_in, DistinctReviewers}
use keylore.BreakGlass.Grants.{find_grant-IsActiveGrant}
use keylore.BreakGlass.History.{Call, run, CallMade, run_keeps, active_by_quorum}

-- Some call asks for a grant with this fingerprint.
pub record IsMade (host : Host) (calls : List Call) (fingerprint : String) : Type 0 where
  pub context : AuthContext
  pub input : BreakGlassInput
  pub tenant_id : String
  pub called : Memᴰ (Call.create_request context input tenant_id) calls
  pub same : fingerprint ≡ access_fingerprint host context (as_access input)

abbrev TableMade : Host → List Call → List BreakGlassRequest → Type 0
TableMade host calls table = All (λ (r : BreakGlassRequest). IsMade host calls r.fingerprint) table

module _ (host : Host) (calls : List Call) where
  listed-IsMade : (call : Call) → Memᴰ call calls → CallMade (IsMade host calls) host call
  listed-IsMade (Call.create_request c i t) m = record {
    context = c;
    input = i;
    tenant_id = t;
    called = m;
    same = refl;
  }
  listed-IsMade (Call.verify _ _) m = tt
  listed-IsMade (Call.list _ _) m = tt
  listed-IsMade (Call.review _ _ _ _) m = tt
  listed-IsMade (Call.revoke _ _ _) m = tt
  listed-IsMade (Call.wait _) m = tt

  expire-fingerprint :
      (now : ℕ) (r : BreakGlassRequest) → (Table.expire now r).fingerprint ≡ r.fingerprint
  unfolding Table.expire
  expire-fingerprint now r =
      elim (Bool-cases
        ((Table.is_pending r.status || Table.is_active r.status) && leb r.expires_at now)) [
          | inl e ↦ rw e refl
          | inr e ↦ rw e refl
        ]

  expire_stale-TableMade :
      (now : ℕ) (table : List BreakGlassRequest)
      → TableMade host calls table
      → TableMade host calls (Table.expire_stale now table)
  unfolding Table.expire_stale
  expire_stale-TableMade now table h =
      All-map _ (Table.expire now) table h
        (λ r k. subst (IsMade host calls) (sym (expire-fingerprint now r)) k)

  create-TableMade :
      (r : BreakGlassRequest) (table : List BreakGlassRequest)
      → IsMade host calls r.fingerprint
      → TableMade host calls table
      → TableMade host calls (Table.create r table).1
  unfolding Table.create
  create-TableMade r table made h = elim (Bool-cases (Table.fits_schema r)) [
    | inr e ↦ rw e h
    | inl e ↦ elim (Bool-cases (any (λ q. q.id == r.id) table)) [
      | inl f ↦ rw (e, f) h
      | inr f ↦ rw (e, f) (All-append _ table (r ∷ []) h (made, tt))
    ]
  ]

  review-TableMade :
      (now : ℕ) (review_id id : String) (update : Table.ReviewUpdate)
      (table : List BreakGlassRequest)
      → TableMade host calls table
      → TableMade host calls (Table.review now review_id id update table).1
  unfolding Table.review Table.with_review
  review-TableMade now review_id id update table h =
      elim (Option-cases (Table.get_by_id id table)) [
        | inl e ↦ rw (e, Table.review) h
        | inr (current, e) ↦ elim (Bool-cases (Table.is_pending current.status)) [
          | inr f ↦ rw (e, Table.review, f) h
          | inl f ↦ elim (Bool-cases (Table.has_reviewed update.reviewed_by current.reviews)) [
            | inl g ↦ rw (e, Table.review, f, g) h
            | inr g ↦
                rw (e, Table.review, f, g)
                  (All-update_first _ (λ r. r.id == id) (Table.with_review now review_id update)
                    table h (λ x found k. k))
          ]
        ]
      ]

  revoke-TableMade :
      (now : ℕ) (id by : String) (why : Option String) (table : List BreakGlassRequest)
      → TableMade host calls table
      → TableMade host calls (Table.revoke now id by why table).1
  unfolding Table.revoke Table.with_revocation
  revoke-TableMade now id by why table h =
      let selected = λ (r : BreakGlassRequest). r.id == id && Table.is_active r.status in
      elim (Option-cases (find selected table)) [
        | inl e ↦ rw (e, Table.revoke) h
        | inr (current, e) ↦
            rw (e, Table.revoke)
              (All-update_first _ selected (Table.with_revocation now by why) table h
                (λ x found k. k))
      ]

  run-TableMade :
      (config : KeyLoreConfig) (w : World)
      → w.break_glass ≡ []
      → TableMade host calls (run host config calls w).break_glass
  run-TableMade config w empty =
      run_keeps (TableMade host calls) (IsMade host calls) expire_stale-TableMade
        (λ r table f made h. create-TableMade r table made h) review-TableMade revoke-TableMade host
        config calls w (All-tabulate _ calls listed-IsMade)
        (subst (TableMade host calls) (sym empty) tt)

-- A row that the expiry leaves active was there before it.
before_expiry :
    (now : ℕ) (table : List BreakGlassRequest) {a : BreakGlassRequest}
    → Memᴰ a (Table.expire_stale now table)
    → a.status ≡ BreakGlassStatus.active
    → Memᴰ a table
unfolding Table.expire_stale Table.expire
before_expiry now [] m h = elim m [ ]
before_expiry now (r ∷ rs) {a} m h =
    let rest : (Memᴰ a (Table.expire_stale now rs) → Memᴰ a rs) = λ n. before_expiry now rs n h in
    elim (Bool-cases
      ((Table.is_pending r.status || Table.is_active r.status) && leb r.expires_at now)) [
        | inl e ↦
            Mem-cons (Table.expire_stale now rs) rs (rw e at m) rest
              (λ same. absurd (cc (ap (λ (q : BreakGlassRequest). q.status) same, h)))
        | inr e ↦ Mem-cons (Table.expire_stale now rs) rs (rw e at m) rest (λ same. Memᴰ.head same)
      ]

-- Some call asked for a grant for this very request.
pub record WasPut (calls : List Call) (context : AuthContext) (input : AccessRequestInput)
    : Type 0 where
  pub context_then : AuthContext
  pub input_then : BreakGlassInput
  pub tenant_id : String
  pub called : Memᴰ (Call.create_request context_then input_then tenant_id) calls
  pub same : SameRequest context_then (as_access input_then) context input

-- The digest tells the request of the call from the given one, if they differ.
abbrev pub CallToldApart : Host → AuthContext → AccessRequestInput → Call → Type 0
CallToldApart host context input (Call.create_request c i t) =
    IsToldApart host c (as_access i) context input
CallToldApart host context input _ = Unit

module _ (host : Host) (config : KeyLoreConfig) (calls : List Call) (w : World)
    (context : AuthContext) (input : AccessRequestInput) where
  WasPut-of :
      (a : BreakGlassRequest)
      → All (CallToldApart host context input) calls
      → IsMade host calls a.fingerprint
      → a.fingerprint ≡ access_fingerprint host context input
      → WasPut calls context input
  unfolding access_fingerprint
  WasPut-of a apart made e = record {
    context_then = made.context;
    input_then = made.input;
    tenant_id = made.tenant_id;
    called = made.called;
    same =
        SameRequest-of made.context (as_access made.input) context input
          (All-mem (CallToldApart host context input) calls apart made.called (sym made.same ∙ e));
  }

  -- After any calls on an empty table: the grant that `verifyActive` finds for a request was asked for
  -- by one of the calls, by the same caller, for the same credential, operation and target; the request
  -- has no headers and no payload; and as many different reviewers as its quorum approved it and none
  -- denied it; provided that the digest tells this request from those of the calls that differ from it.
  pub grant_was_activated :
      {a : BreakGlassRequest}
      → w.break_glass ≡ []
      → All (CallToldApart host context input) calls
      → (verify_active host config context input (run host config calls w)).0 ≡ ok (some a)
      → WasPut calls context input
        × (a.required_approvals ≤ approvals_in a.reviews)
        × (denials_in a.reviews ≡ 0)
        × DistinctReviewers a.reviews
  unfolding verify_active expire_stale
  grant_was_activated {a} empty apart h =
      let v = run host config calls w in
      let table = Table.expire_stale v.now v.break_glass in
      let g =
        find_grant-IsActiveGrant host config context input v.now table {a = a}
          (ground (arith, h)) in
      let made =
        All-mem _ table
          (expire_stale-TableMade host calls v.now v.break_glass
            (run-TableMade host calls config w empty))
          g.listed in
      let listed = before_expiry v.now v.break_glass g.listed g.active in
      let (quorum, undenied, distinct) =
        active_by_quorum host config calls w empty listed g.active in
      (WasPut-of a apart made g.matching, quorum, undenied, distinct)
