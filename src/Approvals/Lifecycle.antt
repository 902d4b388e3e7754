-- ===== src/Approvals/Lifecycle.antt =====
-- How the rows of `approval_requests` may change: the statements of
-- src/repositories/pg-approval-repository.ts as moves along one life cycle.
use mathlib.Core.List.{append_assoc, append-nil}
use keylore.Prelude.{
  ℕ, String, ◌≡◌, refl, sym, ap, ◌∙◌, true, false, List, [], ◌∷◌, ◌++◌, arith, ◌==◌, ◌&&◌, leb,
  Bool-cases, Option-cases, inl, inr, any, Evolves, Evolves-refl, Evolves-append, Evolves-map,
  Evolves-update_first,
}
use keylore.Domain.Reviews.{Review, ApprovalRequest}
use keylore.Approvals.Table.{
  is_pending, fits_schema, create, expire, expire_stale, get_by_id, ReviewUpdate, with_review,
  review_of, has_reviewed, review,
}
use keylore.Approvals.Invariant.{found_row}

-- What was asked for and under which terms.
pub record SameTerms (r s : ApprovalRequest) : Type 0 where
  pub id : s.id ≡ r.id
  pub tenant_id : s.tenant_id ≡ r.tenant_id
  pub requested_by : s.requested_by ≡ r.requested_by
  pub credential_id : s.credential_id ≡ r.credential_id
  pub fingerprint : s.fingerprint ≡ r.fingerprint
  pub expires_at : s.expires_at ≡ r.expires_at
  pub required_approvals : s.required_approvals ≡ r.required_approvals

-- The terms never change, reviews are only added, and a row that is not pending never changes.
pub record Follows (r s : ApprovalRequest) : Type 0 where
  pub terms : SameTerms r s
  pub history : (more : List Review) × (s.reviews ≡ r.reviews ++ more)
  pub settled : is_pending r.status ≡ false → s ≡ r

SameTerms-refl : (r : ApprovalRequest) → SameTerms r r
SameTerms-refl r = record {
  id = refl;
  tenant_id = refl;
  requested_by = refl;
  credential_id = refl;
  fingerprint = refl;
  expires_at = refl;
  required_approvals = refl;
}

pub Follows-refl : (r : ApprovalRequest) → Follows r r
Follows-refl r = record {
  terms = SameTerms-refl r;
  history = ([], sym (append-nil r.reviews));
  settled = λ _. refl;
}

pub Follows-trans : (r s t : ApprovalRequest) → Follows r s → Follows s t → Follows r t
Follows-trans r s t h k = record {
  terms = record {
    id = k.terms.id ∙ h.terms.id;
    tenant_id = k.terms.tenant_id ∙ h.terms.tenant_id;
    requested_by = k.terms.requested_by ∙ h.terms.requested_by;
    credential_id = k.terms.credential_id ∙ h.terms.credential_id;
    fingerprint = k.terms.fingerprint ∙ h.terms.fingerprint;
    expires_at = k.terms.expires_at ∙ h.terms.expires_at;
    required_approvals = k.terms.required_approvals ∙ h.terms.required_approvals;
  };
  history =
      let (more, e) = h.history in
      let (rest, f) = k.history in
      (more ++ rest, f ∙ ap (λ l. l ++ rest) e ∙ append_assoc r.reviews more rest);
  settled = λ p.
      let same = h.settled p in
      k.settled (ap (λ (u : ApprovalRequest). is_pending u.status) same ∙ p) ∙ same;
}

expire-Follows : (now : ℕ) (r : ApprovalRequest) → Follows r (expire now r)
unfolding expire
expire-Follows now r = elim (Bool-cases (is_pending r.status && leb r.expires_at now)) [
  | inr e ↦ rw e (Follows-refl r)
  | inl e ↦ rw e (record {
    terms = record {
      id = refl;
      tenant_id = refl;
      requested_by = refl;
      credential_id = refl;
      fingerprint = refl;
      expires_at = refl;
      required_approvals = refl;
    };
    history = ([], sym (append-nil r.reviews));
    settled = λ p. absurd (ground arith);
  })
]

with_review-Follows :
    (now : ℕ) (review_id : String) (update : ReviewUpdate) (r : ApprovalRequest)
    → is_pending r.status ≡ true
    → Follows r (with_review now review_id update r)
unfolding with_review
with_review-Follows now review_id update r pending = record {
  terms = record {
    id = refl;
    tenant_id = refl;
    requested_by = refl;
    credential_id = refl;
    fingerprint = refl;
    expires_at = refl;
    required_approvals = refl;
  };
  history = (review_of now review_id update ∷ [], refl);
  settled = λ p. cc;
}

pub expire_stale-Evolves :
    (now : ℕ) (table : List ApprovalRequest) → Evolves Follows table (expire_stale now table)
unfolding expire_stale
expire_stale-Evolves now table = Evolves-map Follows (expire now) table (expire-Follows now)

pub create-Evolves :
    (request : ApprovalRequest) (table : List ApprovalRequest)
    → Evolves Follows table (create request table).1
unfolding create
create-Evolves request table = elim (Bool-cases (fits_schema request)) [
  | inr e ↦ rw e (Evolves-refl Follows table Follows-refl)
  | inl e ↦ elim (Bool-cases (any (λ r. r.id == request.id) table)) [
    | inl f ↦ rw (e, f) (Evolves-refl Follows table Follows-refl)
    | inr f ↦ rw (e, f) (Evolves-append Follows table (request ∷ []) Follows-refl)
  ]
]

pub review-Evolves :
    (now : ℕ) (review_id id : String) (update : ReviewUpdate) (table : List ApprovalRequest)
    → Evolves Follows table (review now review_id id update table).1
unfolding review
review-Evolves now review_id id update table = elim (Option-cases (get_by_id id table)) [
  | inl e ↦ rw (e, review) (Evolves-refl Follows table Follows-refl)
  | inr (current, e) ↦ elim (Bool-cases (is_pending current.status)) [
    | inr f ↦ rw (e, review, f) (Evolves-refl Follows table Follows-refl)
    | inl f ↦ elim (Bool-cases (has_reviewed update.reviewed_by current.reviews)) [
      | inl g ↦ rw (e, review, f, g) (Evolves-refl Follows table Follows-refl)
      | inr g ↦
          rw (e, review, f, g)
            (Evolves-update_first Follows (λ r. r.id == id) (with_review now review_id update) table
              Follows-refl
              (λ x found.
                with_review-Follows now review_id update x (rw (found_row id table found e) f)))
    ]
  ]
]
