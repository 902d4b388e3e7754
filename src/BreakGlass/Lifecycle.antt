-- ===== src/BreakGlass/Lifecycle.antt =====
-- How the rows of `break_glass_requests` may change: the statements of
-- src/repositories/pg-break-glass-repository.ts as moves along one life cycle.
use mathlib.Core.List.{append_assoc, append-nil}
use keylore.Prelude.{
  ℕ, String, ◌≡◌, refl, sym, ap, ◌∙◌, Bool, true, false, Option, List, [], ◌∷◌, ◌++◌, arith, ◌==◌,
  ◌&&◌, ◌||◌, find-eq-some, ltb, leb, Bool-cases, Option-cases, inl, inr, any, find, Evolves,
  Evolves-refl, Evolves-append, Evolves-map, Evolves-update_first,
}
use keylore.Domain.Reviews.{Review, BreakGlassStatus, BreakGlassRequest}
use keylore.BreakGlass.Table.{
  is_pending, is_active, revoke, with_revocation, fits_schema, create, expire, expire_stale,
  get_by_id, ReviewUpdate, with_review, review_of, has_reviewed, review, next_status,
}
use keylore.BreakGlass.Invariant.{found_row}

-- The statuses that no statement leaves.
abbrev pub is_settled : BreakGlassStatus → Bool
is_settled BreakGlassStatus.denied = true
is_settled BreakGlassStatus.expired = true
is_settled BreakGlassStatus.revoked = true
is_settled _ = false

-- The moves of the life cycle: a pending row becomes active or denied by a review, an active row is
-- revoked, and either of them expires.
pub data Moves : BreakGlassStatus → BreakGlassStatus → Type 0 where
  activates : Moves BreakGlassStatus.pending BreakGlassStatus.active
  denies : Moves BreakGlassStatus.pending BreakGlassStatus.denied
  lapses : Moves BreakGlassStatus.pending BreakGlassStatus.expired
  ends : Moves BreakGlassStatus.active BreakGlassStatus.expired
  revokes : Moves BreakGlassStatus.active BreakGlassStatus.revoked

-- Any number of moves.
pub data Reaches : BreakGlassStatus → BreakGlassStatus → Type 0 where
  stays : {s : BreakGlassStatus} → Reaches s s
  moves : {s t u : BreakGlassStatus} → Moves s t → Reaches t u → Reaches s u

Reaches-trans : {s t u : BreakGlassStatus} → Reaches s t → Reaches t u → Reaches s u
Reaches-trans stays k = k
Reaches-trans (moves m h) k = moves m (Reaches-trans h k)

-- What was asked for and under which terms.
pub record SameTerms (r s : BreakGlassRequest) : Type 0 where
  pub id : s.id ≡ r.id
  pub tenant_id : s.tenant_id ≡ r.tenant_id
  pub requested_by : s.requested_by ≡ r.requested_by
  pub credential_id : s.credential_id ≡ r.credential_id
  pub fingerprint : s.fingerprint ≡ r.fingerprint
  pub expires_at : s.expires_at ≡ r.expires_at
  pub required_approvals : s.required_approvals ≡ r.required_approvals

-- The terms never change, reviews are only added (and only while the row is pending), the status goes
-- along the life cycle, and a row that is denied, expired or revoked never changes.
pub record Follows (r s : BreakGlassRequest) : Type 0 where
  pub terms : SameTerms r s
  pub history : (more : List Review) × (s.reviews ≡ r.reviews ++ more)
  pub unreviewed :
      is_pending r.status ≡ false → (s.reviews ≡ r.reviews) × (is_pending s.status ≡ false)
  pub path : Reaches r.status s.status
  pub settled : is_settled r.status ≡ true → s ≡ r

SameTerms-refl : (r : BreakGlassRequest) → SameTerms r r
SameTerms-refl r = record {
  id = refl;
  tenant_id = refl;
  requested_by = refl;
  credential_id = refl;
  fingerprint = refl;
  expires_at = refl;
  required_approvals = refl;
}

pub Follows-refl : (r : BreakGlassRequest) → Follows r r
Follows-refl r = record {
  terms = SameTerms-refl r;
  history = ([], sym (append-nil r.reviews));
  unreviewed = λ p. (refl, p);
  path = stays;
  settled = λ _. refl;
}

pub Follows-trans : (r s t : BreakGlassRequest) → Follows r s → Follows s t → Follows r t
Follows-trans r s t h k = record {
  terms = record {
    id = k.terms.id ∙ h.terms.id;
    tenant_id = k.terms.tenant_id ∙ h.terms.tenant_id;
    requested_by = k.terms.requested_by ∙ h.terms.requested_by;
    credential_id = k.terms.credential_id ∙ h.terms.credential_id;
    fingerprint = k.terms.fingerprint ∙ h.terms.fingerprint;
    expires_at = k.terms.expires_at ∙ h.terms.expires_at;
    required_approvals = k.terms.required_approvals ∙ h.terms.required_approvals;
  };
  history =
      let (more, e) = h.history in
      let (rest, f) = k.history in
      (more ++ rest, f ∙ ap (λ l. l ++ rest) e ∙ append_assoc r.reviews more rest);
  unreviewed = λ p. let (e, q) = h.unreviewed p in let (f, q') = k.unreviewed q in (f ∙ e, q');
  path = Reaches-trans h.path k.path;
  settled = λ p.
      let same = h.settled p in
      k.settled (ap (λ (u : BreakGlassRequest). is_settled u.status) same ∙ p) ∙ same;
}

-- A row that a statement finds open expires along the life cycle.
expires :
    (s : BreakGlassStatus)
    → (is_pending s || is_active s) ≡ true
    → Reaches s BreakGlassStatus.expired
expires BreakGlassStatus.pending h = moves lapses stays
expires BreakGlassStatus.active h = moves ends stays
expires BreakGlassStatus.denied h = cc
expires BreakGlassStatus.expired h = cc
expires BreakGlassStatus.revoked h = cc

reviewed :
    (denials approvals required : ℕ)
    → Reaches BreakGlassStatus.pending (next_status denials approvals required)
unfolding next_status
reviewed denials approvals required = elim (Bool-cases (ltb 0 denials)) [
  | inl e ↦ rw e (moves denies stays)
  | inr e ↦ elim (Bool-cases (leb required approvals)) [
    | inl f ↦ rw (e, f) (moves activates stays)
    | inr f ↦ rw (e, f) stays
  ]
]

reviewed_from :
    (s : BreakGlassStatus) (denials approvals required : ℕ)
    → is_pending s ≡ true
    → Reaches s (next_status denials approvals required)
reviewed_from BreakGlassStatus.pending d a q h = reviewed d a q
reviewed_from BreakGlassStatus.active d a q h = cc
reviewed_from BreakGlassStatus.denied d a q h = cc
reviewed_from BreakGlassStatus.expired d a q h = cc
reviewed_from BreakGlassStatus.revoked d a q h = cc

revoked_from : (s : BreakGlassStatus) → is_active s ≡ true → Reaches s BreakGlassStatus.revoked
revoked_from BreakGlassStatus.active h = moves revokes stays
revoked_from BreakGlassStatus.pending h = cc
revoked_from BreakGlassStatus.denied h = cc
revoked_from BreakGlassStatus.expired h = cc
revoked_from BreakGlassStatus.revoked h = cc

expire-Follows : (now : ℕ) (r : BreakGlassRequest) → Follows r (expire now r)
unfolding expire
expire-Follows now r =
    elim (Bool-cases ((is_pending r.status || is_active r.status) && leb r.expires_at now)) [
      | inr e ↦ rw e (Follows-refl r)
      | inl e ↦ rw e (record {
        terms = record {
          id = refl;
          tenant_id = refl;
          requested_by = refl;
          credential_id = refl;
          fingerprint = refl;
          expires_at = refl;
          required_approvals = refl;
        };
        history = ([], sym (append-nil r.reviews));
        unreviewed = λ _. (refl, refl);
        path = expires r.status (ground arith);
        settled = λ p. absurd (ground arith);
      })
    ]

with_review-Follows :
    (now : ℕ) (review_id : String) (update : ReviewUpdate) (r : BreakGlassRequest)
    → is_pending r.status ≡ true
    → Follows r (with_review now review_id update r)
unfolding with_review
with_review-Follows now review_id update r pending = record {
  terms = record {
    id = refl;
    tenant_id = refl;
    requested_by = refl;
    credential_id = refl;
    fingerprint = refl;
    expires_at = refl;
    required_approvals = refl;
  };
  history = (review_of now review_id update ∷ [], refl);
  unreviewed = λ p. cc;
  path = reviewed_from r.status _ _ r.required_approvals pending;
  settled = λ p. absurd (ground arith);
}

pub expire_stale-Evolves :
    (now : ℕ) (table : List BreakGlassRequest) → Evolves Follows table (expire_stale now table)
unfolding expire_stale
expire_stale-Evolves now table = Evolves-map Follows (expire now) table (expire-Follows now)

pub create-Evolves :
    (request : BreakGlassRequest) (table : List BreakGlassRequest)
    → Evolves Follows table (create request table).1
unfolding create
create-Evolves request table = elim (Bool-cases (fits_schema request)) [
  | inr e ↦ rw e (Evolves-refl Follows table Follows-refl)
  | inl e ↦ elim (Bool-cases (any (λ r. r.id == request.id) table)) [
    | inl f ↦ rw (e, f) (Evolves-refl Follows table Follows-refl)
    | inr f ↦ rw (e, f) (Evolves-append Follows table (request ∷ []) Follows-refl)
  ]
]

pub review-Evolves :
    (now : ℕ) (review_id id : String) (update : ReviewUpdate) (table : List BreakGlassRequest)
    → Evolves Follows table (review now review_id id update table).1
unfolding review
review-Evolves now review_id id update table = elim (Option-cases (get_by_id id table)) [
  | inl e ↦ rw (e, review) (Evolves-refl Follows table Follows-refl)
  | inr (current, e) ↦ elim (Bool-cases (is_pending current.status)) [
    | inr f ↦ rw (e, review, f) (Evolves-refl Follows table Follows-refl)
    | inl f ↦ elim (Bool-cases (has_reviewed update.reviewed_by current.reviews)) [
      | inl g ↦ rw (e, review, f, g) (Evolves-refl Follows table Follows-refl)
      | inr g ↦
          rw (e, review, f, g)
            (Evolves-update_first Follows (λ r. r.id == id) (with_review now review_id update) table
              Follows-refl
              (λ x found.
                with_review-Follows now review_id update x (rw (found_row id table found e) f)))
    ]
  ]
]

with_revocation-Follows :
    (now : ℕ) (by : String) (note : Option String) (r : BreakGlassRequest)
    → is_active r.status ≡ true
    → Follows r (with_revocation now by note r)
unfolding with_revocation
with_revocation-Follows now by _ r active = record {
  terms = record {
    id = refl;
    tenant_id = refl;
    requested_by = refl;
    credential_id = refl;
    fingerprint = refl;
    expires_at = refl;
    required_approvals = refl;
  };
  history = ([], sym (append-nil r.reviews));
  unreviewed = λ _. (refl, refl);
  path = revoked_from r.status active;
  settled = λ p. absurd (ground arith);
}

pub revoke-Evolves :
    (now : ℕ) (id by : String) (note : Option String) (table : List BreakGlassRequest)
    → Evolves Follows table (revoke now id by note table).1
unfolding revoke
revoke-Evolves now id by note table =
    elim (Option-cases (find (λ (r : BreakGlassRequest). r.id == id && is_active r.status) table)) [
      | inl e ↦ rw (e, revoke) (Evolves-refl Follows table Follows-refl)
      | inr (current, e) ↦
          rw (e, revoke)
            (Evolves-update_first Follows (λ r. r.id == id && is_active r.status)
              (with_revocation now by note) table Follows-refl
              (λ x found.
                let (_, t) =
                  find-eq-some (λ (r : BreakGlassRequest). r.id == id && is_active r.status) table
                    found in
                with_revocation-Follows now by note x (ground arith)))
    ]
