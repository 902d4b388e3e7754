-- ===== src/BreakGlass/Invariant.antt =====
-- The invariant of the rows of `break_glass_requests` under the statements of
-- src/repositories/pg-break-glass-repository.ts.
use keylore.Prelude.{
  ℕ, ◌+◌, ◌≤◌, ◌<◌, String, ◌≡◌, ◌≢◌, sym, ◌&&◌, ◌||◌, Bool, true, false, not, Option, some, List,
  [], ◌∷◌, ◌++◌, arith, ◌==◌, eq_iff, ltb, leb, if◌then◌else◌, Bool-cases, Option-cases, inl, inr,
  All, All-append, All-map, All-update_first, count_if, count_if-append, find, find-eq-some, any,
}
use keylore.Domain.Reviews.{Review, BreakGlassStatus, BreakGlassRequest}
use keylore.BreakGlass.Table.{
  is_pending, is_active, is_approval, revoke, with_revocation, fits_schema, create, expire,
  expire_stale, get_by_id, ReviewUpdate, next_status, review_of, with_review, has_reviewed, review,
}

abbrev pub ReviewerIsNew : String → List Review → Type 0
ReviewerIsNew name reviews = All (λ (v : Review). v.reviewed_by ≢ name) reviews

-- No two reviews of a row have the same reviewer.
abbrev pub DistinctReviewers : List Review → Type 0
DistinctReviewers [] = Unit
DistinctReviewers (v ∷ vs) = ReviewerIsNew v.reviewed_by vs × DistinctReviewers vs

abbrev pub approvals_in : List Review → ℕ
approvals_in = count_if (λ (v : Review). is_approval v.decision)

abbrev pub denials_in : List Review → ℕ
denials_in = count_if (λ (v : Review). not (is_approval v.decision))

-- What a status says of the counters.
abbrev pub StatusFits : BreakGlassStatus → ℕ → ℕ → ℕ → Type 0
StatusFits BreakGlassStatus.pending required approvals denials =
    (denials ≡ 0) × (approvals < required)
StatusFits BreakGlassStatus.active required approvals denials =
    (denials ≡ 0) × (required ≤ approvals)
StatusFits BreakGlassStatus.denied required approvals denials = 0 < denials
StatusFits BreakGlassStatus.expired required approvals denials = denials ≡ 0
StatusFits BreakGlassStatus.revoked required approvals denials =
    (denials ≡ 0) × (required ≤ approvals)

pub record IsSound (r : BreakGlassRequest) : Type 0 where
  pub approvals_counted : r.approval_count ≡ approvals_in r.reviews
  pub denials_counted : r.denial_count ≡ denials_in r.reviews
  pub distinct : DistinctReviewers r.reviews
  pub status_fits : StatusFits r.status r.required_approvals r.approval_count r.denial_count

abbrev pub TableIsSound : List BreakGlassRequest → Type 0
TableIsSound table = All IsSound table

next_status-StatusFits :
    (denials approvals required : ℕ)
    → StatusFits (next_status denials approvals required) required approvals denials
unfolding next_status
next_status-StatusFits denials approvals required = elim (Bool-cases (ltb 0 denials)) [
  | inl e ↦ rw e (ground arith)
  | inr e ↦ elim (Bool-cases (leb required approvals)) [
    | inl f ↦ rw (e, f) (ground arith)
    | inr f ↦ rw (e, f) (ground arith)
  ]
]

new_of_has_reviewed :
    (name : String) (reviews : List Review)
    → has_reviewed name reviews ≡ false
    → ReviewerIsNew name reviews
new_of_has_reviewed name [] h = tt
new_of_has_reviewed name (v ∷ vs) h =
    ((λ e. ground (arith, eq_iff v.reviewed_by name)), new_of_has_reviewed name vs (ground arith))

pub DistinctReviewers-append :
    (reviews : List Review) (v : Review)
    → DistinctReviewers reviews
    → ReviewerIsNew v.reviewed_by reviews
    → DistinctReviewers (reviews ++ v ∷ [])
DistinctReviewers-append [] v d new = (tt, tt)
DistinctReviewers-append (u ∷ us) v (d, ds) (new, news) =
    (All-append _ us (v ∷ []) d ((λ e. new (sym e)), tt), DistinctReviewers-append us v ds news)

count_step :
    (n : ℕ) (reviews : List Review) (v : Review) (p : Review → Bool)
    → n ≡ count_if p reviews
    → n + (if p v then 1 else 0) ≡ count_if p (reviews ++ v ∷ [])
count_step n reviews v p h = omega (arith, h, count_if-append p reviews (v ∷ []))

-- A review by a new reviewer keeps a row sound, whatever its status was.
pub with_review-IsSound :
    (now : ℕ) (review_id : String) (update : ReviewUpdate) (r : BreakGlassRequest)
    → has_reviewed update.reviewed_by r.reviews ≡ false
    → IsSound r
    → IsSound (with_review now review_id update r)
unfolding with_review
with_review-IsSound now review_id update r new s = record {
  approvals_counted =
      count_step r.approval_count r.reviews (review_of now review_id update)
        (λ v. is_approval v.decision) s.approvals_counted;
  denials_counted =
      count_step r.denial_count r.reviews (review_of now review_id update)
        (λ v. not (is_approval v.decision)) s.denials_counted;
  distinct =
      DistinctReviewers-append r.reviews _ s.distinct
        (new_of_has_reviewed update.reviewed_by r.reviews new);
  status_fits = next_status-StatusFits _ _ r.required_approvals;
}

expire-IsSound : (now : ℕ) (r : BreakGlassRequest) → IsSound r → IsSound (expire now r)
unfolding expire
expire-IsSound now r s =
    elim (Bool-cases ((is_pending r.status || is_active r.status) && leb r.expires_at now)) [
      | inl e ↦ rw e (record {
        approvals_counted = s.approvals_counted;
        denials_counted = s.denials_counted;
        distinct = s.distinct;
        status_fits = pending_fits r.status (ground arith) s.status_fits;
      })
      | inr e ↦ rw e s
    ]
  where
    pending_fits :
        (status : BreakGlassStatus)
        → (is_pending status || is_active status) ≡ true
        → StatusFits status r.required_approvals r.approval_count r.denial_count
        → StatusFits BreakGlassStatus.expired r.required_approvals r.approval_count r.denial_count
    pending_fits BreakGlassStatus.pending h f = f.0
    pending_fits BreakGlassStatus.active h f = f.0
    pending_fits BreakGlassStatus.denied h f = cc
    pending_fits BreakGlassStatus.expired h f = cc
    pending_fits BreakGlassStatus.revoked h f = cc

pub expire_stale-IsSound :
    (now : ℕ) (table : List BreakGlassRequest)
    → TableIsSound table
    → TableIsSound (expire_stale now table)
unfolding expire_stale
expire_stale-IsSound now table h = All-map IsSound (expire now) table h (expire-IsSound now)

pub create-IsSound :
    (request : BreakGlassRequest) (table : List BreakGlassRequest)
    → (fits_schema request ≡ true → IsSound request)
    → TableIsSound table
    → TableIsSound (create request table).1
unfolding create
create-IsSound request table s h = elim (Bool-cases (fits_schema request)) [
  | inr e ↦ rw e h
  | inl e ↦ elim (Bool-cases (any (λ r. r.id == request.id) table)) [
    | inl f ↦ rw (e, f) h
    | inr f ↦ rw (e, f) (All-append IsSound table (request ∷ []) h (s e, tt))
  ]
]

pub found_row :
    (id : String) (table : List BreakGlassRequest) {x current : BreakGlassRequest}
    → find (λ (r : BreakGlassRequest). r.id == id) table ≡ some x
    → get_by_id id table ≡ some current
    → x ≡ current
unfolding get_by_id
found_row id table found e = cc

-- Every review, taken or refused, keeps the rows sound: the counters are the numbers of approving and
-- denying reviews, no reviewer counts twice, and the status fits the counters and the quorum.
pub review-IsSound :
    (now : ℕ) (review_id id : String) (update : ReviewUpdate) (table : List BreakGlassRequest)
    → TableIsSound table
    → TableIsSound (review now review_id id update table).1
unfolding review
review-IsSound now review_id id update table h = elim (Option-cases (get_by_id id table)) [
  | inl e ↦ rw (e, review) h
  | inr (current, e) ↦ elim (Bool-cases (is_pending current.status)) [
    | inr f ↦ rw (e, review, f) h
    | inl f ↦ elim (Bool-cases (has_reviewed update.reviewed_by current.reviews)) [
      | inl g ↦ rw (e, review, f, g) h
      | inr g ↦
          rw (e, review, f, g)
            (All-update_first IsSound (λ r. r.id == id) (with_review now review_id update) table h
              (λ x found s.
                with_review-IsSound now review_id update x (rw (found_row id table found e) g) s))
    ]
  ]
]

with_revocation-IsSound :
    (now : ℕ) (by : String) (note : Option String) (r : BreakGlassRequest)
    → is_active r.status ≡ true
    → IsSound r
    → IsSound (with_revocation now by note r)
unfolding with_revocation
with_revocation-IsSound now by _ r active s = record {
  approvals_counted = s.approvals_counted;
  denials_counted = s.denials_counted;
  distinct = s.distinct;
  status_fits = active_fits r.status active s.status_fits;
}
  where
    active_fits :
        (status : BreakGlassStatus)
        → is_active status ≡ true
        → StatusFits status r.required_approvals r.approval_count r.denial_count
        → StatusFits BreakGlassStatus.revoked r.required_approvals r.approval_count r.denial_count
    active_fits BreakGlassStatus.active h f = f
    active_fits BreakGlassStatus.pending h f = cc
    active_fits BreakGlassStatus.denied h f = cc
    active_fits BreakGlassStatus.expired h f = cc
    active_fits BreakGlassStatus.revoked h f = cc

pub revoke-IsSound :
    (now : ℕ) (id by : String) (note : Option String) (table : List BreakGlassRequest)
    → TableIsSound table
    → TableIsSound (revoke now id by note table).1
unfolding revoke
revoke-IsSound now id by note table h =
    elim (Option-cases (find (λ (r : BreakGlassRequest). r.id == id && is_active r.status) table)) [
      | inl e ↦ rw (e, revoke) h
      | inr (current, e) ↦
          rw (e, revoke)
            (All-update_first IsSound (λ r. r.id == id && is_active r.status)
              (with_revocation now by note) table h
              (λ x found s.
                let (_, t) =
                  find-eq-some (λ (r : BreakGlassRequest). r.id == id && is_active r.status) table
                    found in
                with_revocation-IsSound now by note x (ground arith) s))
    ]
