-- ===== src/BreakGlass/Table.antt =====
-- The table `break_glass_requests` and its statements, src/repositories/pg-break-glass-repository.ts.
-- The schema check of a row that is read is not repeated: rows are checked when they are written.
use Prim.Native.String.{count}
use keylore.Prelude.{
  ℕ, ◌+◌, String, Bool, true, false, not, Option, none, some, List, [], ◌∷◌, ◌++◌, map, ◌&&◌, ◌||◌,
  ◌==◌, leb, ltb, if◌then◌else◌, any, find, filter, update_first, sort_desc, truthy, or_else,
  count_if,
}
use keylore.Exec.{Result, ok, thrown}
use keylore.Domain.Reviews.{Review, ReviewDecision, BreakGlassStatus, BreakGlassRequest}

abbrev pub is_pending : BreakGlassStatus → Bool
is_pending BreakGlassStatus.pending = true
is_pending _ = false

abbrev pub is_active : BreakGlassStatus → Bool
is_active BreakGlassStatus.active = true
is_active _ = false

-- What a reviewer may ask for, and the decision that the review records.
pub data Ruling : Type 0 where
  active denied : Ruling

abbrev pub decision_of : Ruling → ReviewDecision
decision_of Ruling.active = ReviewDecision.approved
decision_of Ruling.denied = ReviewDecision.denied

abbrev pub is_approval : ReviewDecision → Bool
is_approval ReviewDecision.approved = true
is_approval ReviewDecision.denied = false

abbrev non_empty : String → Bool
non_empty s = not (s == "")

-- What `breakGlassRequestSchema` asks of a row beyond the formats of identifiers, times and URLs.
unfoldable pub fits_schema : BreakGlassRequest → Bool
fits_schema r =
    non_empty r.tenant_id
    && leb (count r.tenant_id) 128
    && non_empty r.requested_by
    && not (leb (count_if (λ _. true) r.requested_roles) 0)
    && non_empty r.credential_id
    && non_empty r.target_host
    && leb 12 (count r.justification)
    && leb (count r.justification) 2000
    && leb 60 r.requested_duration_seconds
    && non_empty r.fingerprint
    && ltb 0 r.required_approvals

-- `id` is the primary key.
unfoldable pub create :
    BreakGlassRequest → List BreakGlassRequest → Result BreakGlassRequest × List BreakGlassRequest
create request table =
    if not (fits_schema request)
    then (thrown "ZodError", table)
    else if any (λ r. r.id == request.id) table
    then (thrown "duplicate key value violates unique constraint", table)
    else (ok request, table ++ request ∷ [])

unfoldable pub expire : ℕ → BreakGlassRequest → BreakGlassRequest
expire now r =
    if (is_pending r.status || is_active r.status) && leb r.expires_at now
    then record r { status = BreakGlassStatus.expired }
    else r

unfoldable pub expire_stale : ℕ → List BreakGlassRequest → List BreakGlassRequest
unfolding expire
expire_stale now table = map (expire now) table

unfoldable pub get_by_id : String → List BreakGlassRequest → Option BreakGlassRequest
get_by_id id table = find (λ r. r.id == id) table

abbrev same_status : BreakGlassStatus → BreakGlassStatus → Bool
same_status BreakGlassStatus.pending s = is_pending s
same_status BreakGlassStatus.active s = is_active s
same_status BreakGlassStatus.denied s = elim s [ BreakGlassStatus.denied ↦ true | _ ↦ false ]
same_status BreakGlassStatus.expired s = elim s [ BreakGlassStatus.expired ↦ true | _ ↦ false ]
same_status BreakGlassStatus.revoked s = elim s [ BreakGlassStatus.revoked ↦ true | _ ↦ false ]

pub record Filter : Type 0 where
  pub status : Option BreakGlassStatus
  pub requested_by : Option String
  pub tenant_id : Option String

abbrev has_status : Option BreakGlassStatus → BreakGlassRequest → Bool
has_status none r = true
has_status (some s) r = same_status s r.status

-- A clause is added for each value that is truthy.
abbrev has_text : Option String → String → Bool
has_text wanted found = not (truthy wanted) || found == or_else wanted ""

unfoldable pub list : Filter → List BreakGlassRequest → List BreakGlassRequest
list wanted table =
    sort_desc (λ r. r.created_at)
      (filter
        (λ r.
          has_status wanted.status r
          && has_text wanted.requested_by r.requested_by
          && has_text wanted.tenant_id r.tenant_id)
        table)

pub record ReviewUpdate : Type 0 where
  pub status : Ruling
  pub reviewed_by : String
  pub review_note : Option String

unfoldable pub next_status : ℕ → ℕ → ℕ → BreakGlassStatus
next_status denial_count approval_count required_approvals =
    if ltb 0 denial_count
    then BreakGlassStatus.denied
    else if leb required_approvals approval_count
    then BreakGlassStatus.active
    else BreakGlassStatus.pending

abbrev one_if : Bool → ℕ
one_if b = if b then 1 else 0

abbrev pub review_of : ℕ → String → ReviewUpdate → Review
review_of now review_id update = record {
  review_id = review_id;
  reviewed_at = now;
  reviewed_by = update.reviewed_by;
  decision = decision_of update.status;
  note = update.review_note;
}

-- The row with one more review.
unfoldable pub with_review : ℕ → String → ReviewUpdate → BreakGlassRequest → BreakGlassRequest
unfolding next_status
with_review now review_id update r =
    let approval_count = r.approval_count + one_if (is_approval (decision_of update.status)) in
    let denial_count = r.denial_count + one_if (not (is_approval (decision_of update.status))) in
    record r {
      status = next_status denial_count approval_count r.required_approvals;
      approval_count = approval_count;
      denial_count = denial_count;
      reviews = r.reviews ++ review_of now review_id update ∷ [];
      reviewed_by = some update.reviewed_by;
      reviewed_at = some now;
      review_note = update.review_note;
    }

abbrev pub has_reviewed : String → List Review → Bool
has_reviewed reviewer reviews = any (λ (v : Review). v.reviewed_by == reviewer) reviews

review_found :
    ℕ
    → String
    → String
    → ReviewUpdate
    → List BreakGlassRequest
    → BreakGlassRequest
    → Result (Option BreakGlassRequest) × List BreakGlassRequest
review_found now review_id id update table current =
    if not (is_pending current.status)
    then (ok none, table)
    else if has_reviewed update.reviewed_by current.reviews
    then (thrown "Reviewer has already reviewed this request.", table)
    else (
      ok (some (with_review now review_id update current)),
      update_first (λ r. r.id == id) (with_review now review_id update) table,
    )

-- The transaction of `review`; a throw rolls it back.
unfoldable pub review :
    ℕ
    → String
    → String
    → ReviewUpdate
    → List BreakGlassRequest
    → Result (Option BreakGlassRequest) × List BreakGlassRequest
unfolding review_found
review now review_id id update table = elim (get_by_id id table) [
  | none ↦ (ok none, table)
  | some current ↦ review_found now review_id id update table current
]

-- The row after a revocation.
unfoldable pub with_revocation : ℕ → String → Option String → BreakGlassRequest → BreakGlassRequest
with_revocation now revoked_by revoke_note r = record r {
  status = BreakGlassStatus.revoked;
  revoked_by = some revoked_by;
  revoked_at = some now;
  revoke_note = revoke_note;
}

-- UPDATE … WHERE id = $1 AND status = 'active' RETURNING *
unfoldable pub revoke :
    ℕ
    → String
    → String
    → Option String
    → List BreakGlassRequest
    → Result (Option BreakGlassRequest) × List BreakGlassRequest
revoke now id revoked_by revoke_note table =
    let selected = λ (r : BreakGlassRequest). r.id == id && is_active r.status in
    elim (find selected table) [
      | none ↦ (ok none, table)
      | some r ↦ (
        ok (some (with_revocation now revoked_by revoke_note r)),
        update_first selected (with_revocation now revoked_by revoke_note) table,
      )
    ]
