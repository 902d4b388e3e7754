-- ===== src/Approvals/Table.antt =====
-- The table `approval_requests` and its statements, src/repositories/pg-approval-repository.ts.
-- The schema check of a row that is read is not repeated: rows are checked when they are written.
use Prim.Native.String.{count}
use keylore.Prelude.{
  ℕ, ◌+◌, String, Bool, true, false, not, Option, none, some, List, [], ◌∷◌, ◌++◌, map, ◌&&◌, ◌||◌,
  ◌==◌, leb, ltb, if◌then◌else◌, any, find, filter, update_first, sort_desc, truthy, or_else,
  count_if,
}
use keylore.Exec.{Result, ok, thrown}
use keylore.Domain.Reviews.{Review, ReviewDecision, ApprovalStatus, ApprovalRequest}

abbrev pub status_index : ApprovalStatus → ℕ
status_index ApprovalStatus.pending = 0
status_index ApprovalStatus.approved = 1
status_index ApprovalStatus.denied = 2
status_index ApprovalStatus.expired = 3

abbrev pub is_pending : ApprovalStatus → Bool
is_pending ApprovalStatus.pending = true
is_pending _ = false

abbrev pub is_approved : ApprovalStatus → Bool
is_approved ApprovalStatus.approved = true
is_approved _ = false

abbrev pub is_approval : ReviewDecision → Bool
is_approval ReviewDecision.approved = true
is_approval ReviewDecision.denied = false

abbrev non_empty : String → Bool
non_empty s = not (s == "")

-- What `approvalRequestSchema` asks of a row beyond the formats of identifiers, times and URLs.
unfoldable pub fits_schema : ApprovalRequest → Bool
fits_schema r =
    non_empty r.tenant_id
    && leb (count r.tenant_id) 128
    && non_empty r.requested_by
    && not (leb (count_if (λ _. true) r.requested_roles) 0)
    && non_empty r.credential_id
    && non_empty r.target_host
    && non_empty r.reason
    && non_empty r.fingerprint
    && ltb 0 r.required_approvals

-- `id` is the primary key.
unfoldable pub create :
    ApprovalRequest → List ApprovalRequest → Result ApprovalRequest × List ApprovalRequest
create request table =
    if not (fits_schema request)
    then (thrown "ZodError", table)
    else if any (λ r. r.id == request.id) table
    then (thrown "duplicate key value violates unique constraint", table)
    else (ok request, table ++ request ∷ [])

unfoldable pub expire : ℕ → ApprovalRequest → ApprovalRequest
expire now r =
    if is_pending r.status && leb r.expires_at now
    then record r { status = ApprovalStatus.expired }
    else r

unfoldable pub expire_stale : ℕ → List ApprovalRequest → List ApprovalRequest
unfolding expire
expire_stale now table = map (expire now) table

unfoldable pub get_by_id : String → List ApprovalRequest → Option ApprovalRequest
get_by_id id table = find (λ r. r.id == id) table

abbrev has_status : Option ApprovalStatus → ApprovalRequest → Bool
has_status none r = true
has_status (some s) r = elim s [
  | ApprovalStatus.pending ↦ is_pending r.status
  | ApprovalStatus.approved ↦ is_approved r.status
  | ApprovalStatus.denied ↦ elim r.status [ ApprovalStatus.denied ↦ true | _ ↦ false ]
  | ApprovalStatus.expired ↦ elim r.status [ ApprovalStatus.expired ↦ true | _ ↦ false ]
]

-- The clauses are added for values that are truthy.
unfoldable pub list :
    Option ApprovalStatus → Option String → List ApprovalRequest → List ApprovalRequest
list status tenant_id table =
    sort_desc (λ r. r.created_at)
      (filter
        (λ r.
          has_status status r && (not (truthy tenant_id) || r.tenant_id == or_else tenant_id ""))
        table)

pub record ReviewUpdate : Type 0 where
  pub status : ReviewDecision
  pub reviewed_by : String
  pub review_note : Option String

unfoldable pub next_status : ℕ → ℕ → ℕ → ApprovalStatus
next_status denial_count approval_count required_approvals =
    if ltb 0 denial_count
    then ApprovalStatus.denied
    else if leb required_approvals approval_count
    then ApprovalStatus.approved
    else ApprovalStatus.pending

abbrev one_if : Bool → ℕ
one_if b = if b then 1 else 0

abbrev pub review_of : ℕ → String → ReviewUpdate → Review
review_of now review_id update = record {
  review_id = review_id;
  reviewed_at = now;
  reviewed_by = update.reviewed_by;
  decision = update.status;
  note = update.review_note;
}

-- The row with one more review.
unfoldable pub with_review : ℕ → String → ReviewUpdate → ApprovalRequest → ApprovalRequest
unfolding next_status
with_review now review_id update r =
    let approval_count = r.approval_count + one_if (is_approval update.status) in
    let denial_count = r.denial_count + one_if (not (is_approval update.status)) in
    record r {
      status = next_status denial_count approval_count r.required_approvals;
      approval_count = approval_count;
      denial_count = denial_count;
      reviews = r.reviews ++ review_of now review_id update ∷ [];
      reviewed_by = some update.reviewed_by;
      reviewed_at = some now;
      review_note = update.review_note;
    }

abbrev pub has_reviewed : String → List Review → Bool
has_reviewed reviewer reviews = any (λ (v : Review). v.reviewed_by == reviewer) reviews

review_found :
    ℕ
    → String
    → String
    → ReviewUpdate
    → List ApprovalRequest
    → ApprovalRequest
    → Result (Option ApprovalRequest) × List ApprovalRequest
review_found now review_id id update table current =
    if not (is_pending current.status)
    then (ok none, table)
    else if has_reviewed update.reviewed_by current.reviews
    then (thrown "Reviewer has already reviewed this request.", table)
    else (
      ok (some (with_review now review_id update current)),
      update_first (λ r. r.id == id) (with_review now review_id update) table,
    )

-- The transaction of `review`; a throw rolls it back.
unfoldable pub review :
    ℕ
    → String
    → String
    → ReviewUpdate
    → List ApprovalRequest
    → Result (Option ApprovalRequest) × List ApprovalRequest
unfolding review_found
review now review_id id update table = elim (get_by_id id table) [
  | none ↦ (ok none, table)
  | some current ↦ review_found now review_id id update table current
]
