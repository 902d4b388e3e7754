-- ===== src/Approvals/Tests.antt =====
-- The approval service on one request that two reviewers approve.
use keylore.Prelude.{◌≤◌, String, ◌≡◌, refl, none, some, List, [], ◌∷◌, Memᴰ, Evolves}
use keylore.Domain.{http_get, PrincipalRole}
use keylore.Domain.Reviews.{Review, ReviewDecision, ApprovalStatus, ApprovalRequest}
use keylore.World.Host.{FingerprintInput}
use keylore.Fingerprint.{access_fingerprint}
use keylore.Approvals.Invariant.{TableIsSound, approvals_in, denials_in, DistinctReviewers}
use keylore.Approvals.Lifecycle.{Follows}
use keylore.Approvals.History.{Call, run, run-IsSound, run-Follows, approved_by_quorum}
use keylore.Approvals.Service.{find_grant}
use keylore.Approvals.Grants.{IsGrant, find_grant-IsGrant}
use keylore.Approvals.Origin.{WasPut, grant_was_approved}
use keylore.Domain.Access.{AccessRequestInput}
use keylore.Approvals.Service
use keylore.Approvals.Table
use keylore.Audit
use keylore.Notifications
use keylore.World.Host
use keylore.Fixtures.{host, config, caller, request, repos, world}

-- The request when it is first made: it names no approval yet.
abbrev asked : AccessRequestInput
asked = record request { approval_id = none }

abbrev calls : List Call
calls =
    Call.create_pending (caller "ci") asked
      (record { reason = "GitHub reads"; rule_id = some "ask-reads"; correlation_id = "c1" }) "acme"
    ∷ Call.create_pending (caller "bob") asked
        (record { reason = "GitHub reads"; rule_id = none; correlation_id = "c2" }) "acme"
    ∷ Call.review "id" (caller "ann") ReviewDecision.approved none
    ∷ Call.review "id" (caller "ann") ReviewDecision.approved none
    ∷ Call.review "id" (caller "bob") ReviewDecision.approved none
    ∷ Call.wait 60
    ∷ []

abbrev reviewed_by : String → Review
reviewed_by reviewer = record {
  review_id = "id";
  reviewed_at = 1000;
  reviewed_by = reviewer;
  decision = ReviewDecision.approved;
  note = none;
}

-- The row that those calls leave: the second review by the same person was not taken.
abbrev row : ApprovalRequest
row = record {
  id = "id";
  tenant_id = "acme";
  created_at = 1000;
  expires_at = 601000;
  status = ApprovalStatus.approved;
  requested_by = "ci";
  requested_roles = PrincipalRole.consumer ∷ [];
  credential_id = "github";
  operation = http_get;
  target_url = repos;
  target_host = "api.example.com";
  reason = "GitHub reads";
  rule_id = some "ask-reads";
  correlation_id = "c1";
  fingerprint = "ci";
  required_approvals = 2;
  approval_count = 2;
  denial_count = 0;
  reviews = reviewed_by "ann" ∷ reviewed_by "bob" ∷ [];
  reviewed_by = some "bob";
  reviewed_at = some 1000;
  review_note = none;
}

two_reviews_approve : (run host config calls (world [])).approvals ≡ row ∷ []
unfolding run Service.review Table.get_by_id Table.expire_stale Service.create_pending
    Host.random_uuid Table.create Table.fits_schema access_fingerprint Audit.record_event
    Notifications.send Table.review Table.with_review
two_reviews_approve = refl

approved_by_quorum_example :
    (2 ≤ approvals_in row.reviews) × (denials_in row.reviews ≡ 0) × DistinctReviewers row.reviews
unfolding run Service.review Table.get_by_id Table.expire_stale Service.create_pending
    Host.random_uuid Table.create Table.fits_schema access_fingerprint Audit.record_event
    Notifications.send Table.review Table.with_review
approved_by_quorum_example =
    approved_by_quorum host config calls (world []) {r = row} refl (Memᴰ.head refl) refl

run-IsSound_example : TableIsSound (run host config calls (world [])).approvals
run-IsSound_example = run-IsSound host config calls (world []) tt

run-Follows_example :
    Evolves Follows (world []).approvals (run host config calls (world [])).approvals
run-Follows_example = run-Follows host config calls (world [])

find_grant-IsGrant_example : IsGrant host (caller "ci") request 2000 (row ∷ []) row
unfolding find_grant Table.get_by_id access_fingerprint
find_grant-IsGrant_example =
    find_grant-IsGrant host config (caller "ci") request 2000 (row ∷ []) {a = row} refl

-- The request as it is made once more, naming the approval.
grant_was_approved_example :
    WasPut calls (caller "ci") request
    × (2 ≤ approvals_in row.reviews)
    × (denials_in row.reviews ≡ 0)
    × DistinctReviewers row.reviews
unfolding run Service.review Table.get_by_id Table.expire_stale Service.create_pending
    Host.random_uuid Table.create Table.fits_schema access_fingerprint Audit.record_event
    Notifications.send Table.review Table.with_review Service.verify_approval find_grant
grant_was_approved_example =
    grant_was_approved host config calls (world []) (caller "ci") request {a = row} refl
      ((λ same. refl), ((λ same. absurd (cc same)), (tt, (tt, (tt, (tt, tt)))))) refl
