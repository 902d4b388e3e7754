-- ===== src/BreakGlass/Tests.antt =====
-- The break-glass service on one request that a reviewer activates.
use keylore.Prelude.{◌≤◌, ◌≡◌, refl, none, some, List, [], ◌∷◌, Memᴰ, Evolves}
use keylore.Domain.{http_get, PrincipalRole}
use keylore.Domain.Reviews.{ReviewDecision, BreakGlassStatus, BreakGlassRequest}
use keylore.World.Host.{FingerprintInput}
use keylore.Fingerprint.{access_fingerprint}
use keylore.BreakGlass.Table.{Ruling}
use keylore.BreakGlass.Invariant.{TableIsSound, approvals_in, denials_in, DistinctReviewers}
use keylore.BreakGlass.Lifecycle.{Follows}
use keylore.BreakGlass.History.{Call, run, run-TableIsSound, run-Evolves, active_by_quorum}
use keylore.BreakGlass.Service.{find_grant}
use keylore.BreakGlass.Grants.{IsActiveGrant, find_grant-IsActiveGrant}
use keylore.BreakGlass.Origin.{WasPut, grant_was_activated}
use keylore.Domain.Access.{AccessRequestInput}
use keylore.BreakGlass.Table
use keylore.Audit
use keylore.BreakGlass.Service
use keylore.Notifications
use keylore.World.Host
use keylore.Fixtures.{host, config, caller, request, repos, world}

abbrev calls : List Call
calls =
    Call.create_request (caller "ci")
      (record {
        credential_id = "github";
        operation = http_get;
        target_url = repos;
        justification = "The deploy key is locked out.";
        requested_duration_seconds = some 900;
      })
      "acme"
    ∷ Call.review "id" (caller "ann") Ruling.active none
    ∷ Call.wait 60
    ∷ []

-- The row that those calls leave.
abbrev row : BreakGlassRequest
row = record {
  id = "id";
  tenant_id = "acme";
  created_at = 1000;
  expires_at = 901000;
  status = BreakGlassStatus.active;
  requested_by = "ci";
  requested_roles = PrincipalRole.consumer ∷ [];
  credential_id = "github";
  operation = http_get;
  target_url = repos;
  target_host = "api.example.com";
  justification = "The deploy key is locked out.";
  requested_duration_seconds = 900;
  correlation_id = "id";
  fingerprint = "ci";
  required_approvals = 1;
  approval_count = 1;
  denial_count = 0;
  reviews =
      record {
        review_id = "id";
        reviewed_at = 1000;
        reviewed_by = "ann";
        decision = ReviewDecision.approved;
        note = none;
      }
      ∷ [];
  reviewed_by = some "ann";
  reviewed_at = some 1000;
  review_note = none;
  revoked_by = none;
  revoked_at = none;
  revoke_note = none;
}

one_review_activates : (run host config calls (world [])).break_glass ≡ row ∷ []
unfolding run Service.review Table.get_by_id Table.expire_stale Service.create_request
    Host.random_uuid Table.create Table.fits_schema access_fingerprint Audit.record_event
    Notifications.send Table.review Table.with_review
one_review_activates = refl

active_by_quorum_example :
    (1 ≤ approvals_in row.reviews) × (denials_in row.reviews ≡ 0) × DistinctReviewers row.reviews
unfolding run Service.review Table.get_by_id Table.expire_stale Service.create_request
    Host.random_uuid Table.create Table.fits_schema access_fingerprint Audit.record_event
    Notifications.send Table.review Table.with_review
active_by_quorum_example =
    active_by_quorum host config calls (world []) {r = row} refl (Memᴰ.head refl) refl

run-TableIsSound_example : TableIsSound (run host config calls (world [])).break_glass
run-TableIsSound_example = run-TableIsSound host config calls (world []) tt

run-Evolves_example :
    Evolves Follows (world []).break_glass (run host config calls (world [])).break_glass
run-Evolves_example = run-Evolves host config calls (world [])

find_grant-IsActiveGrant_example : IsActiveGrant host (caller "ci") request 2000 (row ∷ []) row
unfolding find_grant Table.get_by_id access_fingerprint
find_grant-IsActiveGrant_example =
    find_grant-IsActiveGrant host config (caller "ci") request 2000 (row ∷ []) {a = row} refl

-- A request without headers, naming the grant.
abbrev asked : AccessRequestInput
asked = record request { headers = none; break_glass_id = some "id" }

grant_was_activated_example :
    WasPut calls (caller "ci") asked
    × (1 ≤ approvals_in row.reviews)
    × (denials_in row.reviews ≡ 0)
    × DistinctReviewers row.reviews
unfolding run Service.review Table.get_by_id Table.expire_stale Service.create_request
    Host.random_uuid Table.create Table.fits_schema access_fingerprint Audit.record_event
    Notifications.send Table.review Table.with_review Service.verify_active find_grant
grant_was_activated_example =
    grant_was_activated host config calls (world []) (caller "ci") asked {a = row} refl
      ((λ same. refl), (tt, (tt, tt))) refl
