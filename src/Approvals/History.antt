-- ===== src/Approvals/History.antt =====
-- Runs of src/services/approval-service.ts: any calls, in any order, with time passing between them.
use keylore.Prelude.{
  ℕ, ◌+◌, ◌≤◌, String, ◌≡◌, sym, subst, true, Option, List, [], ◌∷◌, arith, All, All-mem, Memᴰ,
  Evolves, Evolves-refl, Evolves-trans,
}
use keylore.Domain.{AuthContext}
use keylore.Domain.Access.{AccessRequestInput}
use keylore.Domain.Reviews.{ReviewDecision, ApprovalStatus, ApprovalRequest}
use keylore.Domain.Config.{KeyLoreConfig}
use keylore.World.{World}
use keylore.World.Host.{Host}
use keylore.Fingerprint.{access_fingerprint}
use keylore.Approvals.Table as Table
use keylore.Approvals.Invariant.{
  IsSound, TableIsSound, DistinctReviewers, approvals_in, denials_in, StatusFits,
  expire_stale-IsSound, create-IsSound, review-IsSound,
}
use keylore.Approvals.Lifecycle.{
  Follows, Follows-refl, Follows-trans, expire_stale-Evolves, create-Evolves, review-Evolves,
}
use keylore.Approvals.Service
use keylore.Approvals.Service.{PendingDecision, verify_approval}
use keylore.Approvals.Service.Methods.{
  IsFresh, create_pending-Keeps, verify_approval-Keeps, list-Keeps, review-Keeps,
}

pub data Call : Type 0 where
  create_pending : AuthContext → AccessRequestInput → PendingDecision → String → Call
  verify : AuthContext → AccessRequestInput → Call
  list : AuthContext → Option ApprovalStatus → Call
  review : String → AuthContext → ReviewDecision → Option String → Call
  wait : ℕ → Call

module _ (host : Host) (config : KeyLoreConfig) where
  -- The state after a call; an exception leaves what was written.
  unfoldable pub perform : Call → World → World
  perform (create_pending context input decision tenant_id) w =
      (Service.create_pending host config context input decision tenant_id w).1
  perform (verify context input) w = (verify_approval host config context input w).1
  perform (list context status) w = (Service.list host config context status w).1
  perform (review id context status note) w =
      (Service.review host config id context status note w).1
  perform (wait ms) w = record w { now = w.now + ms }

  unfoldable pub run : List Call → World → World
  unfolding perform
  run [] w = w
  run (call ∷ calls) w = run calls (perform call w)

fresh-IsSound : (r : ApprovalRequest) → IsFresh r → Table.fits_schema r ≡ true → IsSound r
unfolding Table.fits_schema
fresh-IsSound r f h = record {
  approvals_counted = rw f.reviews f.approvals;
  denials_counted = rw f.reviews f.denials;
  distinct = subst DistinctReviewers (sym f.reviews) tt;
  status_fits =
      subst (λ s. StatusFits s r.required_approvals r.approval_count r.denial_count) (sym f.pending)
        (f.denials, ground arith);
}

-- A call that puts a request before the reviewers does so with a fingerprint that has `Made`.
abbrev pub CallMade : (String → Type 0) → Host → Call → Type 0
CallMade Made host (create_pending context input decision tenant_id) =
    Made (access_fingerprint host context input)
CallMade Made host _ = Unit

all_made : (host : Host) (calls : List Call) → All (CallMade (λ s. Unit) host) calls
all_made host [] = tt
all_made host (create_pending context input decision tenant_id ∷ calls) = (tt, all_made host calls)
all_made host (verify context input ∷ calls) = (tt, all_made host calls)
all_made host (list context status ∷ calls) = (tt, all_made host calls)
all_made host (review _ _ _ _ ∷ calls) = (tt, all_made host calls)
all_made host (wait ms ∷ calls) = (tt, all_made host calls)

module _ (Q : List ApprovalRequest → Type 0) (Made : String → Type 0)
    (expire_keeps : (now : ℕ) (table : List ApprovalRequest)
      → Q table
      → Q (Table.expire_stale now table))
    (create_keeps : (r : ApprovalRequest) (table : List ApprovalRequest)
      → IsFresh r
      → Made r.fingerprint
      → Q table
      → Q (Table.create r table).1)
    (review_keeps : (now : ℕ) (review_id id : String) (update : Table.ReviewUpdate)
        (table : List ApprovalRequest)
      → Q table
      → Q (Table.review now review_id id update table).1)
    (host : Host) (config : KeyLoreConfig) where
  perform_keeps :
      (call : Call) (w : World)
      → CallMade Made host call
      → Q w.approvals
      → Q (perform host config call w).approvals
  unfolding perform
  perform_keeps (create_pending context input decision tenant_id) w made h =
      (create_pending-Keeps Q Made expire_keeps create_keeps review_keeps host config context input
          decision tenant_id made).at
        w h
  perform_keeps (verify context input) w made h =
      (verify_approval-Keeps Q Made expire_keeps create_keeps review_keeps host config context
          input).at
        w h
  perform_keeps (list context status) w made h =
      (list-Keeps Q Made expire_keeps create_keeps review_keeps host config context status).at w h
  perform_keeps (review id context status note) w made h =
      (review-Keeps Q Made expire_keeps create_keeps review_keeps host config id context status
          note).at
        w h
  perform_keeps (wait ms) w made h = h

  pub run_keeps :
      (calls : List Call) (w : World)
      → All (CallMade Made host) calls
      → Q w.approvals
      → Q (run host config calls w).approvals
  unfolding run
  run_keeps [] w made h = h
  run_keeps (call ∷ calls) w (first, made) h =
      run_keeps calls (perform host config call w) made (perform_keeps call w first h)

module _ (host : Host) (config : KeyLoreConfig) (calls : List Call) (w : World) where
  -- From a sound table, whatever calls are made and however time passes, every row stays sound: its
  -- counters are the numbers of its approving and denying reviews, no reviewer stands twice among
  -- them, and its status fits the counters and its quorum.
  pub run-IsSound : TableIsSound w.approvals → TableIsSound (run host config calls w).approvals
  run-IsSound =
      run_keeps TableIsSound (λ s. Unit) expire_stale-IsSound
        (λ r table f made h. create-IsSound r table (fresh-IsSound r f) h) review-IsSound host
        config calls w (all_made host calls)

  -- Over any calls, each row stands in the same place afterwards with the same terms; reviews are
  -- only added to it; and once it is not pending (approved, denied or expired) it never changes.
  pub run-Follows : Evolves Follows w.approvals (run host config calls w).approvals
  run-Follows =
      run_keeps (Evolves Follows w.approvals) (λ s. Unit)
        (λ now t h. Evolves-trans Follows _ _ _ Follows-trans h (expire_stale-Evolves now t))
        (λ r t f made h. Evolves-trans Follows _ _ _ Follows-trans h (create-Evolves r t))
        (λ now v id u t h.
          Evolves-trans Follows _ _ _ Follows-trans h (review-Evolves now v id u t))
        host config calls w (all_made host calls) (Evolves-refl Follows w.approvals Follows-refl)

  -- Starting with no requests, an approved row has approving reviews of as many different reviewers
  -- as its quorum asks for, and no denial.
  pub approved_by_quorum :
      {r : ApprovalRequest}
      → w.approvals ≡ []
      → Memᴰ r (run host config calls w).approvals
      → r.status ≡ ApprovalStatus.approved
      → (r.required_approvals ≤ approvals_in r.reviews)
        × (denials_in r.reviews ≡ 0)
        × DistinctReviewers r.reviews
  approved_by_quorum {r} empty listed approved =
      let sound : IsSound r =
        (All-mem IsSound _ (run-IsSound (subst TableIsSound (sym empty) tt)) listed) in
      let fits : (r.denial_count ≡ 0) × (r.required_approvals ≤ r.approval_count) =
        (subst (λ s. StatusFits s r.required_approvals r.approval_count r.denial_count) approved
          sound.status_fits) in
      (
        omega (arith, sound.approvals_counted, fits.1),
        omega (arith, sound.denials_counted, fits.0),
        sound.distinct,
      )
