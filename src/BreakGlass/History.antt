-- ===== src/BreakGlass/History.antt =====
-- Runs of src/services/break-glass-service.ts: any calls, in any order, with time passing between them.
use keylore.Prelude.{
  ℕ, ◌+◌, ◌≤◌, String, ◌≡◌, sym, subst, true, Option, List, [], ◌∷◌, arith, All, All-mem, Memᴰ,
  Evolves, Evolves-refl, Evolves-trans,
}
use keylore.Domain.{AuthContext}
use keylore.Domain.Access.{AccessRequestInput}
use keylore.Domain.Reviews.{BreakGlassStatus, BreakGlassRequest, BreakGlassInput}
use keylore.Domain.Config.{KeyLoreConfig}
use keylore.World.{World}
use keylore.World.Host.{Host}
use keylore.Fingerprint.{access_fingerprint}
use keylore.BreakGlass.Table as Table
use keylore.BreakGlass.Invariant.{
  IsSound, TableIsSound, DistinctReviewers, approvals_in, denials_in, StatusFits,
  expire_stale-IsSound, create-IsSound, review-IsSound, revoke-IsSound,
}
use keylore.BreakGlass.Lifecycle.{
  Follows, Follows-refl, Follows-trans, expire_stale-Evolves, create-Evolves, review-Evolves,
  revoke-Evolves,
}
use keylore.BreakGlass.Service
use keylore.BreakGlass.Service.{as_access, verify_active}
use keylore.BreakGlass.Service.Methods.{
  IsFresh, create_request-Keeps, verify_active-Keeps, list-Keeps, review-Keeps, revoke-Keeps,
}

pub data Call : Type 0 where
  create_request : AuthContext → BreakGlassInput → String → Call
  verify : AuthContext → AccessRequestInput → Call
  list : AuthContext → Table.Filter → Call
  review : String → AuthContext → Table.Ruling → Option String → Call
  revoke : String → AuthContext → Option String → Call
  wait : ℕ → Call

module _ (host : Host) (config : KeyLoreConfig) where
  -- The state after a call; an exception leaves what was written.
  unfoldable pub perform : Call → World → World
  perform (create_request context input tenant_id) w =
      (Service.create_request host config context input tenant_id w).1
  perform (verify context input) w = (verify_active host config context input w).1
  perform (list context status) w = (Service.list host config context status w).1
  perform (review id context status note) w =
      (Service.review host config id context status note w).1
  perform (revoke id context note) w = (Service.revoke host config id context note w).1
  perform (wait ms) w = record w { now = w.now + ms }

  unfoldable pub run : List Call → World → World
  unfolding perform
  run [] w = w
  run (call ∷ calls) w = run calls (perform call w)

fresh-IsSound : (r : BreakGlassRequest) → IsFresh r → Table.fits_schema r ≡ true → IsSound r
unfolding Table.fits_schema
fresh-IsSound r f h = record {
  approvals_counted = rw f.reviews f.approvals;
  denials_counted = rw f.reviews f.denials;
  distinct = subst DistinctReviewers (sym f.reviews) tt;
  status_fits =
      subst (λ s. StatusFits s r.required_approvals r.approval_count r.denial_count) (sym f.pending)
        (f.denials, ground arith);
}

-- A call that asks for a grant does so with a fingerprint that has `Made`.
abbrev pub CallMade : (String → Type 0) → Host → Call → Type 0
CallMade Made host (create_request context input tenant_id) =
    Made (access_fingerprint host context (as_access input))
CallMade Made host _ = Unit

all_made : (host : Host) (calls : List Call) → All (CallMade (λ s. Unit) host) calls
all_made host [] = tt
all_made host (create_request context input tenant_id ∷ calls) = (tt, all_made host calls)
all_made host (verify context input ∷ calls) = (tt, all_made host calls)
all_made host (list context status ∷ calls) = (tt, all_made host calls)
all_made host (review _ _ _ _ ∷ calls) = (tt, all_made host calls)
all_made host (revoke _ _ _ ∷ calls) = (tt, all_made host calls)
all_made host (wait ms ∷ calls) = (tt, all_made host calls)

module _ (Q : List BreakGlassRequest → Type 0) (Made : String → Type 0)
    (expire_keeps : (now : ℕ) (table : List BreakGlassRequest)
      → Q table
      → Q (Table.expire_stale now table))
    (create_keeps : (r : BreakGlassRequest) (table : List BreakGlassRequest)
      → IsFresh r
      → Made r.fingerprint
      → Q table
      → Q (Table.create r table).1)
    (review_keeps : (now : ℕ) (review_id id : String) (update : Table.ReviewUpdate)
        (table : List BreakGlassRequest)
      → Q table
      → Q (Table.review now review_id id update table).1)
    (revoke_keeps : (now : ℕ) (id by : String) (note : Option String)
        (table : List BreakGlassRequest)
      → Q table
      → Q (Table.revoke now id by note table).1)
    (host : Host) (config : KeyLoreConfig) where
  perform_keeps :
      (call : Call) (w : World)
      → CallMade Made host call
      → Q w.break_glass
      → Q (perform host config call w).break_glass
  unfolding perform
  perform_keeps (create_request context input tenant_id) w made h =
      (create_request-Keeps Q Made expire_keeps create_keeps review_keeps revoke_keeps host config
          context input tenant_id made).at
        w h
  perform_keeps (verify context input) w made h =
      (verify_active-Keeps Q Made expire_keeps create_keeps review_keeps revoke_keeps host config
          context input).at
        w h
  perform_keeps (list context status) w made h =
      (list-Keeps Q Made expire_keeps create_keeps review_keeps revoke_keeps host config context
          status).at
        w h
  perform_keeps (review id context status note) w made h =
      (review-Keeps Q Made expire_keeps create_keeps review_keeps revoke_keeps host config id
          context status note).at
        w h
  perform_keeps (revoke id context note) w made h =
      (revoke-Keeps Q Made expire_keeps create_keeps review_keeps revoke_keeps host config id
          context note).at
        w h
  perform_keeps (wait ms) w made h = h

  pub run_keeps :
      (calls : List Call) (w : World)
      → All (CallMade Made host) calls
      → Q w.break_glass
      → Q (run host config calls w).break_glass
  unfolding run
  run_keeps [] w made h = h
  run_keeps (call ∷ calls) w (first, made) h =
      run_keeps calls (perform host config call w) made (perform_keeps call w first h)

module _ (host : Host) (config : KeyLoreConfig) (calls : List Call) (w : World) where
  -- From a sound table, whatever calls are made and however time passes, every row stays sound: its
  -- counters are the numbers of its approving and denying reviews, no reviewer stands twice among
  -- them, and its status fits the counters and its quorum.
  pub run-TableIsSound :
      TableIsSound w.break_glass → TableIsSound (run host config calls w).break_glass
  run-TableIsSound =
      run_keeps TableIsSound (λ s. Unit) expire_stale-IsSound
        (λ r table f made h. create-IsSound r table (fresh-IsSound r f) h) review-IsSound
        revoke-IsSound host config calls w (all_made host calls)

  -- Over any calls, each row stands in the same place afterwards with the same terms; reviews are
  -- only added to it, and none once it is not pending, which it never is again; its status goes along
  -- the life cycle, in which a pending row becomes active or denied, an active row is revoked and
  -- either expires; and once it is denied, expired or revoked it never changes.
  pub run-Evolves : Evolves Follows w.break_glass (run host config calls w).break_glass
  run-Evolves =
      run_keeps (Evolves Follows w.break_glass) (λ s. Unit)
        (λ now t h. Evolves-trans Follows _ _ _ Follows-trans h (expire_stale-Evolves now t))
        (λ r t f made h. Evolves-trans Follows _ _ _ Follows-trans h (create-Evolves r t))
        (λ now v id u t h.
          Evolves-trans Follows _ _ _ Follows-trans h (review-Evolves now v id u t))
        (λ now id by note t h.
          Evolves-trans Follows _ _ _ Follows-trans h (revoke-Evolves now id by note t))
        host config calls w (all_made host calls) (Evolves-refl Follows w.break_glass Follows-refl)

  -- Starting with no requests, an active row has approving reviews of as many different reviewers
  -- as its quorum asks for, and no denial.
  pub active_by_quorum :
      {r : BreakGlassRequest}
      → w.break_glass ≡ []
      → Memᴰ r (run host config calls w).break_glass
      → r.status ≡ BreakGlassStatus.active
      → (r.required_approvals ≤ approvals_in r.reviews)
        × (denials_in r.reviews ≡ 0)
        × DistinctReviewers r.reviews
  active_by_quorum {r} empty listed approved =
      let sound : IsSound r =
        (All-mem IsSound _ (run-TableIsSound (subst TableIsSound (sym empty) tt)) listed) in
      let fits : (r.denial_count ≡ 0) × (r.required_approvals ≤ r.approval_count) =
        (subst (λ s. StatusFits s r.required_approvals r.approval_count r.denial_count) approved
          sound.status_fits) in
      (
        omega (arith, sound.approvals_counted, fits.1),
        omega (arith, sound.denials_counted, fits.0),
        sound.distinct,
      )
