-- ===== src/BreakGlass/Service/Methods.antt =====
-- What the methods of src/services/break-glass-service.ts keep of the table, given what its
-- statements keep; `Made` is what is known of the fingerprints of the rows that are created.
use keylore.Prelude.{
  ℕ, Bool, true, false, if◌then◌else◌, String, ◌≡◌, refl, sym, subst, Option, none, some, List, [],
}
use keylore.Exec.{Result, ok, thrown, Exec, ◌>>=◌, ◌>>◌, return}
use keylore.Exec.Keeps.{Keeps, Keeps-bind, Keeps-if, Keeps-return, Keeps-throw, Keeps-gets}
use keylore.Domain.{AuthContext}
use keylore.Domain.Access.{AccessRequestInput}
use keylore.Domain.Reviews.{BreakGlassStatus, BreakGlassRequest, BreakGlassInput}
use keylore.Domain.Config.{KeyLoreConfig}
use keylore.Egress.{Url}
use keylore.Fingerprint.{access_fingerprint}
use keylore.World.{World}
use keylore.World.Host.{Host, random_uuid}
use keylore.World.Quiet.{Quiet, Quiet-Keeps, quiet_rules}
use keylore.Audit.Frame.{random_uuid-Quiet, record_event-Quiet}
use keylore.Notifications.Frame.{send-Quiet}
use keylore.Approvals.Service.{new_url}
use keylore.BreakGlass.Table as Table
use keylore.BreakGlass.Table.{Ruling, ReviewUpdate}
use keylore.BreakGlass.Service.{
  as_access, parse_input, expire_stale, insert, pending_request, announce_request, create_request,
  find_grant, verify_active, list, announce_review, announce_if_taken, foreign, take_review,
  record_use, announce_revocation, announce_if_revoked, take_revocation, revoke, review,
}

-- A row as `createRequest` writes it: pending, and not reviewed.
pub record IsFresh (r : BreakGlassRequest) : Type 0 where
  pub pending : r.status ≡ BreakGlassStatus.pending
  pub approvals : r.approval_count ≡ 0
  pub denials : r.denial_count ≡ 0
  pub reviews : r.reviews ≡ []

module _ (host : Host) (config : KeyLoreConfig) where
  announce_request-Quiet :
      (context : AuthContext) (tenant_id : String) (r : BreakGlassRequest)
      → Quiet (announce_request host config context tenant_id r)
  unfolding announce_request
  announce_request-Quiet context tenant_id r = search (quiet_rules, record_event-Quiet, send-Quiet)

  announce_review-Quiet :
      (context : AuthContext) (update : ReviewUpdate) (r : BreakGlassRequest)
      → Quiet (announce_review host config context update r)
  unfolding announce_review
  announce_review-Quiet context update r = search (quiet_rules, record_event-Quiet, send-Quiet)

  announce_revocation-Quiet :
      (context : AuthContext) (r : BreakGlassRequest)
      → Quiet (announce_revocation host config context r)
  unfolding announce_revocation
  announce_revocation-Quiet context r = search (quiet_rules, record_event-Quiet, send-Quiet)

  announce_if_revoked-Quiet :
      (context : AuthContext) (revoked : Option BreakGlassRequest)
      → Quiet (announce_if_revoked host config context revoked)
  unfolding announce_if_revoked
  announce_if_revoked-Quiet context none = search quiet_rules
  announce_if_revoked-Quiet context (some r) = announce_revocation-Quiet context r

  pub record_use-Quiet :
      (context : AuthContext) (r : BreakGlassRequest) → Quiet (record_use host config context r)
  unfolding record_use
  record_use-Quiet context r = record_event-Quiet host _

  announce_if_taken-Quiet :
      (context : AuthContext) (update : ReviewUpdate) (taken : Option BreakGlassRequest)
      → Quiet (announce_if_taken host config context update taken)
  unfolding announce_if_taken
  announce_if_taken-Quiet context update none = search quiet_rules
  announce_if_taken-Quiet context update (some r) = announce_review-Quiet context update r

module _ (Q : List BreakGlassRequest → Type 0) (Made : String → Type 0)
    (expire_keeps : (now : ℕ) (table : List BreakGlassRequest)
      → Q table
      → Q (Table.expire_stale now table))
    (create_keeps : (r : BreakGlassRequest) (table : List BreakGlassRequest)
      → IsFresh r
      → Made r.fingerprint
      → Q table
      → Q (Table.create r table).1)
    (review_keeps : (now : ℕ) (review_id id : String) (update : ReviewUpdate)
        (table : List BreakGlassRequest)
      → Q table
      → Q (Table.review now review_id id update table).1)
    (revoke_keeps : (now : ℕ) (id by : String) (note : Option String)
        (table : List BreakGlassRequest)
      → Q table
      → Q (Table.revoke now id by note table).1)
    (host : Host) (config : KeyLoreConfig) where
  abbrev P : World → Type 0
  P w = Q w.break_glass

  Quiet-Keeps_table : {A : Type 0} (m : Exec World A) → Quiet m → Keeps P m
  Quiet-Keeps_table m q = Quiet-Keeps P m q (λ v w s p. subst Q (sym s.break_glass) p)

  expire_stale-Keeps : Keeps P expire_stale
  unfolding expire_stale
  expire_stale-Keeps = record { at = λ w h. expire_keeps w.now w.break_glass h }

  insert-Keeps : (r : BreakGlassRequest) → IsFresh r → Made r.fingerprint → Keeps P (insert r)
  unfolding insert
  insert-Keeps r f made = record { at = λ w h. create_keeps r w.break_glass f made h }

  new_url-Keeps : (raw : String) → Keeps P (new_url host raw)
  new_url-Keeps raw = record { at = λ w h. parsed (host.parse_url raw) w h }
    where
      parsed :
          (found : Option Url) (w : World)
          → P w
          → P (
              let r : Result Url × World = elim found [
                | none ↦ (thrown "Invalid URL", w)
                | some url ↦ (ok url, w)
              ] in
              r.1)
      parsed none w h = h
      parsed (some url) w h = h

  take_review-Keeps :
      (id : String) (update : ReviewUpdate) → Keeps P (take_review host config id update)
  unfolding take_review
  take_review-Keeps id update = record {
    at = λ w h. review_keeps w.now (host.uuid w.drawn) id update w.break_glass h;
  }

  take_revocation-Keeps :
      (id by : String) (note : Option String) → Keeps P (take_revocation host config id by note)
  unfolding take_revocation
  take_revocation-Keeps id by note = record {
    at = λ w h. revoke_keeps w.now id by note w.break_glass h;
  }

  -- The parse of the input throws or gives it back.
  parse-Keeps :
      {A : Type 0} (input : BreakGlassInput) (f : BreakGlassInput → Exec World A)
      → Keeps P (f input)
      → Keeps P ((λ w. (parse_input input, w)) >>= f)
  unfolding parse_input
  parse-Keeps input f k = parsed _
    where
      parsed : (b : Bool) → Keeps P ((λ w. ((if b then ok input else thrown "ZodError"), w)) >>= f)
      parsed true = k
      parsed false = record { at = λ w h. h }

  pub create_request-Keeps :
      (context : AuthContext) (input : BreakGlassInput) (tenant_id : String)
      → Made (access_fingerprint host context (as_access input))
      → Keeps P (create_request host config context input tenant_id)
  unfolding create_request pending_request
  create_request-Keeps context input tenant_id made = parse-Keeps input _ (
      Keeps-bind _ _ (Quiet-Keeps_table (random_uuid host) (random_uuid-Quiet host)) (λ id.
        Keeps-bind _ _ (Keeps-gets (λ w. w.now)) (λ now.
          Keeps-bind _ _ (new_url-Keeps input.target_url) (λ url.
            Keeps-bind _ _ (Quiet-Keeps_table (random_uuid host) (random_uuid-Quiet host))
              (λ correlation.
                Keeps-bind _ _
                  (insert-Keeps _
                    (record { pending = refl; approvals = refl; denials = refl; reviews = refl })
                    made)
                  (λ created.
                    Keeps-bind _ _
                      (Quiet-Keeps_table _
                        (announce_request-Quiet host config context tenant_id created))
                      (λ _. Keeps-return created)))))))

  pub verify_active-Keeps :
      (context : AuthContext) (input : AccessRequestInput)
      → Keeps P (verify_active host config context input)
  unfolding verify_active
  verify_active-Keeps context input =
      Keeps-bind _ _ expire_stale-Keeps
        (λ _. Keeps-gets (λ w. find_grant host config context input w.now w.break_glass))

  pub list-Keeps :
      (context : AuthContext) (wanted : Table.Filter) → Keeps P (list host config context wanted)
  unfolding list
  list-Keeps context wanted = Keeps-bind _ _ expire_stale-Keeps (λ _.
      Keeps-gets (λ w. Table.list (record wanted { tenant_id = context.tenant_id }) w.break_glass))

  take_and_announce :
      (id : String) (context : AuthContext) (update : ReviewUpdate)
      → Keeps P (
          take_review host config id update >>= λ reviewed.
          announce_if_taken host config context update reviewed >> return reviewed)
  take_and_announce id context update = Keeps-bind _ _ (take_review-Keeps id update) (λ reviewed.
      Keeps-bind _ _
        (Quiet-Keeps_table _ (announce_if_taken-Quiet host config context update reviewed))
        (λ _. Keeps-return reviewed))

  pub review-Keeps :
      (id : String) (context : AuthContext) (status : Ruling) (note : Option String)
      → Keeps P (review host config id context status note)
  unfolding review
  review-Keeps id context status note = Keeps-bind _ _ expire_stale-Keeps (λ _.
      Keeps-bind _ _ (Keeps-gets (λ w. Table.get_by_id id w.break_glass)) (λ existing.
        Keeps-if (foreign context existing) _ _ (Keeps-throw "Tenant access denied.") (
          take_and_announce id context
            (record { status = status; reviewed_by = context.principal; review_note = note }))))

  revoke_and_announce :
      (id : String) (context : AuthContext) (note : Option String)
      → Keeps P (
          take_revocation host config id context.principal note >>= λ revoked.
          announce_if_revoked host config context revoked >> return revoked)
  revoke_and_announce id context note =
      Keeps-bind _ _ (take_revocation-Keeps id context.principal note) (λ revoked.
        Keeps-bind _ _ (Quiet-Keeps_table _ (announce_if_revoked-Quiet host config context revoked))
          (λ _. Keeps-return revoked))

  pub revoke-Keeps :
      (id : String) (context : AuthContext) (note : Option String)
      → Keeps P (revoke host config id context note)
  unfolding revoke
  revoke-Keeps id context note = Keeps-bind _ _ expire_stale-Keeps (λ _.
      Keeps-bind _ _ (Keeps-gets (λ w. Table.get_by_id id w.break_glass)) (λ existing.
        Keeps-if (foreign context existing) _ _ (Keeps-throw "Tenant access denied.")
          (revoke_and_announce id context note)))
