-- ===== src/Approvals/Service/Methods.antt =====
-- What the methods of src/services/approval-service.ts keep of the table, given what its
-- statements keep; `Made` is what is known of the fingerprints of the rows that are created.
use keylore.Prelude.{ℕ, String, ◌≡◌, refl, sym, ◌∙◌, subst, arith, Option, none, some, List, []}
use keylore.Exec.{Result, ok, thrown, Exec, ◌>>=◌, ◌>>◌, return}
use keylore.Exec.Keeps.{Keeps, Keeps-bind, Keeps-if, Keeps-return, Keeps-throw, Keeps-gets}
use keylore.Domain.{AuthContext}
use keylore.Domain.Access.{AccessRequestInput}
use keylore.Domain.Reviews.{ReviewDecision, ApprovalStatus, ApprovalRequest}
use keylore.Domain.Config.{KeyLoreConfig}
use keylore.Egress.{Url}
use keylore.Fingerprint.{access_fingerprint}
use keylore.World.{World, Outbound}
use keylore.World.Host.{Host, random_uuid}
use keylore.World.Quiet.{Quiet, Quiet-Keeps, quiet_rules}
use keylore.Audit.Frame.{random_uuid-Quiet, record_event-Quiet}
use keylore.Notifications.Frame.{send-Quiet}
use keylore.Approvals.Table as Table
use keylore.Approvals.Table.{ReviewUpdate}
use keylore.Approvals.Service.{
  PendingDecision, new_url, expire_stale, insert, pending_request, announce_pending, create_pending,
  find_grant, verify_approval, list, announce_review, announce_if_taken, foreign, take_review,
  review,
}

-- A row as `createPending` writes it: pending, and not reviewed.
pub record IsFresh (r : ApprovalRequest) : Type 0 where
  pub pending : r.status ≡ ApprovalStatus.pending
  pub approvals : r.approval_count ≡ 0
  pub denials : r.denial_count ≡ 0
  pub reviews : r.reviews ≡ []

module _ (host : Host) (config : KeyLoreConfig) where
  announce_pending-Quiet :
      (context : AuthContext) (decision : PendingDecision) (tenant_id : String)
      (r : ApprovalRequest)
      → Quiet (announce_pending host config context decision tenant_id r)
  unfolding announce_pending
  announce_pending-Quiet context decision tenant_id r =
      search (quiet_rules, record_event-Quiet, send-Quiet)

  announce_review-Quiet :
      (context : AuthContext) (update : ReviewUpdate) (r : ApprovalRequest)
      → Quiet (announce_review host config context update r)
  unfolding announce_review
  announce_review-Quiet context update r = search (quiet_rules, record_event-Quiet, send-Quiet)

  announce_if_taken-Quiet :
      (context : AuthContext) (update : ReviewUpdate) (taken : Option ApprovalRequest)
      → Quiet (announce_if_taken host config context update taken)
  unfolding announce_if_taken
  announce_if_taken-Quiet context update none = search quiet_rules
  announce_if_taken-Quiet context update (some r) = announce_review-Quiet context update r

module _ (Q : List ApprovalRequest → Type 0) (Made : String → Type 0)
    (expire_keeps : (now : ℕ) (table : List ApprovalRequest)
      → Q table
      → Q (Table.expire_stale now table))
    (create_keeps : (r : ApprovalRequest) (table : List ApprovalRequest)
      → IsFresh r
      → Made r.fingerprint
      → Q table
      → Q (Table.create r table).1)
    (review_keeps : (now : ℕ) (review_id id : String) (update : ReviewUpdate)
        (table : List ApprovalRequest)
      → Q table
      → Q (Table.review now review_id id update table).1)
    (host : Host) (config : KeyLoreConfig) where
  abbrev P : World → Type 0
  P w = Q w.approvals

  Quiet-Keeps_table : {A : Type 0} (m : Exec World A) → Quiet m → Keeps P m
  Quiet-Keeps_table m q = Quiet-Keeps P m q (λ v w s p. subst Q (sym s.approvals) p)

  expire_stale-Keeps : Keeps P expire_stale
  unfolding expire_stale
  expire_stale-Keeps = record { at = λ w h. expire_keeps w.now w.approvals h }

  insert-Keeps : (r : ApprovalRequest) → IsFresh r → Made r.fingerprint → Keeps P (insert r)
  unfolding insert
  insert-Keeps r f made = record { at = λ w h. create_keeps r w.approvals f made h }

  new_url-Keeps : (raw : String) → Keeps P (new_url host raw)
  new_url-Keeps raw = record { at = λ w h. parsed (host.parse_url raw) w h }
    where
      parsed :
          (found : Option Url) (w : World)
          → P w
          → P (
              let r : Result Url × World = elim found [
                | none ↦ (thrown "Invalid URL", w)
                | some url ↦ (ok url, w)
              ] in
              r.1)
      parsed none w h = h
      parsed (some url) w h = h

  take_review-Keeps :
      (id : String) (update : ReviewUpdate) → Keeps P (take_review host config id update)
  unfolding take_review
  take_review-Keeps id update = record {
    at = λ w h. review_keeps w.now (host.uuid w.drawn) id update w.approvals h;
  }

  pub create_pending-Keeps :
      (context : AuthContext) (input : AccessRequestInput) (decision : PendingDecision)
      (tenant_id : String)
      → Made (access_fingerprint host context input)
      → Keeps P (create_pending host config context input decision tenant_id)
  unfolding create_pending pending_request
  create_pending-Keeps context input decision tenant_id made =
      Keeps-bind _ _ (Quiet-Keeps_table (random_uuid host) (random_uuid-Quiet host)) (λ id.
        Keeps-bind _ _ (Keeps-gets (λ w. w.now)) (λ now.
          Keeps-bind _ _ (new_url-Keeps input.target_url) (λ url.
            Keeps-bind _ _
              (insert-Keeps _
                (record { pending = refl; approvals = refl; denials = refl; reviews = refl }) made)
              (λ created.
                Keeps-bind _ _
                  (Quiet-Keeps_table _
                    (announce_pending-Quiet host config context decision tenant_id created))
                  (λ _. Keeps-return created)))))

  pub verify_approval-Keeps :
      (context : AuthContext) (input : AccessRequestInput)
      → Keeps P (verify_approval host config context input)
  unfolding verify_approval
  verify_approval-Keeps context input =
      Keeps-bind _ _ expire_stale-Keeps
        (λ _. Keeps-gets (λ w. find_grant host config context input w.now w.approvals))

  pub list-Keeps :
      (context : AuthContext) (status : Option ApprovalStatus)
      → Keeps P (list host config context status)
  unfolding list
  list-Keeps context status =
      Keeps-bind _ _ expire_stale-Keeps
        (λ _. Keeps-gets (λ w. Table.list status context.tenant_id w.approvals))

  take_and_announce :
      (id : String) (context : AuthContext) (update : ReviewUpdate)
      → Keeps P (
          take_review host config id update >>= λ reviewed.
          announce_if_taken host config context update reviewed >> return reviewed)
  take_and_announce id context update = Keeps-bind _ _ (take_review-Keeps id update) (λ reviewed.
      Keeps-bind _ _
        (Quiet-Keeps_table _ (announce_if_taken-Quiet host config context update reviewed))
        (λ _. Keeps-return reviewed))

  pub review-Keeps :
      (id : String) (context : AuthContext) (status : ReviewDecision) (note : Option String)
      → Keeps P (review host config id context status note)
  unfolding review
  review-Keeps id context status note = Keeps-bind _ _ expire_stale-Keeps (λ _.
      Keeps-bind _ _ (Keeps-gets (λ w. Table.get_by_id id w.approvals)) (λ existing.
        Keeps-if (foreign host config context existing) _ _ (Keeps-throw "Tenant access denied.") (
          take_and_announce id context
            (record { status = status; reviewed_by = context.principal; review_note = note }))))

-- No method of the service sends a request with a credential.
module _ (sent : List Outbound) (host : Host) (config : KeyLoreConfig) where
  Quiet-sends : {A : Type 0} (m : Exec World A) → Quiet m → Keeps (λ w. w.outbound ≡ sent) m
  Quiet-sends m q = Quiet-Keeps (λ w. w.outbound ≡ sent) m q (λ v w s p. s.outbound ∙ p)

  expire_stale_sends : Keeps (λ w. w.outbound ≡ sent) expire_stale
  unfolding expire_stale
  expire_stale_sends = record { at = λ w h. h }

  insert_sends : (r : ApprovalRequest) → Keeps (λ w. w.outbound ≡ sent) (insert r)
  unfolding insert
  insert_sends r = record { at = λ w h. h }

  new_url_sends : (raw : String) → Keeps (λ w. w.outbound ≡ sent) (new_url host raw)
  new_url_sends raw = record { at = λ w h. ground arith }

  pub create_pending_sends :
      (context : AuthContext) (input : AccessRequestInput) (decision : PendingDecision)
      (tenant_id : String)
      → Keeps (λ w. w.outbound ≡ sent) (create_pending host config context input decision tenant_id)
  unfolding create_pending
  create_pending_sends context input decision tenant_id =
      Keeps-bind _ _ (Quiet-sends (random_uuid host) (random_uuid-Quiet host)) (λ id.
        Keeps-bind _ _ (Keeps-gets (λ w. w.now)) (λ now.
          Keeps-bind _ _ (new_url_sends input.target_url) (λ url.
            Keeps-bind _ _
              (insert_sends
                (pending_request host config context input decision tenant_id id url now))
              (λ created.
                Keeps-bind _ _
                  (Quiet-sends _
                    (announce_pending-Quiet host config context decision tenant_id created))
                  (λ _. Keeps-return created)))))
