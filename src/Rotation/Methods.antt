-- ===== src/Rotation/Methods.antt =====
-- What the methods of src/services/rotation-service.ts keep of the table, given what its statements
-- keep.
use keylore.Prelude.{
  ℕ, String, ◌≡◌, refl, sym, subst, Bool, true, false, Option, none, some, List, [], ◌∷◌,
}
use keylore.Exec.{Exec}
use keylore.Exec.Keeps.{Keeps, Keeps-bind, Keeps-return, keeps_rules}
use keylore.Domain.{AuthContext, CredentialRecord}
use keylore.Domain.Config.{KeyLoreConfig}
use keylore.Domain.Rotation.{
  RotationStatus, RotationSource, RotationRun, RotationCompleteInput, RotationCreateInput,
  RotationPlanInput, CredentialPatch,
}
use keylore.World.{World, Json, Outcome}
use keylore.World.Host.{Host, random_uuid}
use keylore.World.Quiet.{Quiet, Quiet-Keeps}
use keylore.Audit.{RecordAuditInput, record_event}
use keylore.Audit.Frame.{random_uuid-Quiet, record_event-Quiet}
use keylore.Notifications.{send}
use keylore.Notifications.Frame.{send-Quiet}
use keylore.Auth.Assertion.Frame.{reads_rules}
use keylore.Rotation.Table as Table
use keylore.Rotation.Table.{Transition, is_open, is_waiting}
use keylore.Rotation.Lifecycle.{Moves, IsLegal, starts, completes, fails}
use keylore.Rotation.Service.{
  get_run, find_open, get_credential, insert_run, move_run, update_credential, create_run,
  create_manual, announce, start, complete_found, complete_if, complete, fail,
}
use keylore.Rotation.Plan.{plan_found, plan_inspected, plan_unless, plan_one, plan_each, plan_due}

waiting-IsOpen : (s : RotationStatus) → is_waiting s ≡ true → is_open s ≡ true
waiting-IsOpen RotationStatus.pending h = refl
waiting-IsOpen RotationStatus.in_progress h = cc
waiting-IsOpen RotationStatus.completed h = cc
waiting-IsOpen RotationStatus.failed h = cc
waiting-IsOpen RotationStatus.cancelled h = cc

module _ (Q : List RotationRun → Type 0)
    (create_keeps : (r : RotationRun) (table : List RotationRun)
      → Q table
      → Q (Table.create r table).1)
    (move_keeps : (now : ℕ) (id : String) (update : Transition) (table : List RotationRun)
      → IsLegal update
      → Q table
      → Q (Table.transition now id update table).1)
    (host : Host) (config : KeyLoreConfig) where
  abbrev P : World → Type 0
  P w = Q w.rotations

  quiet : {A : Type 0} (m : Exec World A) → Quiet m → Keeps P m
  quiet m q = Quiet-Keeps P m q (λ v w s p. subst Q (sym s.rotations) p)

  random_uuid-Keeps : Keeps P (random_uuid host)
  random_uuid-Keeps = quiet (random_uuid host) (random_uuid-Quiet host)

  record_event-Keeps : (input : RecordAuditInput) → Keeps P (record_event host input)
  record_event-Keeps input = quiet (record_event host input) (record_event-Quiet host input)

  send-Keeps :
      (type : String) (payload : List (String × Json)) → Keeps P (send host config type payload)
  send-Keeps type payload =
      quiet (send host config type payload) (send-Quiet host config type payload)

  get_run-Keeps : (id : String) → Keeps P (get_run id)
  unfolding get_run
  get_run-Keeps id = record { at = λ w h. h }

  find_open-Keeps : (id : String) → Keeps P (find_open id)
  unfolding find_open
  find_open-Keeps id = record { at = λ w h. h }

  get_credential-Keeps : (id : String) → Keeps P (get_credential id)
  unfolding get_credential
  get_credential-Keeps id = record { at = λ w h. h }

  update_credential-Keeps :
      (id : String) (patch : CredentialPatch) → Keeps P (update_credential host config id patch)
  unfolding update_credential
  update_credential-Keeps id patch = record { at = λ w h. h }

  insert_run-Keeps : (r : RotationRun) → Keeps P (insert_run r)
  unfolding insert_run
  insert_run-Keeps r = record { at = λ w h. create_keeps r w.rotations h }

  move_run-Keeps :
      (id : String) (update : Transition) → IsLegal update → Keeps P (move_run id update)
  unfolding move_run
  move_run-Keeps id update legal = record {
    at = λ w h. move_keeps w.now id update w.rotations legal h;
  }

  create_run-Keeps :
      (r : RotationRun) (actor : AuthContext) → Keeps P (create_run host config r actor)
  unfolding create_run
  create_run-Keeps r actor =
      search (keeps_rules, insert_run-Keeps, record_event-Keeps, send-Keeps) depth 10

  announce-Keeps :
      (action type : String) (outcome : Outcome) (context : AuthContext)
      (details : List (String × Json)) (r : Option RotationRun)
      → Keeps P (announce host config action type outcome context details r)
  unfolding announce
  announce-Keeps action type outcome context details none = Keeps-return tt
  announce-Keeps action type outcome context details (some r) =
      search (keeps_rules, record_event-Keeps, send-Keeps)

  pub create_manual-Keeps :
      (context : AuthContext) (input : RotationCreateInput)
      → Keeps P (create_manual host config context input)
  unfolding create_manual
  create_manual-Keeps context input =
      search
        (
          keeps_rules, reads_rules, random_uuid-Keeps, find_open-Keeps, get_credential-Keeps,
          create_run-Keeps,
        )
        depth 14

  pub start-Keeps :
      (id : String) (context : AuthContext) (note : Option String)
      → Keeps P (start host config id context note)
  unfolding start
  start-Keeps id context note =
      search (keeps_rules, reads_rules, get_run-Keeps, move_run-Keeps, announce-Keeps, legal) depth
        12
    where
      legal : IsLegal (record {
        from_statuses = is_waiting;
        status = RotationStatus.in_progress;
        updated_by = context.principal;
        note = note;
        target_ref = none;
        result_note = none;
      })
      legal = record { from_open = waiting-IsOpen; move = started }
        where
          started : (s : RotationStatus) → is_waiting s ≡ true → Moves s RotationStatus.in_progress
          started RotationStatus.pending h = starts
          started RotationStatus.in_progress h = cc
          started RotationStatus.completed h = cc
          started RotationStatus.failed h = cc
          started RotationStatus.cancelled h = cc

  pub fail-Keeps :
      (id : String) (context : AuthContext) (note : Option String)
      → Keeps P (fail host config id context note)
  unfolding fail
  fail-Keeps id context note =
      search (keeps_rules, reads_rules, get_run-Keeps, move_run-Keeps, announce-Keeps, legal) depth
        12
    where
      legal : IsLegal (record {
        from_statuses = is_open;
        status = RotationStatus.failed;
        updated_by = context.principal;
        note = note;
        target_ref = none;
        result_note = note;
      })
      legal = record { from_open = λ s h. h; move = λ s h. fails h }

  complete_found-Keeps :
      (id : String) (context : AuthContext) (input : RotationCompleteInput) (r : RotationRun)
      → Keeps P (complete_found host config id context input r)
  unfolding complete_found
  complete_found-Keeps id context input r =
      search
        (
          keeps_rules, reads_rules, get_credential-Keeps, update_credential-Keeps, move_run-Keeps,
          announce-Keeps, legal,
        )
        depth 14
    where
      legal : IsLegal (record {
        from_statuses = is_open;
        status = RotationStatus.completed;
        updated_by = context.principal;
        note = input.note;
        target_ref = input.target_ref;
        result_note = input.note;
      })
      legal = record { from_open = λ s h. h; move = λ s h. completes h }

  complete_if-Keeps :
      (id : String) (context : AuthContext) (input : RotationCompleteInput) (r : Option RotationRun)
      → Keeps P (complete_if host config id context input r)
  unfolding complete_if
  complete_if-Keeps id context input none = Keeps-return none
  complete_if-Keeps id context input (some r) = complete_found-Keeps id context input r

  pub complete-Keeps :
      (id : String) (context : AuthContext) (input : RotationCompleteInput)
      → Keeps P (complete host config id context input)
  unfolding complete
  complete-Keeps id context input = search (keeps_rules, get_run-Keeps, complete_if-Keeps)

  plan_found-Keeps :
      (context : AuthContext) (cutoff : ℕ) (c : CredentialRecord) (due_at : ℕ)
      (source : RotationSource)
      → Keeps P (plan_found host config context cutoff c due_at source)
  unfolding plan_found
  plan_found-Keeps context cutoff c due_at source =
      search (keeps_rules, reads_rules, random_uuid-Keeps, create_run-Keeps) depth 12

  plan_inspected-Keeps :
      (context : AuthContext) (cutoff : ℕ) (c : CredentialRecord) (due_at : Option ℕ)
      (source : Option RotationSource)
      → Keeps P (plan_inspected host config context cutoff c due_at source)
  unfolding plan_inspected
  plan_inspected-Keeps context cutoff c none source = Keeps-return none
  plan_inspected-Keeps context cutoff c (some due_at) none = Keeps-return none
  plan_inspected-Keeps context cutoff c (some due_at) (some source) =
      plan_found-Keeps context cutoff c due_at source

  plan_unless-Keeps :
      (b : Bool) (context : AuthContext) (cutoff : ℕ) (c : CredentialRecord)
      → Keeps P (plan_unless host config b context cutoff c)
  unfolding plan_unless
  plan_unless-Keeps true context cutoff c = Keeps-return none
  plan_unless-Keeps false context cutoff c = search (keeps_rules, plan_inspected-Keeps)

  plan_one-Keeps :
      (context : AuthContext) (input : RotationPlanInput) (cutoff : ℕ) (c : CredentialRecord)
      → Keeps P (plan_one host config context input cutoff c)
  unfolding plan_one
  plan_one-Keeps context input cutoff c =
      search (keeps_rules, find_open-Keeps, plan_unless-Keeps) depth 8

  plan_each-Keeps :
      (context : AuthContext) (input : RotationPlanInput) (cutoff : ℕ) (cs : List CredentialRecord)
      → Keeps P (plan_each host config context input cutoff cs)
  unfolding plan_each
  plan_each-Keeps context input cutoff [] = Keeps-return []
  plan_each-Keeps context input cutoff (c ∷ cs) =
      Keeps-bind _ _ (plan_one-Keeps context input cutoff c) (λ created.
        Keeps-bind _ _ (plan_each-Keeps context input cutoff cs) (λ rest. Keeps-return _))

  pub plan_due-Keeps :
      (context : AuthContext) (given : Option RotationPlanInput)
      → Keeps P (plan_due host config context given)
  unfolding plan_due
  plan_due-Keeps context given = search (keeps_rules, reads_rules, plan_each-Keeps) depth 10
