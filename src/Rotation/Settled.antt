-- ===== src/Rotation/Settled.antt =====
-- `complete` of src/services/rotation-service.ts on a run that is not open any more.
use keylore.Prelude.{
  String, ◌≡◌, refl, ap, ◌∙◌, true, false, none, some, List, eq_iff, ◌==◌, find-eq-some,
  update_first,
}
use keylore.Exec.{ok, demand, existing}
use keylore.Domain.{AuthContext, CredentialRecord}
use keylore.Domain.Access.{tenant_allowed}
use keylore.Domain.Config.{KeyLoreConfig}
use keylore.Domain.Rotation.{RotationRun, RotationCompleteInput, CredentialPatch}
use keylore.World.{World}
use keylore.World.Host.{Host, current_time}
use keylore.Rotation.Table as Table
use keylore.Rotation.Table.{is_open}
use keylore.Rotation.Credentials as Credentials
use keylore.Rotation.Service.{
  get_run, get_credential, move_run, update_credential, announce, completion_patch, complete_found,
  complete_if, complete,
}

credential_named :
    (id : String) (table : List CredentialRecord) {c : CredentialRecord}
    → Credentials.get_by_id id table ≡ some c
    → c.id ≡ id
unfolding Credentials.get_by_id
credential_named id table {c} h = (eq_iff c.id id).0 (find-eq-some _ table h).1

module _ (host : Host) (config : KeyLoreConfig) (id : String) (context : AuthContext)
    (input : RotationCompleteInput) (w : World) where
  -- Completing a run that was already completed, failed or cancelled, by a caller of its tenant, while
  -- its credential exists and the schemas accept the patch and the rows, returns nothing and leaves the run and the audit log as they were; yet the
  -- credential is written with the patch of the completion.
  pub complete_settled-writes :
      {r : RotationRun} {c : CredentialRecord} {patch : CredentialPatch}
      → Table.get_by_id id w.rotations ≡ some r
      → is_open r.status ≡ false
      → tenant_allowed context.tenant_id r.tenant_id ≡ true
      → Credentials.get_by_id r.credential_id w.credentials ≡ some c
      → host.parse_patch (completion_patch host config input w.now c) ≡ ok patch
      → Credentials.fits_schema host (Credentials.merged host patch c) ≡ true
      → Credentials.fits_schema host (Credentials.patched host patch c) ≡ true
      → complete host config id context input w ≡ (
        ok none,
        record w {
          credentials =
              update_first
                (λ (d : CredentialRecord). d.id == c.id)
                (Credentials.patched host patch)
                w.credentials;
        },
      )
  unfolding complete complete_if complete_found get_run get_credential current_time
      update_credential move_run announce demand existing Credentials.update
      Credentials.update_found Table.transition
  complete_settled-writes {r} {c} {patch} found closed allowed known parsed fits written =
      let same : c.id ≡ r.credential_id = (credential_named r.credential_id w.credentials known) in
      let listed : Credentials.get_by_id c.id w.credentials ≡ some c =
        (ap (λ name. Credentials.get_by_id name w.credentials) same ∙ known) in
      rw
        (
          found, allowed, known, Credentials.update, parsed, listed, fits, written,
          Table.transition, found, closed,
        )
        refl
