-- ===== src/Rotation/Tests.antt =====
-- The rotation service on one credential: a run is planned, refused a second time, and completed.
use keylore.Prelude.{◌≡◌, refl, none, some, List, [], ◌∷◌, ◌==◌, Evolves, update_first}
use keylore.Exec.{ok}
use keylore.Domain.{CredentialRecord}
use keylore.Domain.Rotation.{
  RotationStatus, RotationSource, RotationRun, RotationCompleteInput, RotationCreateInput,
}
use keylore.World.{World}
use keylore.Rotation.Lifecycle.{Follows}
use keylore.Rotation.OneOpen.{OneOpen}
use keylore.Rotation.History.{Call, run, run_rotations-Evolves, run_rotations-OneOpen}
use keylore.Rotation.Settled.{complete_settled-writes}
use keylore.Rotation.Table as Table
use keylore.Rotation.Credentials as Credentials
use keylore.Rotation.Service as Service
use keylore.Exec
use keylore.World.Host
use keylore.Fixtures.{host, config, caller, credential, world}

abbrev manual : RotationCreateInput
manual = record {
  credential_id = "github";
  reason = "Quarterly rotation";
  due_at = none;
  note = none;
}

abbrev completion : RotationCompleteInput
completion = record {
  note = some "done";
  target_ref = some "GITHUB_TOKEN_2";
  expires_at = some (some 90000);
  last_validated_at = none;
}

abbrev calls : List Call
calls =
    Call.create_manual (caller "ann") manual
    ∷ Call.create_manual (caller "ann") manual
    ∷ Call.start "id" (caller "ann") none
    ∷ Call.complete "id" (caller "ann") completion
    ∷ Call.wait 60
    ∷ Call.fail "id" (caller "ann") none
    ∷ []

run_rotations-Evolves_example :
    Evolves Follows (world []).rotations (run host config calls (world [])).rotations
run_rotations-Evolves_example = run_rotations-Evolves host config calls (world [])

run_rotations-OneOpen_example : OneOpen (run host config calls (world [])).rotations
run_rotations-OneOpen_example = run_rotations-OneOpen host config calls (world []) tt

-- A run that failed.
abbrev failed_run : RotationRun
failed_run = record {
  id = "id";
  tenant_id = "acme";
  credential_id = "github";
  status = RotationStatus.failed;
  source = RotationSource.manual;
  reason = "Quarterly rotation";
  due_at = none;
  planned_at = 100;
  started_at = some 200;
  completed_at = some 300;
  planned_by = "ann";
  updated_by = "ann";
  note = none;
  target_ref = none;
  result_note = none;
}

abbrev settled : World
settled = record (world []) { rotations = failed_run ∷ [] }

complete_settled-writes_example :
    Service.complete host config "id" (caller "ann") completion settled ≡ (
      ok none,
      record settled {
        credentials =
            update_first
              (λ (d : CredentialRecord). d.id == "github")
              (Credentials.patched host
                (Service.completion_patch host config completion 1000 credential))
              (credential ∷ []);
      },
    )
unfolding Table.get_by_id Credentials.get_by_id Credentials.fits_schema Credentials.merged
    Credentials.patched Service.completion_patch
complete_settled-writes_example =
    complete_settled-writes host config "id" (caller "ann") completion settled {r = failed_run}
      {c = credential} {patch = Service.completion_patch host config completion 1000 credential}
      refl refl refl refl refl refl refl

-- The reference of the secret is the new one, although the run had failed.
rewritten :
    (Service.complete host config "id" (caller "ann") completion settled).1.credentials
    ≡ record credential {
      summary = record credential.summary {
        expires_at = some 90000;
        last_validated_at = some 1000;
        user_context = some "Reads repositories.";
        llm_context = some "Reads repositories.";
      };
      binding = record credential.binding { ref = "GITHUB_TOKEN_2" };
    }
      ∷ []
unfolding Service.complete Service.complete_if Service.complete_found Service.get_run
    Service.get_credential Service.update_credential Service.move_run Service.announce
    Service.completion_patch Credentials.get_by_id Credentials.update Credentials.update_found
    Credentials.fits_schema Credentials.merged Credentials.patched Table.get_by_id Table.transition
    Host.current_time Exec.demand Exec.existing
rewritten = refl
