-- ===== src/Domain/Rotation.antt =====
-- Rotation runs (src/domain/types.ts).
use keylore.Prelude.{ℕ, String, Option, List}
use keylore.Domain.{Binding, CredentialStatus}

pub data RotationStatus : Type 0 where
  pending in_progress completed failed cancelled : RotationStatus

pub data RotationSource : Type 0 where
  manual catalog_expiry secret_expiry secret_rotation_window : RotationSource

pub record RotationRun : Type 0 where
  pub id : String
  pub tenant_id : String
  pub credential_id : String
  pub status : RotationStatus
  pub source : RotationSource
  pub reason : String
  pub due_at : Option ℕ
  pub planned_at : ℕ
  pub started_at : Option ℕ
  pub completed_at : Option ℕ
  pub planned_by : String
  pub updated_by : String
  pub note : Option String
  pub target_ref : Option String
  pub result_note : Option String

-- The input of `complete`: an expiry that is `some none` was given as null.
pub record RotationCompleteInput : Type 0 where
  pub note : Option String
  pub target_ref : Option String
  pub expires_at : Option (Option ℕ)
  pub last_validated_at : Option ℕ

-- The input of `createManual` and of `planDue`.
pub record RotationCreateInput : Type 0 where
  pub credential_id : String
  pub reason : String
  pub due_at : Option ℕ
  pub note : Option String

pub record RotationPlanInput : Type 0 where
  pub horizon_days : ℕ
  pub credential_ids : Option (List String)

-- The fields that `complete` patches a credential with, and those that the schema of a patch may fill
-- with their defaults.
pub record CredentialPatch : Type 0 where
  pub expires_at : Option ℕ
  pub last_validated_at : ℕ
  pub binding : Option Binding
  pub tags : Option (List String)
  pub status : Option CredentialStatus
