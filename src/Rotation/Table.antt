-- ===== src/Rotation/Table.antt =====
-- The table `rotation_runs` and its statements, src/repositories/pg-rotation-run-repository.ts, with
-- the index on open runs of src/migrations/006_v09_auth_trace_rotation.sql.
use Prim.Native.String.{count}
use keylore.Prelude.{
  ℕ, String, Bool, true, false, not, Option, none, some, List, [], ◌∷◌, ◌++◌, ◌&&◌, ◌||◌, ◌==◌, leb,
  if◌then◌else◌, any, find, filter, update_first, sort_desc,
}
use keylore.Exec.{Result, ok, thrown}
use keylore.Domain.Rotation.{RotationStatus, RotationRun}

-- `status IN ('pending', 'in_progress')`
abbrev pub is_open : RotationStatus → Bool
is_open RotationStatus.pending = true
is_open RotationStatus.in_progress = true
is_open _ = false

abbrev pub is_waiting : RotationStatus → Bool
is_waiting RotationStatus.pending = true
is_waiting _ = false

abbrev non_empty : String → Bool
non_empty s = not (s == "")

abbrev short : Option String → Bool
short none = true
short (some s) = leb (count s) 2000

abbrev given : Option String → Bool
given none = true
given (some s) = non_empty s

-- What `rotationRunSchema` asks of a row beyond the formats of identifiers and times.
unfoldable pub fits_schema : RotationRun → Bool
fits_schema r =
    non_empty r.tenant_id
    && leb (count r.tenant_id) 128
    && non_empty r.credential_id
    && non_empty r.reason
    && non_empty r.planned_by
    && non_empty r.updated_by
    && short r.note
    && given r.target_ref
    && short r.result_note

abbrev pub open_for : String → RotationRun → Bool
open_for credential_id r = r.credential_id == credential_id && is_open r.status

-- `id` is the primary key, and a credential has one open run at most.
abbrev pub clashes : RotationRun → RotationRun → Bool
clashes run r = r.id == run.id || (is_open run.status && open_for run.credential_id r)

unfoldable pub create : RotationRun → List RotationRun → Result RotationRun × List RotationRun
create run table =
    if not (fits_schema run)
    then (thrown "ZodError", table)
    else if any (clashes run) table
    then (thrown "duplicate key value violates unique constraint", table)
    else (ok run, table ++ run ∷ [])

unfoldable pub get_by_id : String → List RotationRun → Option RotationRun
get_by_id id table = find (λ r. r.id == id) table

abbrev first_of : List RotationRun → Option RotationRun
first_of [] = none
first_of (r ∷ rs) = some r

unfoldable pub find_open_by_credential_id : String → List RotationRun → Option RotationRun
find_open_by_credential_id credential_id table =
    first_of (sort_desc (λ r. r.planned_at) (filter (open_for credential_id) table))

pub record Transition : Type 0 where
  pub from_statuses : RotationStatus → Bool
  pub status : RotationStatus
  pub updated_by : String
  pub note : Option String
  pub target_ref : Option String
  pub result_note : Option String

-- COALESCE(new, old)
abbrev coalesce : Option String → Option String → Option String
coalesce none old = old
coalesce (some s) old = some s

abbrev started : ℕ → RotationStatus → Option ℕ → Option ℕ
started now RotationStatus.in_progress old = some now
started now _ old = old

abbrev completed : ℕ → RotationStatus → Option ℕ
completed now status = if is_open status then none else some now

unfoldable pub moved : ℕ → Transition → RotationRun → RotationRun
moved now update r = record r {
  status = update.status;
  started_at = started now update.status r.started_at;
  completed_at = completed now update.status;
  updated_by = update.updated_by;
  note = coalesce update.note r.note;
  target_ref = coalesce update.target_ref r.target_ref;
  result_note = coalesce update.result_note r.result_note;
}

-- The transaction of `transition`.
unfoldable pub transition :
    ℕ → String → Transition → List RotationRun → Option RotationRun × List RotationRun
transition now id update table = elim (get_by_id id table) [
  | none ↦ (none, table)
  | some r ↦
      if update.from_statuses r.status
      then (some (moved now update r), update_first (λ q. q.id == id) (moved now update) table)
      else (none, table)
]
