-- ===== src/Rotation/Credentials.antt =====
-- The statements on credentials that rotations use, src/repositories/pg-credential-repository.ts.
use Prim.Native.String.{count}
use keylore.Prelude.{
  String, Bool, true, not, Option, none, some, List, ◌==◌, ◌&&◌, leb, any, find, update_first,
  if◌then◌else◌, or_else, ◌+++◌, length, sorted,
}
use keylore.Exec.{Result, ok, thrown}
use keylore.Domain.{CredentialRecord}
use keylore.Domain.Rotation.{CredentialPatch}
use keylore.World.Host.{Host}

unfoldable pub get_by_id : String → List CredentialRecord → Option CredentialRecord
get_by_id id table = find (λ (c : CredentialRecord). c.id == id) table

abbrev non_empty : String → Bool
non_empty s = not (s == "")

abbrev given : Option String → Bool
given none = true
given (some s) = non_empty s

abbrev all_given : List String → Bool
all_given texts = not (any (λ s. s == "") texts)

module _ (host : Host) where
  -- `ORDER BY id ASC`
  unfoldable pub list : List CredentialRecord → List CredentialRecord
  list table = sorted (λ (c d : CredentialRecord). host.before c.id d.id) table

  abbrev env_name_fits : Option String → Bool
  env_name_fits none = true
  env_name_fits (some s) = host.is_env_name s

  -- What `credentialRecordSchema` asks beyond the formats of times.
  unfoldable pub fits_schema : CredentialRecord → Bool
  fits_schema c =
      non_empty c.id
      && non_empty c.tenant_id
      && leb (count c.tenant_id) 128
      && non_empty c.display_name
      && non_empty c.service
      && non_empty c.owner
      && leb 1 (length c.allowed_domains)
      && all_given c.allowed_domains
      && leb 1 (length c.permitted_operations)
      && non_empty c.rotation_policy
      && non_empty c.selection_notes
      && given c.user_context
      && given c.llm_context
      && non_empty c.binding.ref
      && non_empty c.binding.header_name
      && env_name_fits c.binding.injection_env_name
      && all_given c.tags

  trimmed : Option String → Option String
  trimmed none = none
  trimmed (some s) = some (host.trim s)

  -- The current row with the fields of the patch.
  unfoldable pub merged : CredentialPatch → CredentialRecord → CredentialRecord
  merged patch c = record c {
    summary = record c.summary {
      expires_at = patch.expires_at;
      last_validated_at = some patch.last_validated_at;
      tags = or_else patch.tags c.tags;
      status = or_else patch.status c.status;
    };
    binding = or_else patch.binding c.binding;
  }

  -- The row that an update writes, with the contexts of `normalizedUpdateContexts`.
  unfoldable pub patched : CredentialPatch → CredentialRecord → CredentialRecord
  unfolding trimmed merged
  patched patch c =
      let llm_context = or_else (trimmed c.llm_context) c.selection_notes in
      let next = merged patch c in
      record next {
        summary = record next.summary {
          selection_notes = llm_context;
          user_context = some (or_else (trimmed c.user_context) llm_context);
          llm_context = some llm_context;
        };
      }

  -- What the row was merged to is checked before it is written, and the written row afterwards.
  unfoldable pub update_found :
      CredentialPatch
      → CredentialRecord
      → List CredentialRecord
      → Result CredentialRecord × List CredentialRecord
  update_found patch c table =
      let written = update_first (λ (d : CredentialRecord). d.id == c.id) (patched patch) table in
      if not (fits_schema (merged patch c))
      then (thrown "ZodError", table)
      else if not (fits_schema (patched patch c))
      then (thrown "ZodError", written)
      else (ok (patched patch c), written)

  unfoldable pub update :
      String
      → CredentialPatch
      → List CredentialRecord
      → Result CredentialRecord × List CredentialRecord
  update id patch table = elim (host.parse_patch patch) [
    | thrown e ↦ (thrown e, table)
    | ok parsed ↦ elim (get_by_id id table) [
      | none ↦ (thrown ("Credential " +++ id +++ " was not found."), table)
      | some c ↦ update_found parsed c table
    ]
  ]
