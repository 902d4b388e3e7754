-- ===== src/Auth/Tables/Codes.antt =====
-- The table `oauth_authorization_codes` and its statements,
-- src/repositories/pg-authorization-code-repository.ts.
use keylore.Prelude.{
  ℕ, String, not, Option, none, some, List, [], ◌∷◌, ◌++◌, map, ◌&&◌, ◌||◌, ◌==◌, leb,
  if◌then◌else◌, any, find, filter, update_first, count_if,
}
use keylore.Exec.{Result, ok, thrown}
use keylore.Domain.Auth.{CodeStatus, AuthorizationCode}
use keylore.Auth.Scopes.{is_usable}

-- `code_id` is the primary key, and `code_hash` is unique.
unfoldable pub create :
    AuthorizationCode → List AuthorizationCode → Result {0} Unit × List AuthorizationCode
create c table =
    if any (λ d. d.code_id == c.code_id || d.code_hash == c.code_hash) table
    then (thrown "duplicate key value violates unique constraint", table)
    else (ok tt, table ++ c ∷ [])

abbrev pub revoke : AuthorizationCode → AuthorizationCode
revoke c = record c { status = CodeStatus.revoked }

abbrev pub consume : ℕ → AuthorizationCode → AuthorizationCode
consume now c = record c { status = CodeStatus.consumed; consumed_at = some now }

-- The transaction of `consumeByHash`.
unfoldable pub consume_by_hash :
    ℕ → String → List AuthorizationCode → Option AuthorizationCode × List AuthorizationCode
consume_by_hash now code_hash table = elim (find (λ c. c.code_hash == code_hash) table) [
  | none ↦ (none, table)
  | some row ↦
      if not (is_usable row.status)
      then (none, table)
      else if leb row.expires_at now
      then (none, update_first (λ c. c.code_hash == code_hash) revoke table)
      else (
        some (consume now row),
        update_first (λ c. c.code_hash == code_hash) (consume now) table,
      )
]

unfoldable pub cleanup : ℕ → List AuthorizationCode → ℕ × List AuthorizationCode
cleanup now table = (
  count_if (λ c. leb c.expires_at now || not (is_usable c.status)) table,
  filter (λ c. not (leb c.expires_at now || not (is_usable c.status))) table,
)

abbrev pub revoke_of : String → AuthorizationCode → AuthorizationCode
revoke_of id c = if c.client_id == id && is_usable c.status then revoke c else c

unfoldable pub revoke_by_client_id : String → List AuthorizationCode → ℕ × List AuthorizationCode
revoke_by_client_id id table =
    (count_if (λ c. c.client_id == id && is_usable c.status) table, map (revoke_of id) table)
