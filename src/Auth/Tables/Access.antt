-- ===== src/Auth/Tables/Access.antt =====
-- The table `access_tokens` and its statements, src/repositories/pg-access-token-repository.ts.
use keylore.Prelude.{
  ℕ, String, Bool, Option, none, some, List, [], ◌∷◌, ◌++◌, map, ◌&&◌, ◌||◌, ◌==◌, leb,
  if◌then◌else◌, any, find, filter, sort_desc, count_if,
}
use keylore.Exec.{Result, ok, thrown}
use keylore.Domain.Auth.{TokenStatus, AccessToken}
use keylore.Auth.Scopes.{is_active}
use keylore.Auth.Tables.{TokenFilter, passes}

-- `token_id` is the primary key, and `token_hash` is unique.
unfoldable pub issue : AccessToken → List AccessToken → Result {0} Unit × List AccessToken
issue t table =
    if any (λ u. u.token_id == t.token_id || u.token_hash == t.token_hash) table
    then (thrown "duplicate key value violates unique constraint", table)
    else (ok tt, table ++ t ∷ [])

unfoldable pub get_by_hash : String → List AccessToken → Option AccessToken
get_by_hash token_hash table = find (λ t. t.token_hash == token_hash) table

unfoldable pub get_by_id : String → List AccessToken → Option AccessToken
get_by_id id table = find (λ t. t.token_id == id) table

unfoldable pub touch : ℕ → String → List AccessToken → List AccessToken
touch now token_hash table =
    map (λ t. if t.token_hash == token_hash then record t { last_used_at = some now } else t) table

unfoldable pub list : TokenFilter → List AccessToken → List AccessToken
list f table = sort_desc (λ t. t.created_at) (filter (λ t. passes f t.grant t.status) table)

abbrev pub revoke : AccessToken → AccessToken
revoke t = record t { status = TokenStatus.revoked }

abbrev pub revoke_where : (AccessToken → Bool) → AccessToken → AccessToken
revoke_where p t = if p t && is_active t.status then revoke t else t

unfoldable pub expire_stale : ℕ → List AccessToken → ℕ × List AccessToken
expire_stale now table = (
  count_if (λ t. is_active t.status && leb t.expires_at now) table,
  map (revoke_where (λ t. leb t.expires_at now)) table,
)

unfoldable pub revoke_by_id : String → List AccessToken → Option AccessToken × List AccessToken
revoke_by_id id table = elim (find (λ t. t.token_id == id && is_active t.status) table) [
  | none ↦ (none, table)
  | some t ↦ (some (revoke t), map (revoke_where (λ u. u.token_id == id)) table)
]

unfoldable pub revoke_by_client_id : String → List AccessToken → ℕ × List AccessToken
revoke_by_client_id id table = (
  count_if (λ t. t.client_id == id && is_active t.status) table,
  map (revoke_where (λ t. t.client_id == id)) table,
)
