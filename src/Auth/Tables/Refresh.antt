-- ===== src/Auth/Tables/Refresh.antt =====
-- The table `refresh_tokens` and its statements, src/repositories/pg-refresh-token-repository.ts.
use keylore.Prelude.{
  ℕ, String, Bool, Option, none, some, List, [], ◌∷◌, ◌++◌, map, ◌&&◌, ◌||◌, ◌==◌, leb,
  if◌then◌else◌, any, find, filter, update_first, sort_desc, count_if,
}
use keylore.Exec.{Result, ok, thrown}
use keylore.Domain.Auth.{TokenStatus, RefreshToken}
use keylore.Auth.Scopes.{is_active}
use keylore.Auth.Tables.{TokenFilter, passes}

unfoldable pub issue : RefreshToken → List RefreshToken → Result {0} Unit × List RefreshToken
issue t table =
    if any (λ u. u.refresh_token_id == t.refresh_token_id || u.token_hash == t.token_hash) table
    then (thrown "duplicate key value violates unique constraint", table)
    else (ok tt, table ++ t ∷ [])

unfoldable pub get_by_hash : String → List RefreshToken → Option RefreshToken
get_by_hash token_hash table = find (λ t. t.token_hash == token_hash) table

unfoldable pub get_by_id : String → List RefreshToken → Option RefreshToken
get_by_id id table = find (λ t. t.refresh_token_id == id) table

unfoldable pub list : TokenFilter → List RefreshToken → List RefreshToken
list f table = sort_desc (λ t. t.created_at) (filter (λ t. passes f t.grant t.status) table)

abbrev pub revoke : RefreshToken → RefreshToken
revoke t = record t { status = TokenStatus.revoked }

abbrev pub revoke_where : (RefreshToken → Bool) → RefreshToken → RefreshToken
revoke_where p t = if p t && is_active t.status then revoke t else t

unfoldable pub expire_stale : ℕ → List RefreshToken → ℕ × List RefreshToken
expire_stale now table = (
  count_if (λ t. is_active t.status && leb t.expires_at now) table,
  map (revoke_where (λ t. leb t.expires_at now)) table,
)

unfoldable pub revoke_by_id : String → List RefreshToken → Option RefreshToken × List RefreshToken
revoke_by_id id table = elim (find (λ t. t.refresh_token_id == id && is_active t.status) table) [
  | none ↦ (none, table)
  | some t ↦ (some (revoke t), map (revoke_where (λ u. u.refresh_token_id == id)) table)
]

unfoldable pub revoke_by_client_id : String → List RefreshToken → ℕ × List RefreshToken
revoke_by_client_id id table = (
  count_if (λ t. t.client_id == id && is_active t.status) table,
  map (revoke_where (λ t. t.client_id == id)) table,
)

abbrev replaced : ℕ → String → RefreshToken → RefreshToken
replaced now by t = record t {
  status = TokenStatus.revoked;
  replaced_by_token_id = some by;
  last_used_at = some now;
}

unfoldable pub replace :
    ℕ → String → String → List RefreshToken → Option RefreshToken × List RefreshToken
replace now token_hash by table =
    elim (find (λ t. t.token_hash == token_hash && is_active t.status) table) [
      | none ↦ (none, table)
      | some t ↦ (
        some (replaced now by t),
        update_first (λ u. u.token_hash == token_hash && is_active u.status) (replaced now by)
            table,
      )
    ]
