-- ===== src/Auth/Within.antt =====
-- What an active token or code of src/services/auth-service.ts may grant, and the statements of the
-- repositories that keep it.
pub mod Issue
pub mod Exchange
pub mod Upsert
pub mod Clients
pub mod Bearer
use keylore.Prelude.{
  ℕ, String, ◌≡◌, refl, sym, ap, ◌∙◌, Bool, true, false, not, Option, none, some, List, [], ◌∷◌,
  ◌++◌, map, ◌&&◌, ◌||◌, ◌==◌, arith, leb, if◌then◌else◌, Bool-cases, Option-cases, inl, inr, any,
  find, filter, update_first, All, All-append, All-map, All-mem, All-update_first, find-eq-some,
  includes,
}
use keylore.Domain.{PrincipalRole, includes_role}
use keylore.Domain.Auth.{
  TokenStatus, CodeStatus, StoredAuthClient, Grant, AccessToken, RefreshToken, AuthorizationCode,
}
use keylore.Auth.Scopes.{is_active, is_usable}
use keylore.Auth.Tables.{get_by_client_id}
use keylore.Auth.Tables.Access
use keylore.Auth.Tables.Refresh
use keylore.Auth.Tables.Codes

-- The client of a grant is known and of the grant's tenant, and has its scopes and roles.
pub record IsWithin (cs : List StoredAuthClient) (g : Grant) : Type 0 where
  pub client : StoredAuthClient
  pub named : get_by_client_id g.client_id cs ≡ some client
  pub tenant : g.tenant_id ≡ client.tenant_id
  pub scopes : (s : String) → includes g.scopes s ≡ true → includes client.allowed_scopes s ≡ true
  pub roles :
      (r : PrincipalRole) → includes_role g.roles r ≡ true → includes_role client.roles r ≡ true

abbrev pub AccessWithin : List StoredAuthClient → AccessToken → Type 0
AccessWithin cs t = is_active t.status ≡ true → IsWithin cs t.grant

abbrev pub RefreshWithin : List StoredAuthClient → RefreshToken → Type 0
RefreshWithin cs t = is_active t.status ≡ true → IsWithin cs t.grant

abbrev pub CodeWithin : List StoredAuthClient → AuthorizationCode → Type 0
CodeWithin cs c = is_usable c.status ≡ true → IsWithin cs c.grant

-- A grant for the same client and tenant and roles, with fewer scopes.
pub IsWithin-fewer :
    (cs : List StoredAuthClient) (g h : Grant)
    → IsWithin cs g
    → h.client_id ≡ g.client_id
    → h.tenant_id ≡ g.tenant_id
    → h.roles ≡ g.roles
    → ((s : String) → includes h.scopes s ≡ true → includes g.scopes s ≡ true)
    → IsWithin cs h
IsWithin-fewer cs g h w c t r k = record {
  client = w.client;
  named = ap (λ id. get_by_client_id id cs) c ∙ w.named;
  tenant = t ∙ w.tenant;
  scopes = λ s e. w.scopes s (k s e);
  roles = λ q e. w.roles q (sym (ap (λ rs. includes_role rs q) r) ∙ e);
}

module _ (cs : List StoredAuthClient) where
  pub access_issue_keeps :
      (t : AccessToken) (table : List AccessToken)
      → IsWithin cs t.grant
      → All (AccessWithin cs) table
      → All (AccessWithin cs) (Access.issue t table).1
  unfolding Access.issue
  access_issue_keeps t table w h =
      elim (Bool-cases (
        any (λ (u : AccessToken). u.token_id == t.token_id || u.token_hash == t.token_hash)
          table)) [
            | inl e ↦ rw e h
            | inr e ↦ rw e (All-append (AccessWithin cs) table (t ∷ []) h ((λ _. w), tt))
          ]

  access_revoke_where :
      (p : AccessToken → Bool) (t : AccessToken)
      → AccessWithin cs t
      → AccessWithin cs (Access.revoke_where p t)
  access_revoke_where p t h = elim (Bool-cases (p t && is_active t.status)) [
    | inl e ↦ rw e (λ a. absurd (ground arith))
    | inr e ↦ rw e h
  ]

  pub access_revoke_keeps :
      (p : AccessToken → Bool) (table : List AccessToken)
      → All (AccessWithin cs) table
      → All (AccessWithin cs) (map (Access.revoke_where p) table)
  access_revoke_keeps p table h = All-map (AccessWithin cs) _ table h (access_revoke_where p)

  pub access_touch_keeps :
      (now : ℕ) (token_hash : String) (table : List AccessToken)
      → All (AccessWithin cs) table
      → All (AccessWithin cs) (Access.touch now token_hash table)
  unfolding Access.touch
  access_touch_keeps now token_hash table h =
      All-map (AccessWithin cs) _ table h (λ t k. touched t k (t.token_hash == token_hash))
    where
      touched :
          (t : AccessToken)
          → AccessWithin cs t
          → (b : Bool) → AccessWithin cs (if b then record t { last_used_at = some now } else t)
      touched t k true = k
      touched t k false = k

  pub refresh_issue_keeps :
      (t : RefreshToken) (table : List RefreshToken)
      → IsWithin cs t.grant
      → All (RefreshWithin cs) table
      → All (RefreshWithin cs) (Refresh.issue t table).1
  unfolding Refresh.issue
  refresh_issue_keeps t table w h =
      elim (Bool-cases (
        any
          (λ (u : RefreshToken).
            u.refresh_token_id == t.refresh_token_id || u.token_hash == t.token_hash)
          table)) [
            | inl e ↦ rw e h
            | inr e ↦ rw e (All-append (RefreshWithin cs) table (t ∷ []) h ((λ _. w), tt))
          ]

  refresh_revoke_where :
      (p : RefreshToken → Bool) (t : RefreshToken)
      → RefreshWithin cs t
      → RefreshWithin cs (Refresh.revoke_where p t)
  refresh_revoke_where p t h = elim (Bool-cases (p t && is_active t.status)) [
    | inl e ↦ rw e (λ a. absurd (ground arith))
    | inr e ↦ rw e h
  ]

  pub refresh_revoke_keeps :
      (p : RefreshToken → Bool) (table : List RefreshToken)
      → All (RefreshWithin cs) table
      → All (RefreshWithin cs) (map (Refresh.revoke_where p) table)
  refresh_revoke_keeps p table h = All-map (RefreshWithin cs) _ table h (refresh_revoke_where p)

  pub refresh_replace_keeps :
      (now : ℕ) (token_hash by : String) (table : List RefreshToken)
      → All (RefreshWithin cs) table
      → All (RefreshWithin cs) (Refresh.replace now token_hash by table).1
  unfolding Refresh.replace
  refresh_replace_keeps now token_hash by table h =
      elim (Option-cases
        (find (λ (t : RefreshToken). t.token_hash == token_hash && is_active t.status) table)) [
          | inl e ↦ rw (Refresh.replace, e) h
          | inr (t, e) ↦
              rw (Refresh.replace, e)
                (All-update_first (RefreshWithin cs)
                  (λ (u : RefreshToken). u.token_hash == token_hash && is_active u.status)
                  (λ (u : RefreshToken). record u {
                    status = TokenStatus.revoked;
                    replaced_by_token_id = some by;
                    last_used_at = some now;
                  })
                  table h (λ u _ k a. absurd (ground arith)))
        ]

  pub code_create_keeps :
      (c : AuthorizationCode) (table : List AuthorizationCode)
      → IsWithin cs c.grant
      → All (CodeWithin cs) table
      → All (CodeWithin cs) (Codes.create c table).1
  unfolding Codes.create
  code_create_keeps c table w h =
      elim (Bool-cases (
        any (λ (d : AuthorizationCode). d.code_id == c.code_id || d.code_hash == c.code_hash)
          table)) [
            | inl e ↦ rw e h
            | inr e ↦ rw e (All-append (CodeWithin cs) table (c ∷ []) h ((λ _. w), tt))
          ]

  revoke_of_keeps :
      (id : String) (c : AuthorizationCode) → CodeWithin cs c → CodeWithin cs (Codes.revoke_of id c)
  revoke_of_keeps id c h = elim (Bool-cases (c.client_id == id && is_usable c.status)) [
    | inl e ↦ rw e (λ a. absurd (ground arith))
    | inr e ↦ rw e h
  ]

  pub code_revoke_keeps :
      (id : String) (table : List AuthorizationCode)
      → All (CodeWithin cs) table
      → All (CodeWithin cs) (map (Codes.revoke_of id) table)
  code_revoke_keeps id table h = All-map (CodeWithin cs) _ table h (revoke_of_keeps id)

  pub code_consume_keeps :
      (now : ℕ) (code_hash : String) (table : List AuthorizationCode)
      → All (CodeWithin cs) table
      → All (CodeWithin cs) (Codes.consume_by_hash now code_hash table).1
  unfolding Codes.consume_by_hash
  code_consume_keeps now code_hash table h =
      elim (Option-cases (find (λ (c : AuthorizationCode). c.code_hash == code_hash) table)) [
        | inl e ↦ rw (Codes.consume_by_hash, e) h
        | inr (row, e) ↦ elim (Bool-cases (is_usable row.status)) [
          | inr u ↦ rw (Codes.consume_by_hash, e, u) h
          | inl u ↦ elim (Bool-cases (leb row.expires_at now)) [
            | inl x ↦
                rw (Codes.consume_by_hash, e, u, x)
                  (All-update_first (CodeWithin cs) _ _ table h (λ c _ k a. absurd (ground arith)))
            | inr x ↦
                rw (Codes.consume_by_hash, e, u, x)
                  (All-update_first (CodeWithin cs) _ _ table h (λ c _ k a. absurd (ground arith)))
          ]
        ]
      ]

-- The code that is consumed was a usable row, not expired.
pub record WasUsable (now : ℕ) (code_hash : String) (table : List AuthorizationCode)
    (c : AuthorizationCode) : Type 0 where
  pub row : AuthorizationCode
  pub found : find (λ (d : AuthorizationCode). d.code_hash == code_hash) table ≡ some row
  pub usable : is_usable row.status ≡ true
  pub fresh : leb row.expires_at now ≡ false
  pub taken : c ≡ Codes.consume now row

pub consume-WasUsable :
    (now : ℕ) (code_hash : String) (table : List AuthorizationCode) {c : AuthorizationCode}
    → (Codes.consume_by_hash now code_hash table).0 ≡ some c
    → WasUsable now code_hash table c
unfolding Codes.consume_by_hash
consume-WasUsable now code_hash table {c} h =
    elim (Option-cases (find (λ (c : AuthorizationCode). c.code_hash == code_hash) table)) [
      | inl e ↦ absurd (cc (rw (e, Codes.consume_by_hash) at h))
      | inr (row, e) ↦ elim (Bool-cases (is_usable row.status)) [
        | inr u ↦ absurd (cc (rw (e, Codes.consume_by_hash, u) at h))
        | inl u ↦ elim (Bool-cases (leb row.expires_at now)) [
          | inl x ↦ absurd (cc (rw (e, Codes.consume_by_hash, u, x) at h))
          | inr x ↦ record {
            row = row;
            found = e;
            usable = u;
            fresh = x;
            taken = ground (arith, (rw (e, Codes.consume_by_hash, u, x) at h));
          }
        ]
      ]
    ]
