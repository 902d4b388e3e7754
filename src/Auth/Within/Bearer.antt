-- ===== src/Auth/Within/Bearer.antt =====
-- What the methods of src/services/auth-service.ts that present and revoke tokens keep.
use keylore.Prelude.{
  String, Option, none, some, List, All, Option-cases, inl, inr, find, ◌==◌, ◌&&◌,
}
use keylore.Exec.Keeps.{Keeps, Keeps-return, keeps_rules}
use keylore.Domain.{AuthContext}
use keylore.Domain.Config.{KeyLoreConfig}
use keylore.Domain.Auth.{StoredAuthClient, AccessToken, RefreshToken}
use keylore.World.Host.{Host}
use keylore.Auth.Scopes.{is_active}
use keylore.Auth.Tables.Access
use keylore.Auth.Tables.Refresh
use keylore.Auth.Bearer.{
  check_bearer, touch_token, authenticate_bearer_token, audit_access, audit_refresh, revoke_access,
  revoke_token, revoke_refresh, revoke_refresh_token,
}
use keylore.Auth.Within.{
  AccessWithin, RefreshWithin, access_touch_keeps, access_revoke_keeps, refresh_revoke_keeps,
}
use keylore.Auth.Assertion.Frame.{reads_rules, Keeps-demand}
use keylore.Auth.Within.Issue.{Bounded, on_access-Keeps, on_refresh-Keeps, record_event-Bounded}

module _ (cs : List StoredAuthClient) (host : Host) (config : KeyLoreConfig) where
  check_bearer-Bounded :
      (token : String) (resource : Option String)
      → Keeps (Bounded cs) (check_bearer host token resource)
  unfolding check_bearer
  check_bearer-Bounded token resource = search (keeps_rules, reads_rules) depth 14

  touch_token-Bounded : (t : AccessToken) → Keeps (Bounded cs) (touch_token host t)
  unfolding touch_token
  touch_token-Bounded t = record {
    at = λ w b. record {
      clients = b.clients;
      access = access_touch_keeps cs w.now t.token_hash w.auth.access_tokens b.access;
      refresh = b.refresh;
      codes = b.codes;
    };
  }

  pub authenticate_bearer_token-Bounded :
      (token : String) (resource : Option String)
      → Keeps (Bounded cs) (authenticate_bearer_token host token resource)
  unfolding authenticate_bearer_token
  authenticate_bearer_token-Bounded token resource =
      search (keeps_rules, check_bearer-Bounded, touch_token-Bounded)

  revoke_by_id_keeps :
      (id : String) (table : List AccessToken)
      → All (AccessWithin cs) table
      → All (AccessWithin cs) (Access.revoke_by_id id table).1
  unfolding Access.revoke_by_id
  revoke_by_id_keeps id table h =
      elim (Option-cases
        (find (λ (t : AccessToken). t.token_id == id && is_active t.status) table)) [
          | inl e ↦ rw (Access.revoke_by_id, e) h
          | inr (t, e) ↦
              rw (Access.revoke_by_id, e)
                (access_revoke_keeps cs (λ (u : AccessToken). u.token_id == id) table h)
        ]

  revoke_refresh_by_id_keeps :
      (id : String) (table : List RefreshToken)
      → All (RefreshWithin cs) table
      → All (RefreshWithin cs) (Refresh.revoke_by_id id table).1
  unfolding Refresh.revoke_by_id
  revoke_refresh_by_id_keeps id table h =
      elim (Option-cases
        (find (λ (t : RefreshToken). t.refresh_token_id == id && is_active t.status) table)) [
          | inl e ↦ rw (Refresh.revoke_by_id, e) h
          | inr (t, e) ↦
              rw (Refresh.revoke_by_id, e)
                (refresh_revoke_keeps cs (λ (u : RefreshToken). u.refresh_token_id == id) table h)
        ]

  audit_access-Bounded :
      (actor : AuthContext) (revoked : Option AccessToken)
      → Keeps (Bounded cs) (audit_access host actor revoked)
  unfolding audit_access
  audit_access-Bounded actor none = Keeps-return tt
  audit_access-Bounded actor (some t) = record_event-Bounded cs host config _

  audit_refresh-Bounded :
      (actor : AuthContext) (revoked : Option RefreshToken)
      → Keeps (Bounded cs) (audit_refresh host actor revoked)
  unfolding audit_refresh
  audit_refresh-Bounded actor none = Keeps-return tt
  audit_refresh-Bounded actor (some t) = record_event-Bounded cs host config _

  revoke_access-Bounded :
      (actor : AuthContext) (id : String) (found : Option AccessToken)
      → Keeps (Bounded cs) (revoke_access host actor id found)
  unfolding revoke_access
  revoke_access-Bounded actor id none = Keeps-return none
  revoke_access-Bounded actor id (some t) =
      search (keeps_rules, Keeps-demand, on_access-Keeps, revoke_by_id_keeps, audit_access-Bounded)
        depth 10

  pub revoke_token-Bounded :
      (actor : AuthContext) (id : String) → Keeps (Bounded cs) (revoke_token host actor id)
  unfolding revoke_token
  revoke_token-Bounded actor id = search (keeps_rules, revoke_access-Bounded)

  revoke_refresh-Bounded :
      (actor : AuthContext) (id : String) (found : Option RefreshToken)
      → Keeps (Bounded cs) (revoke_refresh host actor id found)
  unfolding revoke_refresh
  revoke_refresh-Bounded actor id none = Keeps-return none
  revoke_refresh-Bounded actor id (some t) =
      search
        (
          keeps_rules, Keeps-demand, on_refresh-Keeps, revoke_refresh_by_id_keeps,
          audit_refresh-Bounded,
        )
        depth 10

  pub revoke_refresh_token-Bounded :
      (actor : AuthContext) (id : String) → Keeps (Bounded cs) (revoke_refresh_token host actor id)
  unfolding revoke_refresh_token
  revoke_refresh_token-Bounded actor id = search (keeps_rules, revoke_refresh-Bounded)
