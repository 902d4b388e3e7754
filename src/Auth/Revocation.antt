-- ===== src/Auth/Revocation.antt =====
-- A client whose rights change loses what was issued to it: `updateClient` and `rotateClientSecret` of
-- src/services/auth-service.ts.
use keylore.Prelude.{
  String, ◌≡◌, refl, sym, subst, Bool, true, false, Option, some, arith, Bool-cases, inl, inr,
  if◌then◌else◌, All, All-map_every, Option-cases, ◌==◌, eq_iff, ◌&&◌, find-eq-some,
}
use keylore.Exec.{Result, ok, thrown, Exec, return, demand}
use keylore.Exec.Keeps.{Keeps, keeps_rules}
use keylore.Exec.Yields.{Holds, Leads, Leads-bind, Leads-Keeps}
use keylore.Domain.{AuthContext}
use keylore.Domain.Config.{KeyLoreConfig}
use keylore.Domain.Auth.{
  AuthClientRecord, AuthTables, ClientSecretOutput, StoredAuthClient, AccessToken, RefreshToken,
  AuthorizationCode, ClientUpdateInput,
}
use keylore.World.{World}
use keylore.World.Host.{Host}
use keylore.World.Quiet.{Quiet-Keeps}
use keylore.Audit.{RecordAuditInput, record_event}
use keylore.Audit.Frame.{record_event-Quiet}
use keylore.Auth.Scopes.{is_active, is_usable}
use keylore.Auth.Tables.{get_by_client_id}
use keylore.Auth.Tables.Access
use keylore.Auth.Tables.Refresh
use keylore.Auth.Tables.Codes
use keylore.Auth.Statements.{get_client, upsert_client}
use keylore.Auth.Assertion.{hash_secret}
use keylore.Auth.Assertion.Frame.{Keeps-demand}
use keylore.Auth.Clients.{
  secret_or_new, changes_access, updated, replace_client, revoke_all, update_found, update_client,
  rotate_found, rotate_client_secret,
}

-- No access token, refresh token or code of the client is active.
pub record IsStripped (id : String) (w : World) : Type 0 where
  pub access :
      All
        (λ (t : AccessToken). (t.client_id == id) ≡ true → is_active t.status ≡ false)
        w.auth.access_tokens
  pub refresh :
      All
        (λ (t : RefreshToken). (t.client_id == id) ≡ true → is_active t.status ≡ false)
        w.auth.refresh_tokens
  pub codes :
      All
        (λ (c : AuthorizationCode). (c.client_id == id) ≡ true → is_usable c.status ≡ false)
        w.auth.codes

module _ (id : String) where
  access_stripped :
      (t : AccessToken)
      → ((Access.revoke_where (λ (u : AccessToken). u.client_id == id) t).client_id == id) ≡ true
      → is_active (Access.revoke_where (λ (u : AccessToken). u.client_id == id) t).status ≡ false
  access_stripped t = elim (Bool-cases (t.client_id == id && is_active t.status)) [
    | inl e ↦ rw e (λ h. refl)
    | inr e ↦ rw e (λ h. ground arith)
  ]

  refresh_stripped :
      (t : RefreshToken)
      → ((Refresh.revoke_where (λ (u : RefreshToken). u.client_id == id) t).client_id == id) ≡ true
      → is_active (Refresh.revoke_where (λ (u : RefreshToken). u.client_id == id) t).status ≡ false
  refresh_stripped t = elim (Bool-cases (t.client_id == id && is_active t.status)) [
    | inl e ↦ rw e (λ h. refl)
    | inr e ↦ rw e (λ h. ground arith)
  ]

  code_stripped :
      (c : AuthorizationCode)
      → ((Codes.revoke_of id c).client_id == id) ≡ true
      → is_usable (Codes.revoke_of id c).status ≡ false
  code_stripped c = elim (Bool-cases (c.client_id == id && is_usable c.status)) [
    | inl e ↦ rw e (λ h. refl)
    | inr e ↦ rw e (λ h. ground arith)
  ]

  abbrev Any : World → Type 0
  Any w = Unit

  revoke_all-IsStripped : Leads Any Any (revoke_all id) (λ _ w. IsStripped id w)
  unfolding revoke_all Access.revoke_by_client_id Refresh.revoke_by_client_id
      Codes.revoke_by_client_id
  revoke_all-IsStripped = record {
    at = λ w h. record {
      access = All-map_every _ _ w.auth.access_tokens access_stripped;
      refresh = All-map_every _ _ w.auth.refresh_tokens refresh_stripped;
      codes = All-map_every _ _ w.auth.codes code_stripped;
    };
  }

  revoke_if-IsStripped :
      (b : Bool)
      → b ≡ true
      → Leads Any Any (if b then revoke_all id else return tt) (λ _ w. IsStripped id w)
  revoke_if-IsStripped true h = revoke_all-IsStripped
  revoke_if-IsStripped false h = cc

  IsStripped-same : (v w : World) → w.auth ≡ v.auth → IsStripped id v → IsStripped id w
  IsStripped-same v w e s = record {
    access =
        subst
          (λ (a : AuthTables).
            All (λ (t : AccessToken). (t.client_id == id) ≡ true → is_active t.status ≡ false)
              a.access_tokens)
          (sym e) s.access;
    refresh =
        subst
          (λ (a : AuthTables).
            All (λ (t : RefreshToken). (t.client_id == id) ≡ true → is_active t.status ≡ false)
              a.refresh_tokens)
          (sym e) s.refresh;
    codes =
        subst
          (λ (a : AuthTables).
            All (λ (c : AuthorizationCode). (c.client_id == id) ≡ true → is_usable c.status ≡ false)
              a.codes)
          (sym e) s.codes;
  }

  -- A method whose outcome does not matter yet.
  anyway : {A : Type 0} (m : Exec World A) → Leads Any Any m (λ _ w. Any w)
  anyway m = record { at = λ w h. any_outcome (m w) }
    where
      any_outcome : {A : Type 0} (r : Result A × World) → Holds Any (λ (a : A) w. Any w) r
      any_outcome (ok a, w) = tt
      any_outcome (thrown e, w) = tt

  stays :
      {A : Type 0} {m : Exec World A}
      → Keeps (IsStripped id) m
      → Leads (IsStripped id) Any m (λ _ w. IsStripped id w)
  stays k = Leads-Keeps (IsStripped id) Any (λ w h. tt) k

  record_event-IsStripped :
      (host : Host) (input : RecordAuditInput) → Keeps (IsStripped id) (record_event host input)
  record_event-IsStripped host input =
      Quiet-Keeps (IsStripped id) (record_event host input) (record_event-Quiet host input)
        (λ v w s h. IsStripped-same v w s.auth h)

module _ (host : Host) (config : KeyLoreConfig) where
  replace_client-IsStripped :
      (patch : ClientUpdateInput) (stored : StoredAuthClient)
      → changes_access patch ≡ true
      → Leads
          (Any stored.client_id)
          (Any stored.client_id)
          (replace_client patch stored)
          (λ _ w. IsStripped stored.client_id w)
  unfolding replace_client
  replace_client-IsStripped patch stored e =
      Leads-bind _ _ (anyway stored.client_id (upsert_client (updated patch stored)))
        (λ _. revoke_if-IsStripped stored.client_id (changes_access patch) e)

  update_found-IsStripped :
      (actor : AuthContext) (patch : ClientUpdateInput) (stored : StoredAuthClient)
      → changes_access patch ≡ true
      → Leads
          (Any stored.client_id)
          (Any stored.client_id)
          (update_found host config actor patch stored)
          (λ _ w. IsStripped stored.client_id w)
  unfolding update_found
  update_found-IsStripped actor patch stored e =
      Leads-bind _ _ (anyway stored.client_id (demand _ _)) (λ _.
        Leads-bind _ _ (anyway stored.client_id (demand _ _)) (λ _.
          Leads-bind _ _ (replace_client-IsStripped patch stored e)
            (λ _. stays stored.client_id (search (keeps_rules, record_event-IsStripped)))))

  rotate_found-IsStripped :
      (actor : AuthContext) (given : Option String) (stored : StoredAuthClient)
      → Leads
          (Any stored.client_id)
          (Any stored.client_id)
          (rotate_found host config actor given stored)
          (λ _ w. IsStripped stored.client_id w)
  unfolding rotate_found
  rotate_found-IsStripped actor given stored =
      Leads-bind _ _ (anyway stored.client_id (demand _ _)) (λ _.
        Leads-bind _ _ (anyway stored.client_id (demand _ _)) (λ _.
          Leads-bind _ _ (anyway stored.client_id (secret_or_new host config given)) (λ secret.
            Leads-bind _ _ (anyway stored.client_id (hash_secret host config secret)) (λ hashed.
              Leads-bind _ _ (anyway stored.client_id (upsert_client _)) (λ _.
                Leads-bind _ _ (revoke_all-IsStripped stored.client_id) (λ _.
                  stays stored.client_id
                    (search (keeps_rules, Keeps-demand, record_event-IsStripped))))))))

  -- What is left when a method that found the client returned.
  of_returned :
      {A : Type 0} {id : String} {a : A} (r : Result A × World)
      → Holds (Any id) (λ (b : A) w. IsStripped id w) r
      → r.0 ≡ ok a
      → IsStripped id r.1
  of_returned (ok b, w) h e = h
  of_returned (thrown m, w) h e = cc

module _ (host : Host) (config : KeyLoreConfig) (actor : AuthContext) (id : String)
    (w : World) where
  named :
      (stored : StoredAuthClient)
      → get_by_client_id id w.auth.clients ≡ some stored
      → stored.client_id ≡ id
  unfolding get_by_client_id
  named stored e = (eq_iff stored.client_id id).0 (find-eq-some _ w.auth.clients e).1

  -- When `updateClient` returns the changed client for a patch of more than the display name, no
  -- access token, refresh token or authorization code of that client is active afterwards.
  pub update_client-IsStripped :
      (patch : ClientUpdateInput) {client : AuthClientRecord}
      → changes_access patch ≡ true
      → (update_client host config actor id patch w).0 ≡ ok (some client)
      → IsStripped id (update_client host config actor id patch w).1
  unfolding update_client get_client
  update_client-IsStripped patch {client} e h =
      elim (Option-cases (get_by_client_id id w.auth.clients)) [
        | inl n ↦ absurd (ground (arith, (rw n at h)))
        | inr (stored, n) ↦
            rw (update_client, n)
              (subst (λ name. IsStripped name (update_found host config actor patch stored w).1)
                (named stored n)
                (of_returned host config (update_found host config actor patch stored w)
                  ((update_found-IsStripped host config actor patch stored e).at w tt)
                  (rw (n) at h)))
      ]

  -- When `rotateClientSecret` returns a new secret, no access token, refresh token or authorization
  -- code of that client is active afterwards.
  pub rotate_client_secret-IsStripped :
      (given : Option String) {output : ClientSecretOutput}
      → (rotate_client_secret host config actor id given w).0 ≡ ok (some output)
      → IsStripped id (rotate_client_secret host config actor id given w).1
  unfolding rotate_client_secret get_client
  rotate_client_secret-IsStripped given {output} h =
      elim (Option-cases (get_by_client_id id w.auth.clients)) [
        | inl n ↦ absurd (ground (arith, (rw n at h)))
        | inr (stored, n) ↦
            rw (rotate_client_secret, n)
              (subst (λ name. IsStripped name (rotate_found host config actor given stored w).1)
                (named stored n)
                (of_returned host config (rotate_found host config actor given stored w)
                  ((rotate_found-IsStripped host config actor given stored).at w tt) (rw (n) at h)))
      ]
