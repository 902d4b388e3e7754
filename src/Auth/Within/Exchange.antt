-- ===== src/Auth/Within/Exchange.antt =====
-- What `authorize` and `issueToken` of src/services/auth-service.ts keep: every active token and code
-- grants what its client has.
use keylore.Prelude.{
  ℕ, String, ◌≡◌, refl, sym, ◌∙◌, subst, Bool, true, false, Option, none, some, List, arith,
  Bool-cases, inl, inr, All, All-mem, includes, ◌==◌, eq_iff, find-eq-some, ◌&&◌, &&-eq-true_iff,
  or_else,
}
use keylore.Exec.Keeps.{Keeps, Keeps-bind, Keeps-return, keeps_rules}
use keylore.Exec.Yields.{
  Yields, Yields-bind, Yields-Keeps, Yields-gets, Yields-return, Yields-existing, Yields-demand,
  Keeps-Yields,
}
use keylore.Domain.{AuthContext}
use keylore.Domain.Config.{KeyLoreConfig}
use keylore.Domain.Auth.{
  GrantType, client_credentials, authorization_code, StoredAuthClient, Grant, RefreshToken,
  AuthorizationCode, TokenIssueInput, AuthorizationInput,
}
use keylore.World.Host.{Host}
use keylore.Auth.Scopes.{is_active, is_enabled, requested_or, granted_scopes}
use keylore.Auth.Scopes.Granted.{test_of_granted, granted_scopes-Within, granted_roles-Within}
use keylore.Auth.Tables.{get_by_client_id}
use keylore.Auth.Tables.Refresh
use keylore.Auth.Tables.Codes
use keylore.Auth.Statements.{answered, get_refresh_token}
use keylore.Auth.Issue.{enabled}
use keylore.Auth.Authorize.{authorized_grant, create_code, authorize_client, authorize}
use keylore.Auth.Exchange.{
  usable_refresh, by_client_credentials, refresh_if, consume_code, redeem_code, with_scopes,
  by_authorization_code, check_refresh_token, rotate_refresh, by_refresh_token, exchange,
  issue_token,
}
use keylore.Auth.Within.{
  IsWithin, IsWithin-fewer, RefreshWithin, CodeWithin, code_create_keeps, code_consume_keeps,
  refresh_replace_keeps, WasUsable, consume-WasUsable,
}
use keylore.Auth.Assertion.Frame.{
  reads_rules, Keeps-demand, Keeps-current_time, Keeps-require_active_tenant,
}
use keylore.Auth.Within.Issue.{
  Bounded, get_client-Yields, own_name, on_refresh-Keeps, on_codes-Keeps, random_uuid-Bounded,
  random_bytes-Bounded, record_event-Bounded, issue_access-Bounded, issue_refresh-Bounded,
  authenticate-Bounded,
}

enabled-same :
    (stored : Option StoredAuthClient) {c : StoredAuthClient}
    → enabled stored ≡ some c
    → stored ≡ some c
enabled-same none h = cc
enabled-same (some d) h = elim (Bool-cases (is_enabled d.status)) [
  | inl e ↦ rw e at h
  | inr e ↦ absurd (cc (rw e at h))
]

module _ (cs : List StoredAuthClient) (host : Host) (config : KeyLoreConfig) where
  authorized-IsWithin :
      (actor : AuthContext) (client : StoredAuthClient) (input : AuthorizationInput)
      → get_by_client_id client.client_id cs ≡ some client
      → IsWithin cs (authorized_grant host config actor client input)
  authorized-IsWithin actor client input named = record {
    client = client;
    named = named;
    tenant = refl;
    scopes = λ s h.
        ((&&-eq-true_iff (includes actor.scopes s) (includes client.allowed_scopes s)).0 (
          test_of_granted (λ t. includes actor.scopes t && includes client.allowed_scopes t)
            (requested_or input.scope client.allowed_scopes) s h)).1;
    roles = λ r h. granted_roles-Within client.roles actor.roles r h;
  }

  create_code-Bounded :
      (grant : Grant) (input : AuthorizationInput)
      → IsWithin cs grant
      → Keeps (Bounded cs) (create_code host config grant input)
  unfolding create_code
  create_code-Bounded grant input within =
      search
        (
          keeps_rules, reads_rules, random_uuid-Bounded, random_bytes-Bounded, record_event-Bounded,
          on_codes-Keeps, code_create_keeps,
        )
        depth 12

  authorize_client-Bounded :
      (actor : AuthContext) (input : AuthorizationInput) (client : StoredAuthClient)
      → get_by_client_id client.client_id cs ≡ some client
      → Keeps (Bounded cs) (authorize_client host config actor input client)
  unfolding authorize_client
  authorize_client-Bounded actor input client named =
      search
        (
          keeps_rules,
          reads_rules,
          create_code-Bounded,
          authorized-IsWithin actor client input named,
        )
        depth 16

  pub authorize-Bounded :
      (actor : AuthContext) (input : AuthorizationInput)
      → Keeps (Bounded cs) (authorize host config actor input)
  unfolding authorize
  authorize-Bounded actor input = Keeps-Yields {R = λ _. Unit} (
      Yields-bind _ _ (get_client-Yields cs input.client_id) (λ stored named.
        Yields-bind _ _ (Yields-existing (enabled stored) _) (λ client found. Yields-Keeps (
          authorize_client-Bounded actor input client
            (own_name cs input.client_id (named ∙ enabled-same stored found))))))

  by_client_credentials-Bounded :
      (client : StoredAuthClient) (input : TokenIssueInput)
      → get_by_client_id client.client_id cs ≡ some client
      → Keeps (Bounded cs) (by_client_credentials host config client input)
  unfolding by_client_credentials
  by_client_credentials-Bounded client input named =
      search (keeps_rules, Keeps-demand, authenticate-Bounded, issue_access-Bounded, whole) depth 16
    where
      whole : IsWithin cs (record {
        client_id = client.client_id;
        tenant_id = client.tenant_id;
        subject = client.client_id;
        scopes = granted_scopes input.scope client.allowed_scopes;
        roles = client.roles;
        resource = input.resource;
      })
      whole = record {
        client = client;
        named = named;
        tenant = refl;
        scopes = granted_scopes-Within input.scope client.allowed_scopes;
        roles = λ r h. h;
      }

  refresh_if-Bounded :
      (b : Bool) (grant : Grant)
      → IsWithin cs grant
      → Keeps (Bounded cs) (refresh_if host config b grant)
  unfolding refresh_if
  refresh_if-Bounded true grant within = search (keeps_rules, issue_refresh-Bounded)
  refresh_if-Bounded false grant within = Keeps-return none

  consumed-IsWithin :
      (now : ℕ) (code_hash : String) (table : List AuthorizationCode) {c : AuthorizationCode}
      → All (CodeWithin cs) table
      → WasUsable now code_hash table c
      → IsWithin cs c.grant
  consumed-IsWithin now code_hash table h u =
      subst (λ (c : AuthorizationCode). IsWithin cs c.grant) (sym u.taken)
        (All-mem (CodeWithin cs) table h (find-eq-some _ table u.found).0 u.usable)

  -- What a redeemed code says of the client.
  abbrev IsFor : StoredAuthClient → AuthorizationCode → Type 0
  IsFor client c = IsWithin cs c.grant × (c.client_id ≡ client.client_id)

  consume-Yields :
      (now : ℕ) (code_hash : String)
      → Yields
          (Bounded cs)
          (consume_code host config now code_hash)
          (λ consumed. (c : AuthorizationCode) → consumed ≡ some c → IsWithin cs c.grant)
  unfolding consume_code
  consume-Yields now code_hash = record {
    at = λ w b. (
      (on_codes-Keeps cs (λ table. answered (Codes.consume_by_hash now code_hash table))
            (code_consume_keeps cs now code_hash)).at
          w b,
      (λ c h.
          consumed-IsWithin now code_hash w.auth.codes b.codes
            (consume-WasUsable now code_hash w.auth.codes h)),
    );
  }

  redeem_code-Yields :
      (client : StoredAuthClient) (input : TokenIssueInput)
      → Yields (Bounded cs) (redeem_code host config client input) (IsFor client)
  unfolding redeem_code
  redeem_code-Yields client input = Yields-bind _ _ (Yields-Keeps Keeps-current_time) (λ now _.
      Yields-bind _ _ (consume-Yields now (host.sha256_hex (or_else input.code ""))) (λ consumed h.
        Yields-bind _ _ (Yields-existing consumed _) (λ c found.
          Yields-bind _ _ (Yields-demand (c.client_id == client.client_id) _) (λ _ own.
            Yields-bind _ _ (Yields-demand _ _) (λ _ _.
              Yields-bind _ _ (Yields-demand _ _)
                (λ _ _. Yields-return (h c found, (eq_iff c.client_id client.client_id).0 own)))))))

  -- A grant for the client with some of the scopes of an older grant.
  with_scopes-IsWithin :
      (client : StoredAuthClient) (g : Grant) (requested : Option (List String))
      → IsWithin cs g
      → g.client_id ≡ client.client_id
      → IsWithin cs (with_scopes host config client.client_id g (granted_scopes requested g.scopes))
  with_scopes-IsWithin client g requested within own =
      IsWithin-fewer cs g
        (with_scopes host config client.client_id g (granted_scopes requested g.scopes)) within
        (sym own) refl refl (granted_scopes-Within requested g.scopes)

  by_authorization_code-Bounded :
      (client : StoredAuthClient) (input : TokenIssueInput)
      → Keeps (Bounded cs) (by_authorization_code host config client input)
  unfolding by_authorization_code
  by_authorization_code-Bounded client input = Keeps-Yields {R = λ _. Unit} (
      Yields-bind _ _ (Yields-Keeps (authenticate-Bounded cs host config client input)) (λ _ _.
        Yields-bind _ _ (Yields-demand _ _) (λ _ _.
          Yields-bind _ _ (redeem_code-Yields client input) (λ code (within, own). Yields-Keeps (
            search
              (
                keeps_rules,
                Keeps-demand,
                issue_access-Bounded,
                refresh_if-Bounded,
                with_scopes-IsWithin client code.grant input.scope within own,
              )
              depth 16)))))

  IsUsable : StoredAuthClient → RefreshToken → Type 0
  IsUsable client t = IsWithin cs t.grant × (t.client_id ≡ client.client_id)

  usable_refresh-IsUsable :
      (client : StoredAuthClient) (stored : Option RefreshToken) {t : RefreshToken}
      → ((u : RefreshToken) → stored ≡ some u → RefreshWithin cs u)
      → usable_refresh client.client_id stored ≡ some t
      → IsUsable client t
  unfolding IsUsable
  usable_refresh-IsUsable client none k h = cc
  usable_refresh-IsUsable client (some u) {t} k h =
      elim (Bool-cases (is_active u.status && u.client_id == client.client_id)) [
        | inr e ↦ absurd (cc (rw e at h))
        | inl e ↦
            let (active, own) =
              (&&-eq-true_iff (is_active u.status) (u.client_id == client.client_id)).0 e in
            let same : u ≡ t = (ground (arith, (rw e at h))) in
            subst (IsUsable client) same
              (k u refl active, (eq_iff u.client_id client.client_id).0 own)
      ]

  get_refresh_token-Yields :
      (token_hash : String)
      → Yields
          (Bounded cs)
          (get_refresh_token token_hash)
          (λ stored. (u : RefreshToken) → stored ≡ some u → RefreshWithin cs u)
  unfolding get_refresh_token Refresh.get_by_hash
  get_refresh_token-Yields token_hash = Yields-gets (λ w b u found.
      All-mem (RefreshWithin cs) w.auth.refresh_tokens b.refresh
        (find-eq-some _ w.auth.refresh_tokens found).0)

  check_refresh_token-Yields :
      (client : StoredAuthClient) (input : TokenIssueInput)
      → Yields (Bounded cs) (check_refresh_token host config client input) (IsUsable client)
  unfolding check_refresh_token
  check_refresh_token-Yields client input =
      Yields-bind _ _ (get_refresh_token-Yields (host.sha256_hex (or_else input.refresh_token "")))
        (λ stored h.
          Yields-bind _ _ (Yields-existing (usable_refresh client.client_id stored) _) (λ t found.
            Yields-bind _ _ (Yields-Keeps Keeps-current_time) (λ now _.
              Yields-bind _ _ (Yields-demand _ _) (λ _ _.
                Yields-bind _ _ (Yields-demand _ _) (λ _ _.
                  Yields-bind _ _ (Yields-Keeps (Keeps-require_active_tenant t.tenant_id))
                    (λ _ _. Yields-return (usable_refresh-IsUsable client stored h found)))))))

  rotate_refresh-Bounded :
      (client : StoredAuthClient) (input : TokenIssueInput) (t : RefreshToken) (rotated : String)
      → Keeps (Bounded cs) (rotate_refresh host config client input t rotated)
  unfolding rotate_refresh
  rotate_refresh-Bounded client input t rotated =
      search
        (keeps_rules, reads_rules, record_event-Bounded, on_refresh-Keeps, refresh_replace_keeps)
        depth 12

  by_refresh_token-Bounded :
      (client : StoredAuthClient) (input : TokenIssueInput)
      → Keeps (Bounded cs) (by_refresh_token host config client input)
  unfolding by_refresh_token IsUsable
  by_refresh_token-Bounded client input = Keeps-Yields {R = λ _. Unit} (
      Yields-bind _ _ (Yields-Keeps (authenticate-Bounded cs host config client input)) (λ _ _.
        Yields-bind _ _ (Yields-demand _ _) (λ _ _.
          Yields-bind _ _ (check_refresh_token-Yields client input) (λ t (within, own).
            Yields-Keeps (
              search
                (
                  keeps_rules,
                  Keeps-demand,
                  issue_access-Bounded,
                  issue_refresh-Bounded,
                  rotate_refresh-Bounded,
                  with_scopes-IsWithin client t.grant input.scope within own,
                )
                depth 16)))))

  exchange-Bounded :
      (grant_type : GrantType) (client : StoredAuthClient) (input : TokenIssueInput)
      → get_by_client_id client.client_id cs ≡ some client
      → Keeps (Bounded cs) (exchange host config grant_type client input)
  unfolding exchange
  exchange-Bounded client_credentials client input named =
      by_client_credentials-Bounded client input named
  exchange-Bounded authorization_code client input named =
      by_authorization_code-Bounded client input
  exchange-Bounded GrantType.refresh_token client input named =
      by_refresh_token-Bounded client input

  pub issue_token-Bounded :
      (input : TokenIssueInput) → Keeps (Bounded cs) (issue_token host config input)
  unfolding issue_token
  issue_token-Bounded input = Keeps-Yields {R = λ _. Unit} (
      Yields-bind _ _ (get_client-Yields cs input.client_id) (λ stored named.
        Yields-bind _ _ (Yields-existing (enabled stored) _) (λ client found. Yields-Keeps (
          Keeps-bind _ _ (Keeps-require_active_tenant client.tenant_id) (λ _.
            exchange-Bounded input.grant_type client input
              (own_name cs input.client_id (named ∙ enabled-same stored found)))))))
