-- ===== src/Auth/Within/Issue.antt =====
-- What the methods that issue and revoke tokens and codes keep: src/services/auth-service.ts.
use keylore.Prelude.{
  String, ◌≡◌, refl, sym, ap, ◌∙◌, subst, Option, some, List, All, eq_iff, find-eq-some,
}
use keylore.Exec.{Result, Exec}
use keylore.Exec.Keeps.{Keeps, keeps_rules}
use keylore.Exec.Yields.{Yields, Yields-gets}
use keylore.Domain.Config.{KeyLoreConfig}
use keylore.Domain.Auth.{
  GrantType, StoredAuthClient, Grant, AccessToken, RefreshToken, AuthorizationCode, TokenIssueInput,
  AuthTables, ClientAssertion,
}
use keylore.World.{World}
use keylore.World.Host.{Host, random_uuid, random_bytes}
use keylore.World.Quiet.{Quiet, Quiet-Keeps}
use keylore.Audit.{RecordAuditInput, record_event}
use keylore.Audit.Frame.{random_uuid-Quiet, record_event-Quiet}
use keylore.Auth.Tables.{get_by_client_id}
use keylore.Auth.Statements.{on_access, on_refresh, on_codes, get_client, register_assertion}
use keylore.Auth.Assertion.{authenticate_client_credentials}
use keylore.Auth.Assertion.Frame.{reads_rules, authenticate-Keeps}
use keylore.Auth.Issue.{issue_access_token_record, issue_refresh_token_record}
use keylore.Auth.Within.{
  IsWithin, AccessWithin, RefreshWithin, CodeWithin, access_issue_keeps, refresh_issue_keeps,
}

-- The clients are `cs`, and every active token and code grants what its client has.
pub record Bounded (cs : List StoredAuthClient) (w : World) : Type 0 where
  pub clients : w.auth.clients ≡ cs
  pub access : All (AccessWithin cs) w.auth.access_tokens
  pub refresh : All (RefreshWithin cs) w.auth.refresh_tokens
  pub codes : All (CodeWithin cs) w.auth.codes

module _ (cs : List StoredAuthClient) where
  pub Bounded-same : (v w : World) → w.auth ≡ v.auth → Bounded cs v → Bounded cs w
  Bounded-same v w e b = record {
    clients = ap (λ (a : AuthTables). a.clients) e ∙ b.clients;
    access = subst (λ (a : AuthTables). All (AccessWithin cs) a.access_tokens) (sym e) b.access;
    refresh = subst (λ (a : AuthTables). All (RefreshWithin cs) a.refresh_tokens) (sym e) b.refresh;
    codes = subst (λ (a : AuthTables). All (CodeWithin cs) a.codes) (sym e) b.codes;
  }

  pub Quiet-Bounded : {A : Type 0} (m : Exec World A) → Quiet m → Keeps (Bounded cs) m
  Quiet-Bounded m q = Quiet-Keeps (Bounded cs) m q (λ v w s b. Bounded-same v w s.auth b)

  pub on_access-Keeps :
      {A : Type 0} (statement : List AccessToken → Result A × List AccessToken)
      → ((table : List AccessToken)
          → All (AccessWithin cs) table
          → All (AccessWithin cs) (statement table).1)
      → Keeps (Bounded cs) (on_access statement)
  on_access-Keeps statement k = record {
    at = λ w b. record {
      clients = b.clients;
      access = k w.auth.access_tokens b.access;
      refresh = b.refresh;
      codes = b.codes;
    };
  }

  pub on_refresh-Keeps :
      {A : Type 0} (statement : List RefreshToken → Result A × List RefreshToken)
      → ((table : List RefreshToken)
          → All (RefreshWithin cs) table
          → All (RefreshWithin cs) (statement table).1)
      → Keeps (Bounded cs) (on_refresh statement)
  on_refresh-Keeps statement k = record {
    at = λ w b. record {
      clients = b.clients;
      access = b.access;
      refresh = k w.auth.refresh_tokens b.refresh;
      codes = b.codes;
    };
  }

  pub on_codes-Keeps :
      {A : Type 0} (statement : List AuthorizationCode → Result A × List AuthorizationCode)
      → ((table : List AuthorizationCode)
          → All (CodeWithin cs) table
          → All (CodeWithin cs) (statement table).1)
      → Keeps (Bounded cs) (on_codes statement)
  on_codes-Keeps statement k = record {
    at = λ w b. record {
      clients = b.clients;
      access = b.access;
      refresh = b.refresh;
      codes = k w.auth.codes b.codes;
    };
  }

  abbrev pub IsNamed : String → Option StoredAuthClient → Type 0
  IsNamed id stored = get_by_client_id id cs ≡ stored

  pub get_client-Yields : (id : String) → Yields (Bounded cs) (get_client id) (IsNamed id)
  unfolding get_client
  get_client-Yields id =
      Yields-gets (λ w b. ap (λ table. get_by_client_id id table) (sym b.clients))

  -- A client is found under its own identifier.
  pub own_name :
      (id : String) {c : StoredAuthClient}
      → get_by_client_id id cs ≡ some c
      → get_by_client_id c.client_id cs ≡ some c
  unfolding get_by_client_id
  own_name id {c} h =
      let same : c.client_id ≡ id = ((eq_iff c.client_id id).0 (find-eq-some _ cs h).1) in
      ap (λ name. get_by_client_id name cs) same ∙ h

module _ (cs : List StoredAuthClient) (host : Host) (config : KeyLoreConfig) where
  pub random_uuid-Bounded : Keeps (Bounded cs) (random_uuid host)
  random_uuid-Bounded = Quiet-Bounded cs (random_uuid host) (random_uuid-Quiet host)

  pub random_bytes-Bounded : Keeps (Bounded cs) (random_bytes host)
  unfolding random_bytes
  random_bytes-Bounded = record { at = λ w b. Bounded-same cs w _ refl b }

  pub record_event-Bounded :
      (input : RecordAuditInput) → Keeps (Bounded cs) (record_event host input)
  record_event-Bounded input =
      Quiet-Bounded cs (record_event host input) (record_event-Quiet host input)

  pub issue_access-Bounded :
      (grant : Grant) (grant_type : GrantType)
      → IsWithin cs grant
      → Keeps (Bounded cs) (issue_access_token_record host config grant grant_type)
  unfolding issue_access_token_record
  issue_access-Bounded grant grant_type within =
      search
        (
          keeps_rules, reads_rules, random_uuid-Bounded, random_bytes-Bounded, record_event-Bounded,
          on_access-Keeps, access_issue_keeps,
        )
        depth 12

  pub issue_refresh-Bounded :
      (grant : Grant)
      → IsWithin cs grant
      → Keeps (Bounded cs) (issue_refresh_token_record host config grant)
  unfolding issue_refresh_token_record
  issue_refresh-Bounded grant within =
      search
        (
          keeps_rules, reads_rules, random_uuid-Bounded, random_bytes-Bounded, record_event-Bounded,
          on_refresh-Keeps, refresh_issue_keeps,
        )
        depth 12

  register_assertion-Bounded : (a : ClientAssertion) → Keeps (Bounded cs) (register_assertion a)
  unfolding register_assertion
  register_assertion-Bounded a = record {
    at = λ w b. record {
      clients = b.clients;
      access = b.access;
      refresh = b.refresh;
      codes = b.codes;
    };
  }

  pub authenticate-Bounded :
      (client : StoredAuthClient) (input : TokenIssueInput)
      → Keeps (Bounded cs) (authenticate_client_credentials host config client input)
  authenticate-Bounded client input =
      authenticate-Keeps (Bounded cs) register_assertion-Bounded host config client input
