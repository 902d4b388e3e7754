-- ===== src/Auth/History.antt =====
-- Runs of src/services/auth-service.ts: any calls, in any order, with time passing between them and
-- the clean-up that src/services/maintenance-service.ts makes of the tables.
use keylore.Prelude.{ℕ, ◌+◌, String, ◌||◌, not, Option, List, [], ◌∷◌, leb, All-filter}
use keylore.Exec.{Exec}
use keylore.Exec.Keeps.{Keeps}
use keylore.Exec.Yields.{Leads, Leads-end}
use keylore.Domain.{AuthContext}
use keylore.Domain.Auth.{
  AuthorizationCode, TokenIssueInput, AuthorizationInput, ClientCreateInput, ClientUpdateInput,
}
use keylore.Domain.Config.{KeyLoreConfig}
use keylore.World.{World}
use keylore.World.Host.{Host}
use keylore.Auth.Scopes.{is_usable}
use keylore.Auth.Tables.{cleanup_assertions}
use keylore.Auth.Tables.Access
use keylore.Auth.Tables.Refresh
use keylore.Auth.Tables.Codes
use keylore.Auth.Authorize as Authorize
use keylore.Auth.Exchange as Exchange
use keylore.Auth.Bearer as Bearer
use keylore.Auth.Clients as Clients
use keylore.Auth.Within.{CodeWithin, access_revoke_keeps, refresh_revoke_keeps}
use keylore.Auth.Within.Issue.{Bounded}
use keylore.Auth.Within.Exchange.{authorize-Bounded, issue_token-Bounded}
use keylore.Auth.Within.Upsert.{AllBounded, AllBounded-of}
use keylore.Auth.Within.Clients.{
  create_client-Bounded, update_client-Bounded, rotate_client_secret-Bounded,
}
use keylore.Auth.Within.Bearer.{
  authenticate_bearer_token-Bounded, revoke_token-Bounded, revoke_refresh_token-Bounded,
}

pub data Call : Type 0 where
  authorize : AuthContext → AuthorizationInput → Call
  issue_token : TokenIssueInput → Call
  present : String → Option String → Call
  create_client : AuthContext → ClientCreateInput → Call
  update_client : AuthContext → String → ClientUpdateInput → Call
  rotate_client_secret : AuthContext → String → Option String → Call
  revoke_token : AuthContext → String → Call
  revoke_refresh_token : AuthContext → String → Call
  clean : Call
  wait : ℕ → Call

-- What `runOnce` of the maintenance service does to the tables of the authorization server.
unfoldable pub clean_tables : World → World
clean_tables w = record w {
  auth = record w.auth {
    access_tokens = (Access.expire_stale w.now w.auth.access_tokens).1;
    refresh_tokens = (Refresh.expire_stale w.now w.auth.refresh_tokens).1;
    codes = (Codes.cleanup w.now w.auth.codes).1;
    assertions = (cleanup_assertions w.now w.auth.assertions).1;
  };
}

module _ (host : Host) (config : KeyLoreConfig) where
  -- The state after a call; an exception leaves what was written.
  unfoldable pub perform : Call → World → World
  perform (authorize actor input) w = (Authorize.authorize host config actor input w).1
  perform (issue_token input) w = (Exchange.issue_token host config input w).1
  perform (present token resource) w = (Bearer.authenticate_bearer_token host token resource w).1
  perform (create_client actor input) w = (Clients.create_client host config actor input w).1
  perform (update_client actor id patch) w = (Clients.update_client host config actor id patch w).1
  perform (rotate_client_secret actor id secret) w =
      (Clients.rotate_client_secret host config actor id secret w).1
  perform (revoke_token actor id) w = (Bearer.revoke_token host actor id w).1
  perform (revoke_refresh_token actor id) w = (Bearer.revoke_refresh_token host actor id w).1
  perform clean w = clean_tables w
  perform (wait ms) w = record w { now = w.now + ms }

  unfoldable pub run : List Call → World → World
  run [] w = w
  run (call ∷ calls) w = run calls (perform call w)

  kept :
      {A : Type 0} {m : Exec World A} (w : World)
      → Keeps (Bounded w.auth.clients) m
      → AllBounded w
      → AllBounded (m w).1
  unfolding AllBounded
  kept {m = m} w k h = AllBounded-of w.auth.clients (m w).1 (k.at w h)

  closed :
      {A : Type 0} {m : Exec World A} (w : World)
      → Leads (Bounded w.auth.clients) AllBounded m (λ _ v. AllBounded v)
      → AllBounded w
      → AllBounded (m w).1
  unfolding AllBounded
  closed w l h = Leads-end l w h

  clean_tables-AllBounded : (w : World) → AllBounded w → AllBounded (clean_tables w)
  unfolding AllBounded clean_tables Access.expire_stale Refresh.expire_stale Codes.cleanup
  clean_tables-AllBounded w h = record {
    clients = h.clients;
    access =
        access_revoke_keeps w.auth.clients (λ t. leb t.expires_at w.now) w.auth.access_tokens
          h.access;
    refresh =
        refresh_revoke_keeps w.auth.clients (λ t. leb t.expires_at w.now) w.auth.refresh_tokens
          h.refresh;
    codes =
        All-filter (CodeWithin w.auth.clients)
          (λ (c : AuthorizationCode). not (leb c.expires_at w.now || not (is_usable c.status)))
          w.auth.codes h.codes;
  }

  wait-AllBounded : (ms : ℕ) (w : World) → AllBounded w → AllBounded (record w { now = w.now + ms })
  unfolding AllBounded
  wait-AllBounded ms w h = record {
    clients = h.clients;
    access = h.access;
    refresh = h.refresh;
    codes = h.codes;
  }

  perform-AllBounded : (call : Call) (w : World) → AllBounded w → AllBounded (perform call w)
  unfolding perform
  perform-AllBounded (authorize actor input) w h =
      kept w (authorize-Bounded w.auth.clients host config actor input) h
  perform-AllBounded (issue_token input) w h =
      kept w (issue_token-Bounded w.auth.clients host config input) h
  perform-AllBounded (present token resource) w h =
      kept w (authenticate_bearer_token-Bounded w.auth.clients host config token resource) h
  perform-AllBounded (create_client actor input) w h =
      closed w (create_client-Bounded w.auth.clients host config actor input) h
  perform-AllBounded (update_client actor id patch) w h =
      closed w (update_client-Bounded w.auth.clients host config actor id patch) h
  perform-AllBounded (rotate_client_secret actor id secret) w h =
      closed w (rotate_client_secret-Bounded w.auth.clients host config actor id secret) h
  perform-AllBounded (revoke_token actor id) w h =
      kept w (revoke_token-Bounded w.auth.clients host config actor id) h
  perform-AllBounded (revoke_refresh_token actor id) w h =
      kept w (revoke_refresh_token-Bounded w.auth.clients host config actor id) h
  perform-AllBounded clean w h = clean_tables-AllBounded w h
  perform-AllBounded (wait ms) w h = wait-AllBounded ms w h

  -- Whatever calls are made, in whatever order and however time passes: if every active access token,
  -- refresh token and authorization code names a known client of its own tenant, and has only scopes
  -- and roles that this client has, then that is so of the tables afterwards and of the clients as
  -- they are then.
  pub run-AllBounded : (calls : List Call) (w : World) → AllBounded w → AllBounded (run calls w)
  unfolding run
  run-AllBounded [] w h = h
  run-AllBounded (call ∷ calls) w h =
      run-AllBounded calls (perform call w) (perform-AllBounded call w h)
