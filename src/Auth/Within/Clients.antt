-- ===== src/Auth/Within/Clients.antt =====
-- What `createClient`, `updateClient` and `rotateClientSecret` of src/services/auth-service.ts keep.
use keylore.Prelude.{
  String, ◌≡◌, refl, sym, ap, ◌∙◌, subst, Bool, true, false, not, Option, none, some, List, arith,
  if◌then◌else◌, is_some, or_else,
}
use keylore.Exec.{Result, ok, thrown, Exec, ◌>>◌, return}
use keylore.Exec.Keeps.{Keeps, Keeps-return, keeps_rules}
use keylore.Exec.Yields.{
  Holds, Leads, Leads-bind, Leads-given, Leads-return, Leads-Keeps, Leads-Yields, Yields,
  Yields-demand,
}
use keylore.Domain.{AuthContext}
use keylore.Domain.Config.{KeyLoreConfig}
use keylore.Domain.Auth.{
  AuthClientRecord, ClientSecretOutput, StoredAuthClient, ClientCreateInput, ClientUpdateInput,
}
use keylore.World.{World}
use keylore.World.Host.{Host}
use keylore.Auth.Tables.{get_by_client_id, upsert}
use keylore.Auth.Statements.{upsert_client}
use keylore.Auth.Assertion.{hash_secret}
use keylore.Auth.Clients.{
  changes_access, merged, updated, replace_client, revoke_all, secret_or_new, new_secret,
  add_client, create_client, update_found, update_client, rotate_found, rotate_client_secret,
}
use keylore.Auth.Assertion.Frame.{Keeps-demand, Keeps-existing, Keeps-get_tenant}
use keylore.Auth.Within.Issue.{
  Bounded, get_client-Yields, own_name, random_bytes-Bounded, record_event-Bounded,
}
use keylore.Auth.Within.Upsert.{
  AllBounded-of, Covers, upsert_covered, upsert_any, revoke_all_closes, revoke_all-Bounded,
  AllBounded,
}

updated-Covers :
    (patch : ClientUpdateInput) (c : StoredAuthClient)
    → changes_access patch ≡ false
    → Covers (updated patch c) c
unfolding changes_access merged
updated-Covers patch c h = record {
  tenant = refl;
  scopes = kept patch.allowed_scopes c.allowed_scopes (ground arith);
  roles = kept patch.roles c.roles (ground arith);
}
  where
    kept :
        {A : Type 0} (given : Option A) (old : A) → is_some given ≡ false → or_else given old ≡ old
    kept none old e = refl
    kept (some a) old e = cc

module _ (cs : List StoredAuthClient) (host : Host) (config : KeyLoreConfig) where
  ended :
      {A : Type 0} (r : Result A × World)
      → Holds AllBounded (λ (a : A) w. Bounded cs w) r
      → Holds AllBounded (λ (a : A) w. AllBounded w) r
  ended (ok a, w) h = AllBounded-of cs w h
  ended (thrown e, w) h = h

  -- The first part of a method, which leaves the clients alone.
  begins :
      {A : Type 0} {m : Exec World A}
      → Keeps (Bounded cs) m
      → Leads (Bounded cs) AllBounded m (λ _ w. Bounded cs w)
  begins k = Leads-Keeps (Bounded cs) AllBounded (AllBounded-of cs) k

  learns :
      {A : Type 0} {R : A → Type 0} {m : Exec World A}
      → Yields (Bounded cs) m R
      → Leads (Bounded cs) AllBounded m (λ a w. Bounded cs w × R a)
  learns y = Leads-Yields (Bounded cs) AllBounded (AllBounded-of cs) y

  -- The rest of a method, which leaves the clients alone.
  ends :
      {A : Type 0} {m : Exec World A}
      → Keeps (Bounded cs) m
      → Leads (Bounded cs) AllBounded m (λ _ w. AllBounded w)
  ends {m = m} k = record { at = λ w b. ended (m w) ((begins k).at w b) }

module _ (cs : List StoredAuthClient) (host : Host) (config : KeyLoreConfig) where
  replace_client-Bounded :
      (patch : ClientUpdateInput) (stored : StoredAuthClient)
      → get_by_client_id stored.client_id cs ≡ some stored
      → Leads
          (Bounded cs)
          AllBounded
          (replace_client patch stored)
          (λ _ w. Bounded (upsert (updated patch stored) cs) w)
  unfolding replace_client merged
  replace_client-Bounded patch stored named = by_change (changes_access patch) refl
    where
      by_change :
          (b : Bool)
          → changes_access patch ≡ b
          → Leads
              (Bounded cs)
              AllBounded
              (upsert_client (updated patch stored)
                >> (if b then revoke_all stored.client_id else return tt))
              (λ _ w. Bounded (upsert (updated patch stored) cs) w)
      by_change true e =
          Leads-bind _ _ (upsert_any (updated patch stored) cs)
            (λ _. revoke_all_closes stored.client_id (upsert (updated patch stored) cs))
      by_change false e =
          Leads-bind _ _
            (upsert_covered (updated patch stored) cs (λ d found.
              let same : stored ≡ d = (ground (arith, (sym named ∙ found))) in
              subst (Covers (updated patch stored)) same (updated-Covers patch stored e)))
            (λ _. Leads-return (λ w b. b))

  update_found-Bounded :
      (actor : AuthContext) (patch : ClientUpdateInput) (stored : StoredAuthClient)
      → get_by_client_id stored.client_id cs ≡ some stored
      → Leads
          (Bounded cs)
          AllBounded
          (update_found host config actor patch stored)
          (λ _ w. AllBounded w)
  unfolding update_found
  update_found-Bounded actor patch stored named =
      Leads-bind _ _ (begins cs host config (Keeps-demand _ _)) (λ _.
        Leads-bind _ _ (begins cs host config (Keeps-demand _ _)) (λ _.
          Leads-bind _ _ (replace_client-Bounded patch stored named) (λ _.
            ends (upsert (updated patch stored) cs) host config
              (search (keeps_rules, record_event-Bounded)))))

  pub update_client-Bounded :
      (actor : AuthContext) (client_id : String) (patch : ClientUpdateInput)
      → Leads
          (Bounded cs)
          AllBounded
          (update_client host config actor client_id patch)
          (λ _ w. AllBounded w)
  unfolding update_client
  update_client-Bounded actor client_id patch =
      Leads-bind _ _ (learns cs host config (get_client-Yields cs client_id))
        (λ found. Leads-given (by_found found))
    where
      by_found :
          (found : Option StoredAuthClient)
          → get_by_client_id client_id cs ≡ found
          → Leads
              (Bounded cs)
              AllBounded
              (let m : Exec World (Option AuthClientRecord) = (elim found [
                | none ↦ return none
                | some stored ↦ update_found host config actor patch stored
              ]) in
                m)
              (λ _ w. AllBounded w)
      by_found none named = ends cs host config (Keeps-return none)
      by_found (some stored) named =
          update_found-Bounded actor patch stored (own_name cs client_id named)

  secret_or_new-Bounded :
      (given : Option String) → Keeps (Bounded cs) (secret_or_new host config given)
  unfolding secret_or_new
  secret_or_new-Bounded none = search (keeps_rules, random_bytes-Bounded)
  secret_or_new-Bounded (some secret) = Keeps-return secret

  hash_secret-Bounded : (secret : String) → Keeps (Bounded cs) (hash_secret host config secret)
  unfolding hash_secret
  hash_secret-Bounded secret = search (keeps_rules, random_bytes-Bounded)

  new_secret-Bounded :
      (input : ClientCreateInput) → Keeps (Bounded cs) (new_secret host config input)
  unfolding new_secret
  new_secret-Bounded input =
      search (keeps_rules, secret_or_new-Bounded, hash_secret-Bounded) depth 10

  rotate_found-Bounded :
      (actor : AuthContext) (given : Option String) (stored : StoredAuthClient)
      → get_by_client_id stored.client_id cs ≡ some stored
      → Leads
          (Bounded cs)
          AllBounded
          (rotate_found host config actor given stored)
          (λ _ w. AllBounded w)
  unfolding rotate_found
  rotate_found-Bounded actor given stored named =
      Leads-bind _ _ (begins cs host config (Keeps-demand _ _)) (λ _.
        Leads-bind _ _ (begins cs host config (Keeps-demand _ _)) (λ _.
          Leads-bind _ _ (begins cs host config (secret_or_new-Bounded given)) (λ secret.
            Leads-bind _ _ (begins cs host config (hash_secret-Bounded secret)) (λ hashed.
              let c : StoredAuthClient = (record stored {
                secret_hash = some hashed.1;
                secret_salt = some hashed.0;
              }) in
              Leads-bind _ _ (upsert_covered c cs (covered c refl)) (λ _.
                ends (upsert c cs) host config (
                  search (keeps_rules, Keeps-demand, record_event-Bounded, revoke_all-Bounded) depth
                    10))))))
    where
      covered :
          (c : StoredAuthClient)
          → c.client ≡ stored.client
          → (d : StoredAuthClient) → get_by_client_id c.client_id cs ≡ some d
          → Covers c d
      covered c e d found =
          let same : stored ≡ d =
            (ground (
              arith,
              (sym named
                  ∙ sym (ap (λ (r : AuthClientRecord). get_by_client_id r.client_id cs) e)
                  ∙ found),
            )) in
          record {
            tenant =
                ap (λ (r : AuthClientRecord). r.tenant_id) e
                ∙ ap (λ (x : StoredAuthClient). x.tenant_id) same;
            scopes =
                ap (λ (r : AuthClientRecord). r.allowed_scopes) e
                ∙ ap (λ (x : StoredAuthClient). x.allowed_scopes) same;
            roles =
                ap (λ (r : AuthClientRecord). r.roles) e
                ∙ ap (λ (x : StoredAuthClient). x.roles) same;
          }

  pub rotate_client_secret-Bounded :
      (actor : AuthContext) (client_id : String) (given : Option String)
      → Leads
          (Bounded cs)
          AllBounded
          (rotate_client_secret host config actor client_id given)
          (λ _ w. AllBounded w)
  unfolding rotate_client_secret
  rotate_client_secret-Bounded actor client_id given =
      Leads-bind _ _ (learns cs host config (get_client-Yields cs client_id))
        (λ found. Leads-given (by_found found))
    where
      by_found :
          (found : Option StoredAuthClient)
          → get_by_client_id client_id cs ≡ found
          → Leads
              (Bounded cs)
              AllBounded
              (let m : Exec World (Option ClientSecretOutput) = (elim found [
                | none ↦ return none
                | some stored ↦ rotate_found host config actor given stored
              ]) in
                m)
              (λ _ w. AllBounded w)
      by_found none named = ends cs host config (Keeps-return none)
      by_found (some stored) named =
          rotate_found-Bounded actor given stored (own_name cs client_id named)

  add_client-Bounded :
      (actor : AuthContext) (input : ClientCreateInput)
      → get_by_client_id input.client_id cs ≡ none
      → Leads (Bounded cs) AllBounded (add_client host config actor input) (λ _ w. AllBounded w)
  unfolding add_client
  add_client-Bounded actor input unused =
      Leads-bind _ _ (begins cs host config (new_secret-Bounded input)) (λ secret.
        let c : StoredAuthClient = (record {
          client = input.record_of;
          secret_hash = secret.hash;
          secret_salt = secret.salt;
        }) in
        Leads-bind _ _ (upsert_covered c cs (λ d taken. absurd (cc (sym unused ∙ taken)))) (λ _.
          ends (upsert c cs) host config
            (search (keeps_rules, Keeps-demand, record_event-Bounded))))

  unused_of :
      (id : String) (found : Option StoredAuthClient)
      → get_by_client_id id cs ≡ found
      → not (is_some found) ≡ true
      → get_by_client_id id cs ≡ none
  unused_of id none e h = e
  unused_of id (some x) e h = cc

  pub create_client-Bounded :
      (actor : AuthContext) (input : ClientCreateInput)
      → Leads (Bounded cs) AllBounded (create_client host config actor input) (λ _ w. AllBounded w)
  unfolding create_client
  create_client-Bounded actor input =
      Leads-bind _ _ (learns cs host config (get_client-Yields cs input.client_id)) (λ found.
        Leads-given (λ named. Leads-bind _ _ (learns cs host config (Yields-demand _ _)) (λ _.
          Leads-given (λ new. Leads-bind _ _ (begins cs host config (Keeps-demand _ _)) (λ _.
            Leads-bind _ _ (begins cs host config (Keeps-get_tenant input.tenant_id)) (λ tenant.
              Leads-bind _ _ (begins cs host config (Keeps-existing _ _)) (λ known.
                add_client-Bounded actor input (unused_of input.client_id found named new))))))))
