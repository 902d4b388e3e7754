-- ===== src/Auth/Redemption.antt =====
-- When `issueToken` of src/services/auth-service.ts gives a token for an authorization code.
use keylore.Prelude.{
  ℕ, String, ◌≡◌, refl, sym, ap, ◌∙◌, subst, Bool, true, false, Option, none, some, List, [], ◌∷◌,
  arith, leb, Bool-cases, inl, inr, or_else, eq_iff, ◌==◌, find, find-eq-some, Memᴰ, update_first,
}
use keylore.Exec.{Result, ok, thrown, Exec}
use keylore.Exec.Keeps.{Keeps}
use keylore.Exec.Yields.{
  Holds, Leads, Leads-bind, Leads-given, Leads-return, Leads-Keeps, Leads-Yields, Yields,
  Yields-existing, Yields-demand,
}
use keylore.Domain.Config.{KeyLoreConfig}
use keylore.Domain.Auth.{
  GrantType, authorization_code, StoredAuthClient, AuthorizationCode, TokenIssueInput,
  TokenIssueOutput, ClientAssertion,
}
use keylore.World.{World}
use keylore.World.Host.{Host, current_time}
use keylore.Auth.Scopes.{is_usable, is_text, is_enabled}
use keylore.Auth.Tables.{get_by_client_id}
use keylore.Auth.Tables.Codes
use keylore.Auth.Statements.{get_client, register_assertion}
use keylore.Auth.Assertion.Frame.{Keeps-demand, authenticate-Keeps, Keeps-require_active_tenant}
use keylore.Auth.Issue.{enabled}
use keylore.Auth.Exchange.{consume_code, redeem_code, by_authorization_code, exchange, issue_token}
use keylore.Auth.Within.{WasUsable, consume-WasUsable}

-- The stored code that a request redeems: it is the text of the request, active and not expired, was
-- given to the client for the redirect URI of the request, and its challenge is the digest of the
-- request's verifier.
pub record IsRedemption (host : Host) (w : World) (input : TokenIssueInput) : Type 0 where
  pub row : AuthorizationCode
  pub stored : Memᴰ row w.auth.codes
  pub named : row.code_hash ≡ host.sha256_hex (or_else input.code "")
  pub usable : is_usable row.status ≡ true
  pub unexpired : leb row.expires_at w.now ≡ false
  pub client : row.client_id ≡ input.client_id
  pub redirect : input.redirect_uri ≡ some row.redirect_uri
  pub proof_key : row.code_challenge ≡ host.sha256_base64url (or_else input.code_verifier "")

is_text_sound : (s : String) (o : Option String) → is_text s o ≡ true → o ≡ some s
is_text_sound s none h = cc
is_text_sound s (some t) h = ap some (sym ((eq_iff s t).0 h))

module _ (host : Host) (config : KeyLoreConfig) (w : World) (input : TokenIssueInput) where
  -- The codes and the time are those of `w`.
  record IsSame (v : World) : Type 0 where
    pub codes : v.auth.codes ≡ w.auth.codes
    pub now : v.now ≡ w.now

  abbrev Any : World → Type 0
  Any v = Unit

  keeps : {A : Type 0} {m : Exec World A} → Keeps IsSame m → Leads IsSame Any m (λ _ v. IsSame v)
  keeps k = Leads-Keeps IsSame Any (λ v h. tt) k

  register_assertion-IsSame : (a : ClientAssertion) → Keeps IsSame (register_assertion a)
  unfolding register_assertion
  register_assertion-IsSame a = record { at = λ v h. record { codes = h.codes; now = h.now } }

  -- What follows a fact that is established does not undo it.
  fact-Holds : (F : Type 0) {A : Type 0} (r : Result A × World) → F → Holds Any (λ (a : A) v. F) r
  fact-Holds F (ok a, v) f = f
  fact-Holds F (thrown e, v) f = tt

  established : {A : Type 0} {F : Type 0} (m : Exec World A) → Leads (λ v. F) Any m (λ _ v. F)
  established {F = F} m = record { at = λ v f. fact-Holds F (m v) f }

  -- What consuming the code of the request shows.
  abbrev Consumed : Option AuthorizationCode → Type 0
  Consumed consumed =
      (c : AuthorizationCode)
      → consumed ≡ some c
      → WasUsable w.now (host.sha256_hex (or_else input.code "")) w.auth.codes c

  current_time-Leads : Leads IsSame Any current_time (λ now v. IsSame v × (now ≡ w.now))
  unfolding current_time
  current_time-Leads = record { at = λ v h. (h, h.now) }

  consume_code-Leads :
      (now : ℕ)
      → now ≡ w.now
      → Leads IsSame Any
          (consume_code host config now (host.sha256_hex (or_else input.code "")))
          (λ consumed v. Unit × Consumed consumed)
  unfolding consume_code
  consume_code-Leads now e = record {
    at = λ v h. (
      tt,
      λ c taken.
          subst (λ n. WasUsable n (host.sha256_hex (or_else input.code "")) w.auth.codes c) e
            (subst (λ table. WasUsable now (host.sha256_hex (or_else input.code "")) table c)
              h.codes
              (consume-WasUsable now (host.sha256_hex (or_else input.code "")) v.auth.codes taken)),
    );
  }

  any :
      {A : Type 0} {R : A → Type 0} {m : Exec World A}
      → Yields Any m R
      → Leads Any Any m (λ a v. Any v × R a)
  any y = Leads-Yields Any Any (λ v h. tt) y

  redeemed :
      (client : StoredAuthClient) (c : AuthorizationCode)
      → client.client_id ≡ input.client_id
      → WasUsable w.now (host.sha256_hex (or_else input.code "")) w.auth.codes c
      → (c.client_id == client.client_id) ≡ true
      → is_text c.redirect_uri input.redirect_uri ≡ true
      → (c.code_challenge == host.sha256_base64url (or_else input.code_verifier "")) ≡ true
      → IsRedemption host w input
  redeemed client c own u same redirect challenge = record {
    row = u.row;
    stored = (find-eq-some _ w.auth.codes u.found).0;
    named = (eq_iff u.row.code_hash _).0 (find-eq-some _ w.auth.codes u.found).1;
    usable = u.usable;
    unexpired = u.fresh;
    client =
        sym (ap (λ (d : AuthorizationCode). d.client_id) u.taken)
        ∙ (eq_iff c.client_id client.client_id).0 same
        ∙ own;
    redirect =
        is_text_sound c.redirect_uri input.redirect_uri redirect
        ∙ ap (λ (d : AuthorizationCode). some d.redirect_uri) u.taken;
    proof_key =
        sym (ap (λ (d : AuthorizationCode). d.code_challenge) u.taken)
        ∙ (eq_iff c.code_challenge _).0 challenge;
  }

  redeem_code-IsRedemption :
      (client : StoredAuthClient)
      → client.client_id ≡ input.client_id
      → Leads IsSame Any (redeem_code host config client input) (λ _ v. IsRedemption host w input)
  unfolding redeem_code
  redeem_code-IsRedemption client own = Leads-bind _ _ current_time-Leads (λ now. Leads-given (λ e.
      Leads-bind _ _ (consume_code-Leads now e) (λ consumed. Leads-given (λ k.
        Leads-bind _ _ (any (Yields-existing consumed _)) (λ c. Leads-given (λ found.
          Leads-bind _ _ (any (Yields-demand (c.client_id == client.client_id) _)) (λ _.
            Leads-given (λ same. Leads-bind _ _ (any (Yields-demand _ _)) (λ _.
              Leads-given (λ redirect. Leads-bind _ _ (any (Yields-demand _ _)) (λ _.
                Leads-given (λ challenge.
                  Leads-return
                    (λ v h. redeemed client c own (k c found) same redirect challenge)))))))))))))

  by_authorization_code-IsRedemption :
      (client : StoredAuthClient)
      → client.client_id ≡ input.client_id
      → Leads IsSame Any
          (by_authorization_code host config client input)
          (λ _ v. IsRedemption host w input)
  unfolding by_authorization_code
  by_authorization_code-IsRedemption client own =
      Leads-bind _ _
        (keeps (authenticate-Keeps IsSame register_assertion-IsSame host config client input))
        (λ _.
          Leads-bind _ _ (keeps (Keeps-demand _ _))
            (λ _. Leads-bind _ _ (redeem_code-IsRedemption client own) (λ code. established _)))

  get_client-Leads : Leads IsSame Any (get_client input.client_id) (λ stored v.
      IsSame v × ((c : StoredAuthClient) → stored ≡ some c → c.client_id ≡ input.client_id))
  unfolding get_client get_by_client_id
  get_client-Leads = record {
    at = λ v h. (
      h,
      (λ c found. (eq_iff c.client_id input.client_id).0 (find-eq-some _ v.auth.clients found).1),
    );
  }

  enabled_same :
      (stored : Option StoredAuthClient) {c : StoredAuthClient}
      → enabled stored ≡ some c
      → stored ≡ some c
  enabled_same none h = cc
  enabled_same (some d) h = elim (Bool-cases (is_enabled d.status)) [
    | inl e ↦ rw e at h
    | inr e ↦ absurd (cc (rw e at h))
  ]

  exchange-IsRedemption :
      (grant_type : GrantType) (client : StoredAuthClient)
      → grant_type ≡ authorization_code
      → client.client_id ≡ input.client_id
      → Leads IsSame Any
          (exchange host config grant_type client input)
          (λ _ v. IsRedemption host w input)
  unfolding exchange
  exchange-IsRedemption grant_type client e own =
      subst
        (λ g.
          Leads IsSame Any (exchange host config g client input) (λ _ v. IsRedemption host w input))
        (sym e) (by_authorization_code-IsRedemption client own)

  issue_token-Leads :
      input.grant_type ≡ authorization_code
      → Leads IsSame Any (issue_token host config input) (λ _ v. IsRedemption host w input)
  unfolding issue_token
  issue_token-Leads e = Leads-bind _ _ get_client-Leads (λ stored. Leads-given (λ k.
      Leads-bind _ _ (Leads-Yields IsSame Any (λ v h. tt) (Yields-existing (enabled stored) _))
        (λ client. Leads-given (λ found.
          Leads-bind _ _ (keeps (Keeps-require_active_tenant client.tenant_id)) (λ _.
            exchange-IsRedemption input.grant_type client e
              (k client (enabled_same stored found)))))))

  of_returned :
      {A F : Type 0} {a : A} (r : Result A × World) → Holds Any (λ (b : A) v. F) r → r.0 ≡ ok a → F
  of_returned (ok b, v) h e = h
  of_returned (thrown m, v) h e = cc

  -- A token is given for an authorization code only if the code is stored, active and not expired, was
  -- given to the client of the request for the redirect URI of the request, and its challenge is the
  -- SHA-256 digest of the request's code verifier.
  pub issue_token-IsRedemption :
      {out : TokenIssueOutput}
      → input.grant_type ≡ authorization_code
      → (issue_token host config input w).0 ≡ ok out
      → IsRedemption host w input
  issue_token-IsRedemption e h =
      of_returned (issue_token host config input w)
        ((issue_token-Leads e).at w (record { codes = refl; now = refl })) h

-- The row of a key after it was changed.
find-update_first :
    (p : AuthorizationCode → Bool) (f : AuthorizationCode → AuthorizationCode)
    (table : List AuthorizationCode) {row : AuthorizationCode}
    → ((c : AuthorizationCode) → p (f c) ≡ p c)
    → find p table ≡ some row
    → find p (update_first p f table) ≡ some (f row)
find-update_first p f [] k h = cc
find-update_first p f (c ∷ table) {row} k h = elim (Bool-cases (p c)) [
  | inl e ↦
      let same : c ≡ row = (ground (arith, (rw e at h))) in
      rw (e, k c, e) (ap (λ d. some (f d)) same)
  | inr e ↦ rw (e, e) (find-update_first p f table k (rw e at h))
]

-- A code that was consumed is not consumed again, at whatever time.
pub consume_by_hash-once :
    (now later : ℕ) (code_hash : String) (table : List AuthorizationCode) {c : AuthorizationCode}
    → (Codes.consume_by_hash now code_hash table).0 ≡ some c
    → (Codes.consume_by_hash later code_hash (Codes.consume_by_hash now code_hash table).1).0 ≡ none
unfolding Codes.consume_by_hash
consume_by_hash-once now later code_hash table h =
    let u : WasUsable now code_hash table _ = (consume-WasUsable now code_hash table h) in
    rw
      (
        Codes.consume_by_hash,
        u.found,
        u.usable,
        u.fresh,
        find-update_first (λ (d : AuthorizationCode). d.code_hash == code_hash) (Codes.consume now)
            table (λ d. refl) u.found,
      )
      refl
