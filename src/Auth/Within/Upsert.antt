-- ===== src/Auth/Within/Upsert.antt =====
-- Clients are written and what was issued to them is revoked, src/services/auth-service.ts: every
-- active token and code still grants what its client has.
use keylore.Prelude.{
  String, ◌≡◌, refl, sym, ap, ◌∙◌, subst, true, false, some, List, [], ◌∷◌, ◌++◌, arith, Bool-cases,
  inl, inr, All, All-map_to, All-weaken, includes, ◌==◌, eq_iff, eq_refl, any, find, update_first,
  ◌&&◌, any-true_of_find,
}
use keylore.Exec.Keeps.{Keeps}
use keylore.Exec.Yields.{Leads}
use keylore.Domain.{includes_role}
use keylore.Domain.Auth.{StoredAuthClient, Grant, AccessToken, RefreshToken, AuthorizationCode}
use keylore.World.{World}
use keylore.Auth.Scopes.{is_active, is_usable}
use keylore.Auth.Tables.{get_by_client_id, upsert}
use keylore.Auth.Tables.Access
use keylore.Auth.Tables.Refresh
use keylore.Auth.Tables.Codes
use keylore.Auth.Statements.{upsert_client}
use keylore.Auth.Clients.{revoke_all}
use keylore.Auth.Within.{
  IsWithin, AccessWithin, RefreshWithin, CodeWithin, access_revoke_keeps, refresh_revoke_keeps,
  code_revoke_keeps,
}
use keylore.Auth.Within.Issue.{Bounded}

-- Every active token and code grants what its client has, for the clients of the state.
unfoldable pub AllBounded : World → Type 0
AllBounded w = Bounded w.auth.clients w

pub AllBounded-of : (cs : List StoredAuthClient) (w : World) → Bounded cs w → AllBounded w
unfolding AllBounded
AllBounded-of cs w b = subst (λ table. Bounded table w) (sym b.clients) b

module _ (c : StoredAuthClient) where
  find-update_other :
      (id : String) (cs : List StoredAuthClient) {x : StoredAuthClient}
      → (c.client_id == id) ≡ false
      → find (λ (d : StoredAuthClient). d.client_id == id) cs ≡ some x
      → find
          (λ (d : StoredAuthClient). d.client_id == id)
          (update_first (λ (d : StoredAuthClient). d.client_id == c.client_id) (λ _. c) cs)
        ≡ some x
  find-update_other id [] other h = h
  find-update_other id (d ∷ cs) other h = elim (Bool-cases (d.client_id == c.client_id)) [
    | inr e ↦ elim (Bool-cases (d.client_id == id)) [
      | inl f ↦ rw (e, f) (rw f at h)
      | inr f ↦ rw (e, f) (find-update_other id cs other (rw f at h))
    ]
    | inl e ↦
        let same : d.client_id ≡ c.client_id = ((eq_iff d.client_id c.client_id).0 e) in
        rw (e, other) (rw (same, other) at h)
  ]

  find-update_own :
      (cs : List StoredAuthClient)
      → any (λ (d : StoredAuthClient). d.client_id == c.client_id) cs ≡ true
      → find
          (λ (d : StoredAuthClient). d.client_id == c.client_id)
          (update_first (λ (d : StoredAuthClient). d.client_id == c.client_id) (λ _. c) cs)
        ≡ some c
  find-update_own [] h = cc
  find-update_own (d ∷ cs) h = elim (Bool-cases (d.client_id == c.client_id)) [
    | inl e ↦ rw (e, eq_refl c.client_id) refl
    | inr e ↦ rw (e, e) (find-update_own cs (rw e at h))
  ]

  find-append :
      (id : String) (cs : List StoredAuthClient) {x : StoredAuthClient}
      → find (λ (d : StoredAuthClient). d.client_id == id) cs ≡ some x
      → find (λ (d : StoredAuthClient). d.client_id == id) (cs ++ c ∷ []) ≡ some x
  find-append id [] h = cc
  find-append id (d ∷ cs) h = elim (Bool-cases (d.client_id == id)) [
    | inl e ↦ rw e (rw e at h)
    | inr e ↦ rw e (find-append id cs (rw e at h))
  ]

  -- The other clients stay as they were.
  get-upsert_other :
      (id : String) (cs : List StoredAuthClient) {x : StoredAuthClient}
      → (c.client_id == id) ≡ false
      → get_by_client_id id cs ≡ some x
      → get_by_client_id id (upsert c cs) ≡ some x
  unfolding get_by_client_id upsert
  get-upsert_other id cs other h =
      elim (Bool-cases (any (λ (d : StoredAuthClient). d.client_id == c.client_id) cs)) [
        | inl e ↦ rw e (find-update_other id cs other h)
        | inr e ↦ rw e (find-append id cs h)
      ]

  -- A known client is replaced.
  get-upsert_own :
      (cs : List StoredAuthClient) {x : StoredAuthClient}
      → get_by_client_id c.client_id cs ≡ some x
      → get_by_client_id c.client_id (upsert c cs) ≡ some c
  unfolding get_by_client_id upsert
  get-upsert_own cs h =
      let known : any (λ (d : StoredAuthClient). d.client_id == c.client_id) cs ≡ true =
        (any-true_of_find (λ (d : StoredAuthClient). d.client_id == c.client_id) cs h) in
      rw known (find-update_own cs known)

  -- `c` is for the same tenant as the client that it takes the place of, with its scopes and roles.
  pub record Covers (d : StoredAuthClient) : Type 0 where
    pub tenant : c.tenant_id ≡ d.tenant_id
    pub scopes : c.allowed_scopes ≡ d.allowed_scopes
    pub roles : c.roles ≡ d.roles

  IsWithin-upsert_other :
      (cs : List StoredAuthClient) (g : Grant)
      → (c.client_id == g.client_id) ≡ false
      → IsWithin cs g
      → IsWithin (upsert c cs) g
  IsWithin-upsert_other cs g other w = record {
    client = w.client;
    named = get-upsert_other g.client_id cs other w.named;
    tenant = w.tenant;
    scopes = w.scopes;
    roles = w.roles;
  }

  IsWithin-upsert :
      (cs : List StoredAuthClient) (g : Grant)
      → ((d : StoredAuthClient) → get_by_client_id c.client_id cs ≡ some d → Covers d)
      → IsWithin cs g
      → IsWithin (upsert c cs) g
  IsWithin-upsert cs g covers w = elim (Bool-cases (c.client_id == g.client_id)) [
    | inr e ↦ IsWithin-upsert_other cs g e w
    | inl e ↦
        let same : c.client_id ≡ g.client_id = ((eq_iff c.client_id g.client_id).0 e) in
        let known : get_by_client_id c.client_id cs ≡ some w.client =
          (ap (λ id. get_by_client_id id cs) same ∙ w.named) in
        let k : Covers w.client = (covers w.client known) in
        record {
          client = c;
          named = ap (λ id. get_by_client_id id (upsert c cs)) (sym same) ∙ get-upsert_own cs known;
          tenant = w.tenant ∙ sym k.tenant;
          scopes = λ s h. ap (λ ss. includes ss s) k.scopes ∙ w.scopes s h;
          roles = λ r h. ap (λ rs. includes_role rs r) k.roles ∙ w.roles r h;
        }
  ]

-- As `Bounded`, but for the tokens and codes of one client.
pub record BoundedBut (id : String) (cs : List StoredAuthClient) (w : World) : Type 0 where
  pub clients : w.auth.clients ≡ cs
  pub access :
      All
        (λ (t : AccessToken). (t.client_id == id) ≡ false → AccessWithin cs t)
        w.auth.access_tokens
  pub refresh :
      All
        (λ (t : RefreshToken). (t.client_id == id) ≡ false → RefreshWithin cs t)
        w.auth.refresh_tokens
  pub codes :
      All (λ (c : AuthorizationCode). (c.client_id == id) ≡ false → CodeWithin cs c) w.auth.codes

other_name : (s t : String) → (t == s) ≡ false → (s == t) ≡ false
other_name s t h = ground (arith, eq_iff s t, eq_iff t s)

module _ (c : StoredAuthClient) (cs : List StoredAuthClient) where
  pub upsert_covered :
      ((d : StoredAuthClient) → get_by_client_id c.client_id cs ≡ some d → Covers c d)
      → {E : World → Type 0}
      → Leads (Bounded cs) E (upsert_client c) (λ _ w. Bounded (upsert c cs) w)
  unfolding upsert_client
  upsert_covered covers = record {
    at = λ w b. record {
      clients = ap (upsert c) b.clients;
      access =
          All-weaken (AccessWithin cs) (AccessWithin (upsert c cs)) _ b.access
            (λ t k a. IsWithin-upsert c cs t.grant covers (k a));
      refresh =
          All-weaken (RefreshWithin cs) (RefreshWithin (upsert c cs)) _ b.refresh
            (λ t k a. IsWithin-upsert c cs t.grant covers (k a));
      codes =
          All-weaken (CodeWithin cs) (CodeWithin (upsert c cs)) _ b.codes
            (λ d k a. IsWithin-upsert c cs d.grant covers (k a));
    };
  }

  pub upsert_any :
      {E : World → Type 0}
      → Leads (Bounded cs) E (upsert_client c) (λ _ w. BoundedBut c.client_id (upsert c cs) w)
  unfolding upsert_client
  upsert_any = record {
    at = λ w b. record {
      clients = ap (upsert c) b.clients;
      access = All-weaken (AccessWithin cs) _ _ b.access (λ t k other a.
          IsWithin-upsert_other c cs t.grant (other_name c.client_id t.client_id other) (k a));
      refresh = All-weaken (RefreshWithin cs) _ _ b.refresh (λ t k other a.
          IsWithin-upsert_other c cs t.grant (other_name c.client_id t.client_id other) (k a));
      codes = All-weaken (CodeWithin cs) _ _ b.codes (λ d k other a.
          IsWithin-upsert_other c cs d.grant (other_name c.client_id d.client_id other) (k a));
    };
  }

module _ (id : String) (cs : List StoredAuthClient) where
  access_revoked :
      (t : AccessToken)
      → ((t.client_id == id) ≡ false → AccessWithin cs t)
      → AccessWithin cs (Access.revoke_where (λ (u : AccessToken). u.client_id == id) t)
  access_revoked t k = elim (Bool-cases (t.client_id == id && is_active t.status)) [
    | inl e ↦ rw e (λ a. absurd (ground arith))
    | inr e ↦ rw e (λ a. k (ground arith) a)
  ]

  refresh_revoked :
      (t : RefreshToken)
      → ((t.client_id == id) ≡ false → RefreshWithin cs t)
      → RefreshWithin cs (Refresh.revoke_where (λ (u : RefreshToken). u.client_id == id) t)
  refresh_revoked t k = elim (Bool-cases (t.client_id == id && is_active t.status)) [
    | inl e ↦ rw e (λ a. absurd (ground arith))
    | inr e ↦ rw e (λ a. k (ground arith) a)
  ]

  code_revoked :
      (c : AuthorizationCode)
      → ((c.client_id == id) ≡ false → CodeWithin cs c)
      → CodeWithin cs (Codes.revoke_of id c)
  code_revoked c k = elim (Bool-cases (c.client_id == id && is_usable c.status)) [
    | inl e ↦ rw e (λ a. absurd (ground arith))
    | inr e ↦ rw e (λ a. k (ground arith) a)
  ]

  -- Once the rows of the one client are revoked, no exception is left.
  pub revoke_all_closes :
      {E : World → Type 0} → Leads (BoundedBut id cs) E (revoke_all id) (λ _ w. Bounded cs w)
  unfolding revoke_all Access.revoke_by_client_id Refresh.revoke_by_client_id
      Codes.revoke_by_client_id
  revoke_all_closes = record {
    at = λ w b. record {
      clients = b.clients;
      access = All-map_to _ (AccessWithin cs) _ w.auth.access_tokens b.access access_revoked;
      refresh = All-map_to _ (RefreshWithin cs) _ w.auth.refresh_tokens b.refresh refresh_revoked;
      codes = All-map_to _ (CodeWithin cs) _ w.auth.codes b.codes code_revoked;
    };
  }

  pub revoke_all-Bounded : Keeps (Bounded cs) (revoke_all id)
  unfolding revoke_all Access.revoke_by_client_id Refresh.revoke_by_client_id
      Codes.revoke_by_client_id
  revoke_all-Bounded = record {
    at = λ w b. record {
      clients = b.clients;
      access = access_revoke_keeps cs (λ t. t.client_id == id) w.auth.access_tokens b.access;
      refresh = refresh_revoke_keeps cs (λ t. t.client_id == id) w.auth.refresh_tokens b.refresh;
      codes = code_revoke_keeps cs id w.auth.codes b.codes;
    };
  }
