-- ===== src/Auth/Presentation.antt =====
-- When `authenticateBearerToken` of src/services/auth-service.ts accepts a token.
use keylore.Prelude.{
  String, ◌≡◌, refl, sym, ap, ◌∙◌, true, false, Option, some, arith, leb, Bool-cases, Option-cases,
  inl, inr, ◌↔◌,
}
use keylore.Exec.{ok, demand, existing}
use keylore.Domain.{AuthContext}
use keylore.Domain.Auth.{AccessToken, TenantRecord}
use keylore.World.{World}
use keylore.World.Host.{Host, current_time}
use keylore.Auth.Scopes.{is_active, is_open, resources_differ}
use keylore.Auth.Tables.{tenant_by_id}
use keylore.Auth.Tables.Access
use keylore.Auth.Statements.{get_access_token, get_tenant, require_active_tenant}
use keylore.Auth.Bearer.{context_of, check_bearer, touch_token, authenticate_bearer_token}

-- The text stands for a stored token that is active and not expired, of a tenant that is active, and
-- bound to no other resource.
pub record IsLive (host : Host) (w : World) (token : String) (resource : Option String)
    (t : AccessToken) : Type 0 where
  pub tenant : TenantRecord
  pub stored : Access.get_by_hash (host.sha256_hex token) w.auth.access_tokens ≡ some t
  pub active : is_active t.status ≡ true
  pub known : tenant_by_id t.tenant_id w.auth.tenants ≡ some tenant
  pub tenant_open : is_open tenant.status ≡ true
  pub unexpired : leb t.expires_at w.now ≡ false
  pub fits : resources_differ t.resource resource ≡ false

module _ (host : Host) (w : World) (token : String) (resource : Option String) where
  accepted_of_live :
      (t : AccessToken)
      → IsLive host w token resource t
      → (authenticate_bearer_token host token resource w).0 ≡ ok (context_of t.grant)
  unfolding authenticate_bearer_token check_bearer touch_token get_access_token get_tenant
      require_active_tenant current_time demand existing
  accepted_of_live t l = rw (l.stored, l.active, l.known, l.tenant_open, l.unexpired, l.fits) refl

  abbrev pub Accepts : AuthContext → Type 0
  Accepts context =
      (t : AccessToken) × (IsLive host w token resource t) × (context ≡ context_of t.grant)

  live_of_accepted :
      {context : AuthContext}
      → (authenticate_bearer_token host token resource w).0 ≡ ok context
      → Accepts context
  unfolding authenticate_bearer_token check_bearer touch_token get_access_token get_tenant
      require_active_tenant current_time demand existing
  live_of_accepted {context} h =
      elim (Option-cases (Access.get_by_hash (host.sha256_hex token) w.auth.access_tokens)) [
        | inl e ↦ absurd (cc (rw e at h))
        | inr (t, e) ↦ elim (Bool-cases (is_active t.status)) [
          | inr a ↦ absurd (cc (rw (e, a) at h))
          | inl a ↦ elim (Option-cases (tenant_by_id t.tenant_id w.auth.tenants)) [
            | inl n ↦ absurd (cc (rw (e, a, n) at h))
            | inr (tenant, n) ↦ elim (Bool-cases (is_open tenant.status)) [
              | inr o ↦ absurd (cc (rw (e, a, n, o) at h))
              | inl o ↦ elim (Bool-cases (leb t.expires_at w.now)) [
                | inl x ↦ absurd (cc (rw (e, a, n, o, x) at h))
                | inr x ↦ elim (Bool-cases (resources_differ t.resource resource)) [
                  | inl d ↦ absurd (cc (rw (e, a, n, o, x, d) at h))
                  | inr d ↦ (
                    t,
                    record {
                      tenant = tenant;
                      stored = e;
                      active = a;
                      known = n;
                      tenant_open = o;
                      unexpired = x;
                      fits = d;
                    },
                    ground (arith, (rw (e, a, n, o, x, d) at h)),
                  )
                ]
              ]
            ]
          ]
        ]
      ]

  -- The bearer text is accepted as `context` exactly when it is the token of a stored row that is
  -- active and not expired, whose tenant is known and active, and that is bound to no resource other
  -- than the requested one; `context` has then the row's subject, client, tenant, roles and scopes.
  pub authenticate_bearer_token-ok_iff :
      (context : AuthContext)
      → ((authenticate_bearer_token host token resource w).0 ≡ ok context) ↔ Accepts context
  authenticate_bearer_token-ok_iff context =
      (live_of_accepted, (λ (t, l, same). accepted_of_live t l ∙ ap ok (sym same)))
