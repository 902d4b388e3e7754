-- ===== src/Tenants/Disabled.antt =====
-- What `update` of src/services/tenant-service.ts does to the tokens of a tenant that it disables.
use keylore.Prelude.{
  ℕ, String, ◌≡◌, refl, sym, ◌∙◌, subst, false, Option, some, List, [], ◌∷◌, arith, Bool-cases,
  Option-cases, inl, inr, find, update_first, ◌==◌,
}
use keylore.Exec.{ok, demand}
use keylore.Domain.{AuthContext}
use keylore.Domain.Config.{KeyLoreConfig}
use keylore.Domain.Auth.{TenantStatus, TenantRecord}
use keylore.World.{World}
use keylore.World.Host.{Host}
use keylore.Audit.{record_event}
use keylore.Auth.Scopes.{is_open}
use keylore.Auth.Tables.{tenant_by_id}
use keylore.Auth.Bearer.{authenticate_bearer_token}
use keylore.Auth.Presentation.{authenticate_bearer_token-ok_iff}
use keylore.Tenants as Tenants
use keylore.Tenants.{TenantUpdateInput, TenantSummary}

module _ (now : ℕ) (id : String) (patch : TenantUpdateInput) where
  -- The row that is found by its key after the change.
  find-patched :
      (ts : List TenantRecord) {t : TenantRecord}
      → find (λ (u : TenantRecord). u.tenant_id == id) ts ≡ some t
      → find
          (λ (u : TenantRecord). u.tenant_id == id)
          (update_first (λ (u : TenantRecord). u.tenant_id == id) (Tenants.patched now patch) ts)
        ≡ some (Tenants.patched now patch t)
  unfolding Tenants.patched
  find-patched [] h = cc
  find-patched (u ∷ us) h = elim (Bool-cases (u.tenant_id == id)) [
    | inl e ↦ rw (e, e) (ground (arith, (rw e at h)))
    | inr e ↦ rw (e, e) (find-patched us (rw e at h))
  ]

module _ (host : Host) (config : KeyLoreConfig) (actor : AuthContext) (id : String)
    (patch : TenantUpdateInput) (w : World) where
  patched-closed :
      patch.status ≡ some TenantStatus.disabled
      → (u : TenantRecord) → is_open (Tenants.patched w.now patch u).status ≡ false
  unfolding Tenants.patched
  patched-closed off u = rw off refl

  -- The tenant is found disabled afterwards.
  update-found :
      {summary : TenantSummary}
      → patch.status ≡ some TenantStatus.disabled
      → (Tenants.update host config actor id patch w).0 ≡ ok (some summary)
      → (t : TenantRecord)
      → tenant_by_id id (Tenants.update host config actor id patch w).1.auth.tenants ≡ some t
      → is_open t.status ≡ false
  unfolding Tenants.update Tenants.update_found Tenants.change_row Tenants.update_row
      Tenants.require_tenant_admin demand record_event tenant_by_id
  update-found off h t e = elim (Bool-cases (Tenants.other_tenant actor id)) [
    | inl o ↦ absurd (cc (rw o at h))
    | inr o ↦ elim (Option-cases (tenant_by_id id w.auth.tenants)) [
      | inl n ↦ absurd (ground (arith, (rw (o, n) at h)))
      | inr (u, n) ↦
          let found : some (Tenants.patched w.now patch u) ≡ some t =
            (sym (find-patched w.now id patch w.auth.tenants n) ∙ (rw (o, n) at e)) in
          let closed = patched-closed off u in ground (arith, closed, found)
    ]
  ]

  -- When `update` has returned the tenant for a patch that disables it, no bearer text is accepted as a
  -- context of that tenant.
  pub disabled_locks_out :
      {summary : TenantSummary}
      → patch.status ≡ some TenantStatus.disabled
      → (Tenants.update host config actor id patch w).0 ≡ ok (some summary)
      → (token : String) (resource : Option String) (context : AuthContext)
      → context.tenant_id ≡ some id
      → ¬ (
          (authenticate_bearer_token host token resource
            (Tenants.update host config actor id patch w).1).0
          ≡ ok context)
  disabled_locks_out off h token resource context same accepted =
      let after = (Tenants.update host config actor id patch w).1 in
      let (t, live, e) =
        (authenticate_bearer_token-ok_iff host after token resource context).0 accepted in
      let mine : t.tenant_id ≡ id = ground (arith, e, same) in
      let known : tenant_by_id id after.auth.tenants ≡ some live.tenant =
        (subst (λ n. tenant_by_id n after.auth.tenants ≡ some live.tenant) mine live.known) in
      let closed = update-found off h live.tenant known in absurd (cc (live.tenant_open, closed))
