-- ===== src/BreakGlass/Grants.antt =====
-- What `verifyActive` of src/services/break-glass-service.ts vouches for.
use keylore.Prelude.{
  ℕ, ◌<◌, String, ◌≡◌, sym, ap, ◌∙◌, true, Option, none, some, List, arith, ◌==◌, eq_iff,
  Bool-cases, Option-cases, inl, inr, Memᴰ, find-eq-some, truthy, or_else,
}
use keylore.Domain.{AuthContext}
use keylore.Domain.Access.{AccessRequestInput, tenant_allowed}
use keylore.Domain.Reviews.{BreakGlassStatus, BreakGlassRequest}
use keylore.World.Host.{Host}
use keylore.Fingerprint.{access_fingerprint}
use keylore.Domain.Config.{KeyLoreConfig}
use keylore.BreakGlass.Table.{is_active, get_by_id}
use keylore.BreakGlass.Service.{is_grant, find_grant}

pub record IsActiveGrant (host : Host) (context : AuthContext) (input : AccessRequestInput)
    (now : ℕ) (table : List BreakGlassRequest) (a : BreakGlassRequest) : Type 0 where
  pub listed : Memᴰ a table
  pub named : input.break_glass_id ≡ some a.id
  pub active : a.status ≡ BreakGlassStatus.active
  pub visible : tenant_allowed context.tenant_id a.tenant_id ≡ true
  pub unexpired : now < a.expires_at
  pub matching : a.fingerprint ≡ access_fingerprint host context input

active_of : (s : BreakGlassStatus) → is_active s ≡ true → s ≡ BreakGlassStatus.active
active_of s h = ground arith

get_by_id-eq-some :
    (id : String) (table : List BreakGlassRequest) {a : BreakGlassRequest}
    → get_by_id id table ≡ some a
    → Memᴰ a table × (a.id ≡ id)
unfolding get_by_id
get_by_id-eq-some id table {a} h =
    let (m, t) = find-eq-some (λ (r : BreakGlassRequest). r.id == id) table h in
    (m, (eq_iff a.id id).0 t)

named_of : (o : Option String) (id : String) → truthy o ≡ true → id ≡ or_else o "" → o ≡ some id
named_of none id h e = cc
named_of (some s) id h e = ap some (sym e)

module _ (host : Host) (config : KeyLoreConfig) (context : AuthContext) (input : AccessRequestInput)
    (now : ℕ) (table : List BreakGlassRequest) {a : BreakGlassRequest} where
  -- A grant that is found is the row that the request names; it is active, not expired, of a tenant
  -- that the caller may see, and its fingerprint is that of this very request.
  pub find_grant-IsActiveGrant :
      find_grant host config context input now table ≡ some a
      → IsActiveGrant host context input now table a
  unfolding find_grant
  find_grant-IsActiveGrant h = elim (Bool-cases (truthy input.break_glass_id)) [
    | inr e ↦ absurd (ground arith)
    | inl e ↦ elim (Option-cases (get_by_id (or_else input.break_glass_id "") table)) [
      | inl f ↦ absurd (ground arith)
      | inr (b, f) ↦ elim (Bool-cases (is_grant host config context input now b)) [
        | inr g ↦ absurd (ground arith)
        | inl g ↦
            let same : b ≡ a = (ground arith) in
            let found = (f ∙ ap some same) in
            let grant = (ap (is_grant host config context input now) (sym same) ∙ g) in
            let (m, i) = get_by_id-eq-some (or_else input.break_glass_id "") table found in
            record {
              listed = m;
              named = named_of input.break_glass_id a.id e i;
              active = active_of a.status (ground (arith, grant));
              visible = ground (arith, grant);
              unexpired = ground (arith, grant);
              matching =
                  ground
                    (arith, grant, eq_iff a.fingerprint (access_fingerprint host context input));
            }
      ]
    ]
  ]
