-- ===== src/Auth/Scopes/Granted.antt =====
-- What the scopes and roles that src/services/auth-service.ts grants are taken from.
use keylore.Prelude.{
  String, ◌≡◌, refl, sym, ◌∙◌, Bool, true, not, Option, List, [], ◌∷◌, ◌==◌, arith, eqb, eqb_iff,
  Bool-cases, inl, inr, filter, Memᴰ, includes, mem-of_includes, mem-of_filter, filter,
}
use keylore.Domain.{PrincipalRole, role_index, includes_role}
use keylore.Auth.Scopes.{unique_scopes, unique_roles, requested_or, granted_scopes}

mem-of_unique : (ss : List String) {s : String} → Memᴰ s (unique_scopes ss) → Memᴰ s ss
mem-of_unique [] m = m
mem-of_unique (t ∷ ss) (Memᴰ.head e) = Memᴰ.head e
mem-of_unique (t ∷ ss) (Memᴰ.tail m) =
    Memᴰ.tail (mem-of_unique ss (mem-of_filter (λ u. not (t == u)) (unique_scopes ss) m).0)

-- What is left of a list after a test and without repetitions passes the test.
pub test_of_granted :
    (p : String → Bool) (ss : List String) (s : String)
    → includes (unique_scopes (filter p ss)) s ≡ true
    → p s ≡ true
test_of_granted p ss s h =
    (mem-of_filter p ss
      (mem-of_unique (filter p ss) (mem-of_includes (unique_scopes (filter p ss)) s h))).1

pub granted_scopes-Within :
    (requested : Option (List String)) (allowed : List String) (s : String)
    → includes (granted_scopes requested allowed) s ≡ true
    → includes allowed s ≡ true
unfolding granted_scopes
granted_scopes-Within requested allowed s h =
    test_of_granted (includes allowed) (requested_or requested allowed) s h

-- A test on roles that only sees their index.
includes_role-same :
    (rs : List PrincipalRole) (q r : PrincipalRole)
    → role_index q ≡ role_index r
    → includes_role rs q ≡ includes_role rs r
includes_role-same [] q r e = refl
includes_role-same (x ∷ rs) q r e = rw (e, includes_role-same rs q r e) refl

includes_role-of_filter :
    (p : PrincipalRole → Bool) (rs : List PrincipalRole) (r : PrincipalRole)
    → includes_role (filter p rs) r ≡ true
    → includes_role rs r ≡ true
includes_role-of_filter p [] r h = h
includes_role-of_filter p (q ∷ rs) r h = elim (Bool-cases (p q)) [
  | inl e ↦ ground (arith, includes_role-of_filter p rs r)
  | inr e ↦ ground (arith, includes_role-of_filter p rs r)
]

includes_role-of_unique :
    (rs : List PrincipalRole) (r : PrincipalRole)
    → includes_role (unique_roles rs) r ≡ true
    → includes_role rs r ≡ true
includes_role-of_unique [] r h = h
includes_role-of_unique (q ∷ rs) r h = ground (
  arith,
  includes_role-of_filter (λ x. not (eqb (role_index q) (role_index x))) (unique_roles rs) r,
  includes_role-of_unique rs r,
)

includes_role-test :
    (held rs : List PrincipalRole) (r : PrincipalRole)
    → includes_role (filter (includes_role held) rs) r ≡ true
    → includes_role held r ≡ true
includes_role-test held [] r h = cc
includes_role-test held (q ∷ rs) r h = elim (Bool-cases (includes_role held q)) [
  | inr e ↦ includes_role-test held rs r (rw e at h)
  | inl e ↦ elim (Bool-cases (eqb (role_index q) (role_index r))) [
    | inl f ↦ sym (includes_role-same held q r ((eqb_iff (role_index q) (role_index r)).0 f)) ∙ e
    | inr f ↦ includes_role-test held rs r (rw (e, f) at h)
  ]
]

pub granted_roles-Within :
    (held rs : List PrincipalRole) (r : PrincipalRole)
    → includes_role (unique_roles (filter (includes_role held) rs)) r ≡ true
    → includes_role held r ≡ true
granted_roles-Within held rs r h =
    includes_role-test held rs r (includes_role-of_unique (filter (includes_role held) rs) r h)
