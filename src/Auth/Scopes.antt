-- ===== src/Auth/Scopes.antt =====
-- The helpers of src/services/auth-service.ts on scopes, roles, resources and optional texts.
pub mod Granted
use keylore.Prelude.{
  ℕ, String, Bool, true, false, not, Option, none, some, List, [], ◌∷◌, map, ◌&&◌, ◌==◌, eqb,
  if◌then◌else◌, filter, truthy, or_else, ends_with, includes, ◌+++◌,
}
use keylore.Domain.{
  PrincipalRole, auth_admin, operator, maintenance_operator, backup_operator, breakglass_operator,
  auditor, approver, consumer, role_index, includes_role,
}
use keylore.Domain.Auth.{
  ClientStatus, AuthMethod, client_secret_basic, client_secret_post, private_key_jwt, GrantType,
  client_credentials, authorization_code, refresh_token, TenantStatus, TokenStatus, CodeStatus,
}
use keylore.World.{Json, texts}

abbrev pub role_text : PrincipalRole → String
role_text PrincipalRole.admin = "admin"
role_text auth_admin = "auth_admin"
role_text operator = "operator"
role_text maintenance_operator = "maintenance_operator"
role_text backup_operator = "backup_operator"
role_text breakglass_operator = "breakglass_operator"
role_text auditor = "auditor"
role_text approver = "approver"
role_text consumer = "consumer"

abbrev pub role_texts : List PrincipalRole → Json
role_texts roles = texts (map role_text roles)

abbrev pub grant_text : GrantType → String
grant_text client_credentials = "client_credentials"
grant_text authorization_code = "authorization_code"
grant_text refresh_token = "refresh_token"

abbrev pub method_text : AuthMethod → String
method_text client_secret_basic = "client_secret_basic"
method_text client_secret_post = "client_secret_post"
method_text private_key_jwt = "private_key_jwt"
method_text AuthMethod.none = "none"

abbrev pub client_status_text : ClientStatus → String
client_status_text ClientStatus.active = "active"
client_status_text ClientStatus.disabled = "disabled"

abbrev pub is_enabled : ClientStatus → Bool
is_enabled ClientStatus.active = true
is_enabled ClientStatus.disabled = false

abbrev pub is_open : TenantStatus → Bool
is_open TenantStatus.active = true
is_open TenantStatus.disabled = false

abbrev pub is_active : TokenStatus → Bool
is_active TokenStatus.active = true
is_active TokenStatus.revoked = false

abbrev pub is_usable : CodeStatus → Bool
is_usable CodeStatus.active = true
is_usable _ = false

-- `["private_key_jwt", "none"].includes(method)`
abbrev pub is_secretless : AuthMethod → Bool
is_secretless private_key_jwt = true
is_secretless AuthMethod.none = true
is_secretless _ = false

abbrev grant_index : GrantType → ℕ
grant_index client_credentials = 0
grant_index authorization_code = 1
grant_index refresh_token = 2

-- `grantTypes.includes(grantType)`
abbrev pub includes_grant : List GrantType → GrantType → Bool
includes_grant [] g = false
includes_grant (x ∷ xs) g =
    if eqb (grant_index x) (grant_index g) then true else includes_grant xs g

-- `Array.from(new Set(scopes))`: the first of equal items stays.
abbrev pub unique_scopes : List String → List String
unique_scopes [] = []
unique_scopes (s ∷ ss) = s ∷ filter (λ t. not (s == t)) (unique_scopes ss)

abbrev pub unique_roles : List PrincipalRole → List PrincipalRole
unique_roles [] = []
unique_roles (r ∷ rs) = r ∷ filter (λ q. not (eqb (role_index r) (role_index q))) (unique_roles rs)

-- `list.join(separator)`
abbrev pub join : String → List String → String
join separator [] = ""
join separator (s ∷ []) = s
join separator (s ∷ t ∷ ss) = s +++ separator +++ join separator (t ∷ ss)

abbrev pub is_empty {ℓ} : {A : Type ℓ} → List A → Bool
is_empty [] = true
is_empty (x ∷ xs) = false

-- `requested?.length ? requested : fallback`
abbrev pub requested_or : Option (List String) → List String → List String
requested_or (some (s ∷ ss)) fallback = s ∷ ss
requested_or _ fallback = fallback

-- `uniqueScopes(requested.filter((scope) => allowed.includes(scope)))`
unfoldable pub granted_scopes : Option (List String) → List String → List String
granted_scopes requested allowed =
    unique_scopes (filter (λ s. includes allowed s) (requested_or requested allowed))

-- `text.slice(0, -1)`
abbrev drop_last : String → String
drop_last String.[] = ""
drop_last (String.◌∷◌ c s) = let rest = drop_last s in if s == "" then "" else String.◌∷◌ c rest

unfoldable pub normalize_resource : String → String
unfolding ends_with
normalize_resource resource = if ends_with resource "/" then drop_last resource else resource

-- Both resources are given, and they differ.
abbrev pub resources_differ : Option String → Option String → Bool
resources_differ bound requested =
    truthy bound
    && truthy requested
    && not (normalize_resource (or_else bound "") == normalize_resource (or_else requested ""))

-- `text === optional`
abbrev pub is_text : String → Option String → Bool
is_text s none = false
is_text s (some t) = s == t
