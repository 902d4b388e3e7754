-- ===== src/Auth/Clients.antt =====
-- Clients are created and changed: `createClient`, `updateClient` and `rotateClientSecret` of
-- src/services/auth-service.ts.
use Prim.Native.String.{count}
use keylore.Prelude.{
  String, Bool, not, Option, none, some, List, [], ◌∷◌, ◌++◌, map, ◌||◌, if◌then◌else◌, or_else,
  is_some, ◌+++◌, ◌&&◌, ◌==◌, leb, length, any, includes,
}
use keylore.Exec.{Exec, ◌>>=◌, ◌>>◌, return, demand, existing}
use keylore.Domain.{AuthContext}
use keylore.Domain.Access.{tenant_allowed}
use keylore.Domain.Config.{KeyLoreConfig}
use keylore.Domain.Auth.{
  AuthClientRecord, StoredAuthClient, ClientCreateInput, ClientUpdateInput, ClientSecretOutput,
}
use keylore.World.{World, Json, text, texts, Outcome}
use keylore.World.Host.{Host, random_bytes}
use keylore.Audit.{record_event}
use keylore.Auth.Scopes.{client_status_text, method_text, grant_text, role_texts, is_secretless}
use keylore.Auth.Tables.Access
use keylore.Auth.Tables.Refresh
use keylore.Auth.Tables.Codes
use keylore.Auth.Statements.{
  on_access, on_refresh, on_codes, answered, get_client, get_tenant, upsert_client,
}
use keylore.Auth.Assertion.{hash_secret}

-- `Object.keys(patch)`
abbrev patched_fields : ClientUpdateInput → List String
patched_fields p =
    (if is_some p.display_name then "displayName" ∷ [] else [])
    ++ (if is_some p.roles then "roles" ∷ [] else [])
    ++ (if is_some p.allowed_scopes then "allowedScopes" ∷ [] else [])
    ++ (if is_some p.status then "status" ∷ [] else [])
    ++ (if is_some p.token_endpoint_auth_method then "tokenEndpointAuthMethod" ∷ [] else [])
    ++ (if is_some p.grant_types then "grantTypes" ∷ [] else [])
    ++ (if is_some p.redirect_uris then "redirectUris" ∷ [] else [])
    ++ (if is_some p.jwks then "jwks" ∷ [] else [])

-- The patch changes more than the display name; the fields are truthy where they are given.
unfoldable pub changes_access : ClientUpdateInput → Bool
changes_access p =
    is_some p.roles
    || is_some p.allowed_scopes
    || is_some p.status
    || is_some p.token_endpoint_auth_method
    || is_some p.grant_types
    || is_some p.redirect_uris
    || is_some p.jwks

unfoldable pub merged : ClientUpdateInput → AuthClientRecord → AuthClientRecord
merged p c = record {
  client_id = c.client_id;
  tenant_id = c.tenant_id;
  display_name = or_else p.display_name c.display_name;
  roles = or_else p.roles c.roles;
  allowed_scopes = or_else p.allowed_scopes c.allowed_scopes;
  status = or_else p.status c.status;
  token_endpoint_auth_method = or_else p.token_endpoint_auth_method c.token_endpoint_auth_method;
  grant_types = or_else p.grant_types c.grant_types;
  redirect_uris = or_else p.redirect_uris c.redirect_uris;
  jwks = or_else p.jwks c.jwks;
}

-- `accessScopeSchema`
abbrev known_scopes : List String
known_scopes =
    "catalog:read" ∷ "catalog:write" ∷ "admin:read" ∷ "admin:write" ∷ "auth:read" ∷ "auth:write"
    ∷ "broker:use" ∷ "sandbox:run" ∷ "audit:read" ∷ "approval:read" ∷ "approval:review"
    ∷ "system:read" ∷ "system:write" ∷ "backup:read" ∷ "backup:write" ∷ "breakglass:request"
    ∷ "breakglass:read" ∷ "breakglass:review" ∷ "mcp:use" ∷ []

-- What `authClientRecordSchema` asks of the record that `buildClientRecord` parses.
unfoldable pub fits_schema : Host → AuthClientRecord → Bool
fits_schema host c =
    not (c.client_id == "")
    && not (c.tenant_id == "")
    && leb (count c.tenant_id) 128
    && not (c.display_name == "")
    && leb 1 (length c.roles)
    && leb 1 (length c.allowed_scopes)
    && not (any (λ s. not (includes known_scopes s)) c.allowed_scopes)
    && leb 1 (length c.grant_types)
    && not (any (λ uri. not (is_some (host.parse_url uri))) c.redirect_uris)
    && not (any (λ key. not (host.fits_jwk key)) c.jwks)

-- The row that an update writes.
abbrev pub updated : ClientUpdateInput → StoredAuthClient → StoredAuthClient
updated p c =
    let next = merged p c.client in
    let secretless = is_secretless next.token_endpoint_auth_method in
    record {
      client = next;
      secret_hash = if secretless then none else c.secret_hash;
      secret_salt = if secretless then none else c.secret_salt;
    }

-- The tokens and the codes of a client are revoked.
unfoldable pub revoke_all : String → Exec World Unit
revoke_all client_id = do
  on_access (λ table. answered (Access.revoke_by_client_id client_id table))
  on_refresh (λ table. answered (Refresh.revoke_by_client_id client_id table))
  on_codes (λ table. answered (Codes.revoke_by_client_id client_id table))
  return tt

-- The row is written, and what was issued before is revoked where the patch changes access.
unfoldable pub replace_client : ClientUpdateInput → StoredAuthClient → Exec World Unit
replace_client patch stored = do
  upsert_client (updated patch stored)
  if changes_access patch then revoke_all stored.client_id else return tt

module _ (host : Host) (config : KeyLoreConfig) where
  abbrev pub audit_client :
      String → AuthContext → AuthClientRecord → List (String × Json) → Exec World Unit
  audit_client action actor client details = record_event host (record {
    tenant_id = some client.tenant_id;
    type = "auth.client";
    action = action;
    outcome = Outcome.success;
    principal = actor.principal;
    correlation_id = none;
    metadata = ("clientId", text client.client_id) ∷ ("tenantId", text client.tenant_id) ∷ details;
  })

  -- `given ?? this.generateClientSecret()`
  unfoldable pub secret_or_new : Option String → Exec World String
  secret_or_new (some secret) = return secret
  secret_or_new none = do bytes ← random_bytes host; return ("kls_" +++ bytes)

  pub record Secret : Type 0 where
    pub plain : Option String
    pub hash : Option String
    pub salt : Option String

  -- The secret of a new client; the schema refuses an empty one.
  unfoldable pub new_secret : ClientCreateInput → Exec World Secret
  new_secret input =
      if is_secretless input.token_endpoint_auth_method
      then return (record { plain = none; hash = none; salt = none })
      else (do
        secret ← secret_or_new input.client_secret
        hashed ← hash_secret host config secret
        return (record { plain = some secret; hash = some hashed.1; salt = some hashed.0 }))

  -- The new client is written.
  unfoldable pub add_client : AuthContext → ClientCreateInput → Exec World ClientSecretOutput
  add_client actor input = do
    secret ← new_secret input
    upsert_client
        (record { client = input.record_of; secret_hash = secret.hash; secret_salt = secret.salt })
    demand (fits_schema host input.record_of) "ZodError"
    audit_client "auth.client.create" actor input.record_of (
        ("roles", role_texts input.roles)
        ∷ ("allowedScopes", texts input.allowed_scopes)
        ∷ ("status", text (client_status_text input.status))
        ∷ ("authMethod", text (method_text input.token_endpoint_auth_method))
        ∷ ("grantTypes", texts (map grant_text input.grant_types))
        ∷ ("redirectUris", texts input.redirect_uris)
        ∷ [])
    return (record { client = input.record_of; client_secret = secret.plain })

  unfoldable pub create_client : AuthContext → ClientCreateInput → Exec World ClientSecretOutput
  create_client actor input = do
    found ← get_client input.client_id
    demand (not (is_some found)) ("Client already exists: " +++ input.client_id)
    demand (tenant_allowed actor.tenant_id input.tenant_id) "Tenant access denied."
    tenant ← get_tenant input.tenant_id
    known ← existing tenant ("Unknown tenant: " +++ input.tenant_id)
    add_client actor input

  unfoldable pub update_found :
      AuthContext → ClientUpdateInput → StoredAuthClient → Exec World (Option AuthClientRecord)
  update_found actor patch stored = do
    demand (tenant_allowed actor.tenant_id stored.tenant_id) "Tenant access denied."
    let next = merged patch stored.client
    demand (fits_schema host next) "ZodError"
    replace_client patch stored
    audit_client "auth.client.update" actor next (
        ("fields", texts (patched_fields patch))
        ∷ ("status", text (client_status_text next.status))
        ∷ ("authMethod", text (method_text next.token_endpoint_auth_method))
        ∷ ("grantTypes", texts (map grant_text next.grant_types))
        ∷ [])
    return (some next)

  unfoldable pub update_client :
      AuthContext → String → ClientUpdateInput → Exec World (Option AuthClientRecord)
  update_client actor client_id patch = do
    found ← get_client client_id
    elim found [ none ↦ return none | some stored ↦ update_found actor patch stored ]

  unfoldable pub rotate_found :
      AuthContext → Option String → StoredAuthClient → Exec World (Option ClientSecretOutput)
  rotate_found actor given stored = do
    demand (tenant_allowed actor.tenant_id stored.tenant_id) "Tenant access denied."
    demand (not (is_secretless stored.token_endpoint_auth_method)) (
        method_text stored.token_endpoint_auth_method
        +++ " clients do not support shared-secret rotation.")
    secret ← secret_or_new given
    hashed ← hash_secret host config secret
    upsert_client (record stored { secret_hash = some hashed.1; secret_salt = some hashed.0 })
    revoke_all stored.client_id
    demand (fits_schema host stored.client) "ZodError"
    audit_client "auth.client.rotate_secret" actor stored.client []
    return (some (record { client = stored.client; client_secret = some secret }))

  unfoldable pub rotate_client_secret :
      AuthContext → String → Option String → Exec World (Option ClientSecretOutput)
  rotate_client_secret actor client_id given = do
    found ← get_client client_id
    elim found [ none ↦ return none | some stored ↦ rotate_found actor given stored ]
