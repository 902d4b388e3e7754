-- ===== src/Auth/Assertion.antt =====
-- How a client proves who it is: `assertClientConfiguration`, `authenticateClientCredentials` and
-- `verifyClientAssertion` of src/services/auth-service.ts, and src/services/auth-secrets.ts.
pub mod Frame
use keylore.Prelude.{
  ℕ, ◌+◌, ◌*◌, ◌/◌, String, Bool, true, false, not, Option, none, some, List, [], ◌∷◌, ◌&&◌, ◌||◌,
  ◌==◌, leb, ltb, eqb, if◌then◌else◌, find, truthy, or_else, includes, ◌+++◌,
}
use keylore.Exec.{
  Result, ok, thrown, Exec, ◌>>=◌, ◌>>◌, return, throw, gets, lift, demand, existing,
}
use keylore.Domain.Auth.{
  AuthMethod, client_secret_basic, client_secret_post, private_key_jwt, Jwk, StoredAuthClient,
  TokenIssueInput, Audience, missing, one, several, JwtHeader, JwtClaims, ClientAssertion,
}
use keylore.Domain.Config.{KeyLoreConfig}
use keylore.World.{World}
use keylore.World.Host.{Host, random_bytes, current_time}
use keylore.Egress.Address.{split_dots}
use keylore.Auth.Scopes.{is_empty, is_text}
use keylore.Auth.Statements.{register_assertion}

abbrev client_assertion_type : String
client_assertion_type = "urn:ietf:params:oauth:client-assertion-type:jwt-bearer"

record JwtParts : Type 0 where
  pub header : String
  pub payload : String
  pub signature : String

-- The first three texts between dots, where all are there and none is empty.
abbrev jwt_parts : List String → Option JwtParts
jwt_parts (h ∷ p ∷ s ∷ _) =
    if h == "" || p == "" || s == ""
    then none
    else some (record { header = h; payload = p; signature = s })
jwt_parts _ = none

abbrev first_of : List Jwk → Option Jwk
first_of [] = none
first_of (k ∷ ks) = some k

abbrev or_first : Option Jwk → List Jwk → Option Jwk
or_first none jwks = first_of jwks
or_first (some k) jwks = some k

-- The key that the header names, else the first.
unfoldable pub selected_jwk : Option String → List Jwk → Option Jwk
selected_jwk kid jwks =
    or_first (if truthy kid then find (λ k. is_text (or_else kid "") k.kid) jwks else none) jwks

abbrev pub signature_algorithm : String → Result String
signature_algorithm alg =
    if alg == "RS256"
    then ok "RSA-SHA256"
    else if alg == "ES256"
    then ok "sha256"
    else thrown ("Unsupported client assertion algorithm: " +++ alg)

abbrev audiences : Audience → List String
audiences missing = []
audiences (one s) = if s == "" then [] else s ∷ []
audiences (several ss) = ss

-- A number that is missing or 0 is falsy.
abbrev or_zero : Option ℕ → ℕ
or_zero n = or_else n 0

module _ (host : Host) (config : KeyLoreConfig) where
  abbrev pub token_endpoint_url : String
  token_endpoint_url = config.public_base_url +++ "/oauth/token"

  -- `verifySecret`; the stored hash is the text that `hashSecret` wrote.
  unfoldable pub verify_secret : String → String → String → Bool
  verify_secret secret salt expected_hash = host.scrypt secret salt == expected_hash

  -- `hashSecret`: the salt and the hash.
  unfoldable pub hash_secret : String → Exec World (String × String)
  hash_secret secret = do salt ← random_bytes host; return (salt, host.scrypt secret salt)

  -- The tests on the claims of a signed assertion, at a time in seconds.
  unfoldable pub check_claims : String → JwtClaims → ℕ → Exec World Unit
  check_claims client_id claims now = do
    demand (is_text client_id claims.iss && is_text client_id claims.sub)
        "Client assertion subject does not match client."
    demand
        (includes (audiences claims.aud) config.issuer_url
          || includes (audiences claims.aud) token_endpoint_url)
        "Client assertion audience is invalid."
    demand (not (eqb (or_zero claims.exp) 0) && ltb now (or_zero claims.exp))
        "Client assertion expired."
    demand (eqb (or_zero claims.iat) 0 || leb now (or_zero claims.iat + 300))
        "Client assertion is too old."
    demand (leb (or_zero claims.nbf) (now + 30)) "Client assertion is not valid yet."
    demand (truthy claims.jti && leb 8 (host.text_length (or_else claims.jti "")))
        "Client assertion jti is required."

  unfoldable pub verify_client_assertion : StoredAuthClient → String → Exec World Unit
  verify_client_assertion client assertion = do
    parts ← existing (jwt_parts (split_dots assertion)) "Invalid client assertion."
    header ← lift (host.parse_jwt_header parts.header)
    claims ← lift (host.parse_jwt_claims parts.payload)
    demand (truthy header.alg) "Client assertion is missing alg."
    key ←
        existing (selected_jwk header.kid client.jwks)
          "No matching public JWK for client assertion."
    digest ← lift (signature_algorithm (or_else header.alg ""))
    verified ←
        lift (
          host.verify_signature digest (parts.header +++ "." +++ parts.payload) key parts.signature)
    demand verified "Invalid client assertion signature."
    now_ms ← current_time
    check_claims client.client_id claims (now_ms / 1000)
    registered ← register_assertion (record {
      client_id = client.client_id;
      jti = or_else claims.jti "";
      expires_at = or_zero claims.exp * 1000;
    })
    demand registered "Client assertion replay detected."

  unfoldable pub has_secret : StoredAuthClient → Bool
  has_secret client = truthy client.secret_hash && truthy client.secret_salt

  -- The checks of a shared secret.
  unfoldable pub check_secret : StoredAuthClient → TokenIssueInput → Exec World Unit
  check_secret client input = do
    demand (has_secret client)
        ("Client " +++ client.client_id +++ " is missing shared-secret material.")
    demand (truthy input.client_secret && has_secret client) "Invalid client credentials."
    demand
        (verify_secret (or_else input.client_secret "") (or_else client.secret_salt "")
          (or_else client.secret_hash ""))
        "Invalid client credentials."

  -- The checks of a signed assertion.
  unfoldable pub check_assertion : StoredAuthClient → TokenIssueInput → Exec World Unit
  check_assertion client input = do
    demand (not (is_empty client.jwks))
        ("Client " +++ client.client_id +++ " is missing public JWKs.")
    demand
        (is_text client_assertion_type input.client_assertion_type && truthy input.client_assertion)
        "Missing private_key_jwt client assertion."
    verify_client_assertion client (or_else input.client_assertion "")

  unfoldable pub authenticate_by : AuthMethod → StoredAuthClient → TokenIssueInput → Exec World Unit
  authenticate_by AuthMethod.none client input = return tt
  authenticate_by private_key_jwt client input = check_assertion client input
  authenticate_by client_secret_basic client input = check_secret client input
  authenticate_by client_secret_post client input = check_secret client input

  unfoldable pub authenticate_client_credentials :
      StoredAuthClient → TokenIssueInput → Exec World Unit
  authenticate_client_credentials client input =
      authenticate_by client.token_endpoint_auth_method client input
