-- ===== src/World/Host.antt =====
-- The platform and the services outside the repository, as the code calls them.
use keylore.Prelude.{ℕ, suc, String, Bool, Option, List}
use keylore.Domain.{Operation, CredentialRecord}
use keylore.Domain.Auth.{Jwk, JwtHeader, JwtClaims}
use keylore.Domain.Rotation.{CredentialPatch}
use keylore.Exec.{Result, ok, Exec}
use keylore.Egress.{Platform}
use keylore.World.{World, Envelope, Delivery, Outbound}

-- The object that `accessFingerprint` of src/services/access-fingerprint.ts serialises.
pub record FingerprintInput : Type 0 where
  pub principal : String
  pub tenant_id : Option String
  pub credential_id : String
  pub operation : Operation
  pub target_url : String
  pub headers : List (String × String)
  pub payload : String

-- The reply of a webhook: a status, or the message of the exception.
pub data WebhookReply : Type 0 where
  responded : ℕ → WebhookReply
  failed : String → WebhookReply

-- What an adapter of src/adapters returns for a credential.
pub record ResolvedSecret : Type 0 where
  pub secret : String
  pub header_name : String
  pub header_value : String

-- What an adapter reports of a secret.
pub record Inspection : Type 0 where
  pub expires_at : Option ℕ
  pub next_rotation_at : Option ℕ

-- A response of `fetch`: the body comes in chunks of bytes, or is missing.
pub record Response : Type 0 where
  pub status : ℕ
  pub content_type : Option String
  pub body : Option (List (List ℕ))

pub record Host : Type 0 where
  pub platform : Platform
  pub open platform use *
  -- the n-th identifier that `randomUUID` returns
  pub uuid : ℕ → String
  -- SHA-256 of the JSON text, in hexadecimal digits
  pub digest : FingerprintInput → String
  -- the HMAC of an envelope's JSON text under a secret
  pub sign : String → Envelope → String
  pub trace_id : Option String
  pub show_number : ℕ → String
  pub webhook : Delivery → WebhookReply
  pub resolve : CredentialRecord → Result ResolvedSecret
  pub fetch : Outbound → Result Response
  -- the requests that `fetch` sends after the first one, where it follows redirects
  pub redirected : Outbound → List Outbound
  -- UTF-8 decoding of bytes
  pub decode : List ℕ → String
  -- the length of a text and its first part, in UTF-16 units
  pub text_length : String → ℕ
  pub prefix : String → ℕ → String
  -- `text.replaceAll(secret, …)` and the three pattern replacements of `redactText`
  pub redact_secret : String → String → String
  pub redact_patterns : String → String
  -- the n-th text of random bytes that `randomBytes` gives
  pub random_text : ℕ → String
  -- SHA-256 of a text, in hexadecimal digits and in base64url
  pub sha256_hex : String → String
  pub sha256_base64url : String → String
  -- `scryptSync` of a secret under a salt, in hexadecimal digits
  pub scrypt : String → String → String
  -- a part of a JSON web token: base64url, then JSON
  pub parse_jwt_header : String → Result JwtHeader
  pub parse_jwt_claims : String → Result JwtClaims
  -- `verify` of node:crypto: the digest's name, the signed text, the key and the signature
  pub verify_signature : String → String → Jwk → String → Result Bool
  -- the expiry and the rotation time that an adapter reports for a credential
  pub inspect : CredentialRecord → Result Inspection
  -- `updateCredentialInputSchema.parse`, which may throw
  pub parse_patch : CredentialPatch → Result CredentialPatch
  -- whether `publicJwkSchema` accepts a key
  pub fits_jwk : Jwk → Bool
  -- the pattern `/^[A-Z_][A-Z0-9_]*$/`
  pub is_env_name : String → Bool
  -- the order of texts in the database
  pub before : String → String → Bool
  -- `text.trim()`
  pub trim : String → String

-- `Date.now()`
unfoldable pub current_time : Exec World ℕ
current_time w = (ok w.now, w)

module _ (host : Host) where
  unfoldable pub random_uuid : Exec World String
  random_uuid w = (ok (host.uuid w.drawn), record w { drawn = suc w.drawn })

  -- `randomBytes(…)`, as text
  unfoldable pub random_bytes : Exec World String
  random_bytes w = (ok (host.random_text w.drawn), record w { drawn = suc w.drawn })
