-- ===== src/Fingerprint/Binding.antt =====
-- What equal fingerprints (src/services/access-fingerprint.ts) say of two access requests.
use keylore.Prelude.{◌≡◌, ap, or_else, []}
use keylore.Domain.{AuthContext}
use keylore.Domain.Access.{AccessRequestInput}
use keylore.World.Host.{Host, FingerprintInput}
use keylore.Fingerprint.{fingerprint_input}

-- The same caller asks for the same operation with the same credential on the same target, with the
-- same headers and payload; a missing one is an empty one.
pub record SameRequest (context' : AuthContext) (input' : AccessRequestInput)
    (context : AuthContext) (input : AccessRequestInput) : Type 0 where
  pub principal : context'.principal ≡ context.principal
  pub tenant_id : context'.tenant_id ≡ context.tenant_id
  pub credential_id : input'.credential_id ≡ input.credential_id
  pub operation : input'.operation ≡ input.operation
  pub target_url : input'.target_url ≡ input.target_url
  pub headers : or_else input'.headers [] ≡ or_else input.headers []
  pub payload : or_else input'.payload "" ≡ or_else input.payload ""

-- The digest tells the two requests apart, if they differ.
abbrev pub IsToldApart :
    Host → AuthContext → AccessRequestInput → AuthContext → AccessRequestInput → Type 0
IsToldApart host context' input' context input =
    host.digest (fingerprint_input context' input') ≡ host.digest (fingerprint_input context input)
    → fingerprint_input context' input' ≡ fingerprint_input context input

pub SameRequest-of :
    (context' : AuthContext) (input' : AccessRequestInput) (context : AuthContext)
    (input : AccessRequestInput)
    → fingerprint_input context' input' ≡ fingerprint_input context input
    → SameRequest context' input' context input
SameRequest-of context' input' context input e = record {
  principal = ap (λ (x : FingerprintInput). x.principal) e;
  tenant_id = ap (λ (x : FingerprintInput). x.tenant_id) e;
  credential_id = ap (λ (x : FingerprintInput). x.credential_id) e;
  operation = ap (λ (x : FingerprintInput). x.operation) e;
  target_url = ap (λ (x : FingerprintInput). x.target_url) e;
  headers = ap (λ (x : FingerprintInput). x.headers) e;
  payload = ap (λ (x : FingerprintInput). x.payload) e;
}
