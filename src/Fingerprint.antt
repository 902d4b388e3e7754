-- ===== src/Fingerprint.antt =====
-- The fingerprint of an access request, src/services/access-fingerprint.ts.
pub mod Binding
use keylore.Prelude.{String, or_else, []}
use keylore.Domain.{AuthContext}
use keylore.Domain.Access.{AccessRequestInput}
use keylore.World.Host.{Host, FingerprintInput}

abbrev pub fingerprint_input : AuthContext → AccessRequestInput → FingerprintInput
fingerprint_input context input = record {
  principal = context.principal;
  tenant_id = context.tenant_id;
  credential_id = input.credential_id;
  operation = input.operation;
  target_url = input.target_url;
  headers = or_else input.headers [];
  payload = or_else input.payload "";
}

unfoldable pub access_fingerprint : Host → AuthContext → AccessRequestInput → String
access_fingerprint host context input = host.digest (fingerprint_input context input)
