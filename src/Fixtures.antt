-- ===== src/Fixtures.antt =====
-- Concrete inputs of the tests: one credential, its rules, a caller, a request, a host and a state.
use keylore.Prelude.{String, true, false, none, some, List, [], ◌∷◌, ◌==◌, if◌then◌else◌, eqb, leb}
use keylore.Exec.{ok, thrown}
use keylore.Domain.{
  ScopeTier, Sensitivity, CredentialStatus, AuthType, http_get, PrincipalRole, Adapter,
  CredentialSummary, CredentialRecord, Effect, PolicyRule, AuthContext,
}
use keylore.Domain.Access.{AccessRequestInput}
use keylore.Domain.Config.{KeyLoreConfig}
use keylore.Domain.Auth.{AuthTables}
use keylore.Egress.{Platform, Url}
use keylore.World.{World}
use keylore.World.Host.{Host, responded, Response}

abbrev pub same_text : String → String
same_text s = s

abbrev pub repos : String
repos = "https://api.example.com/repos"

abbrev pub repos_url : Url
repos_url = record { href = repos; protocol = "https:"; hostname = "api.example.com"; port = "" }

abbrev pub hidden_url : Url
hidden_url = record { href = "https://[::1]/"; protocol = "https:"; hostname = "[::1]"; port = "" }

-- Where a client of the authorization server takes its codes.
abbrev pub done : String
done = "https://web.example.com/done"

abbrev done_url : Url
done_url = record { href = done; protocol = "https:"; hostname = "web.example.com"; port = "" }

-- The one name that resolves has a public address.
abbrev pub platform : Platform
platform = record {
  lower = λ s. if s == "Cookie" then "cookie" else s;
  parse_url =
      λ raw. if raw == repos then some repos_url else if raw == done then some done_url else none;
  is_ipv4 = λ s. s == "93.184.216.34";
  is_ipv6 = λ s. false;
  lookup = λ s. if s == "api.example.com" then some ("93.184.216.34" ∷ []) else none;
}

abbrev pub response : Response
response = record {
  status = 200;
  content_type = some "application/json";
  body = some ((1 ∷ 2 ∷ []) ∷ (3 ∷ []) ∷ []);
}

-- The digest of a request is its principal.
abbrev pub host : Host
host = record {
  platform = platform;
  uuid = λ n. "id";
  digest = λ x. x.principal;
  sign = λ secret envelope. "signature";
  trace_id = none;
  show_number = λ n. "60";
  webhook = λ delivery. responded 200;
  resolve = λ c.
      ok
        (record { secret = "t0ken"; header_name = "Authorization"; header_value = "Bearer t0ken" });
  fetch = λ request. ok response;
  redirected = λ request. [];
  decode = λ bytes. "{}";
  text_length = λ s. 2;
  prefix = λ s n. s;
  redact_secret = λ s secret. s;
  redact_patterns = λ s. s;
  random_text =
      λ n. if eqb n 0 then "zero" else if eqb n 1 then "one" else if leb n 3 then "two" else "many";
  sha256_hex = same_text;
  sha256_base64url = same_text;
  scrypt = λ secret salt. secret;
  parse_jwt_header = λ s. thrown "SyntaxError";
  parse_jwt_claims = λ s. thrown "SyntaxError";
  verify_signature = λ alg signed key signature. ok false;
  parse_patch = λ p. ok p;
  fits_jwk = λ key. true;
  is_env_name = λ s. true;
  before = λ s t. true;
  trim = same_text;
  inspect = λ c. ok (record { expires_at = none; next_rotation_at = some 5000 });
}

abbrev pub config : KeyLoreConfig
config = record {
  environment = "production";
  max_response_bytes = 4;
  approval_ttl_seconds = 600;
  approval_review_quorum = 2;
  breakglass_max_duration_seconds = 3600;
  breakglass_review_quorum = 1;
  notification_webhook_url = none;
  notification_signing_secret = none;
  egress_allow_private_ips = false;
  egress_allowed_hosts = [];
  egress_allowed_https_ports = 443 ∷ [];
  public_base_url = "https://keylore.example.com";
  issuer_url = "https://keylore.example.com/oauth";
  access_token_ttl_seconds = 3600;
  authorization_code_ttl_seconds = 300;
  refresh_token_ttl_seconds = 86400;
  rotation_horizon_days = 14;
}

abbrev pub summary : CredentialSummary
summary = record {
  id = "github";
  tenant_id = "acme";
  display_name = "GitHub";
  service = "github";
  owner = "platform";
  scope_tier = ScopeTier.read_only;
  sensitivity = Sensitivity.high;
  allowed_domains = "api.example.com" ∷ [];
  permitted_operations = http_get ∷ [];
  expires_at = none;
  rotation_policy = "90 days";
  last_validated_at = none;
  selection_notes = "Reads repositories.";
  user_context = none;
  llm_context = none;
  tags = [];
  status = CredentialStatus.active;
}

abbrev pub credential : CredentialRecord
credential = record {
  summary = summary;
  binding = record {
    adapter = Adapter.env;
    ref = "GITHUB_TOKEN";
    auth_type = AuthType.bearer;
    header_name = "Authorization";
    header_prefix = "Bearer ";
    injection_env_name = none;
  };
}

-- A rule about that credential with the given effect.
abbrev pub rule_with : String → Effect → PolicyRule
rule_with id effect = record {
  id = id;
  tenant_id = "acme";
  effect = effect;
  description = "GitHub reads";
  principals = "ci" ∷ [];
  principal_roles = none;
  credential_ids = some ("github" ∷ []);
  services = none;
  operations = "http.get" ∷ [];
  domain_patterns = "*.example.com" ∷ [];
  environments = none;
}

abbrev pub allow_rule : PolicyRule
allow_rule = rule_with "allow-reads" Effect.allow

abbrev pub deny_rule : PolicyRule
deny_rule = rule_with "deny-reads" Effect.deny

abbrev pub caller : String → AuthContext
caller principal = record {
  principal = principal;
  client_id = "cli";
  tenant_id = some "acme";
  roles = PrincipalRole.consumer ∷ [];
  scopes = [];
  resource = none;
}

abbrev pub request : AccessRequestInput
request = record {
  credential_id = "github";
  operation = http_get;
  target_url = repos;
  headers = some (("Cookie", "session") ∷ ("cookie", "session") ∷ []);
  payload = none;
  approval_id = some "id";
  break_glass_id = some "id";
  dry_run = none;
}

abbrev no_auth : AuthTables
no_auth = record {
  clients = [];
  access_tokens = [];
  refresh_tokens = [];
  codes = [];
  assertions = [];
  tenants = [];
}

-- A state with one credential, the given rules and no requests.
abbrev pub world : List PolicyRule → World
world rules = record {
  now = 1000;
  drawn = 0;
  credentials = credential ∷ [];
  policies = rules;
  approvals = [];
  break_glass = [];
  auth = no_auth;
  rotations = [];
  audit = [];
  deliveries = [];
  delivery_metrics = [];
  outbound = [];
}
