-- ===== src/Domain/Config.antt =====
-- The settings of src/config.ts that the modelled services read.
use keylore.Prelude.{ℕ, String, Bool, Option, List}

pub record KeyLoreConfig : Type 0 where
  pub environment : String
  pub max_response_bytes : ℕ
  pub approval_ttl_seconds : ℕ
  pub approval_review_quorum : ℕ
  pub breakglass_max_duration_seconds : ℕ
  pub breakglass_review_quorum : ℕ
  pub notification_webhook_url : Option String
  pub notification_signing_secret : Option String
  pub egress_allow_private_ips : Bool
  pub egress_allowed_hosts : List String
  pub egress_allowed_https_ports : List ℕ
  pub issuer_url : String
  pub public_base_url : String
  pub access_token_ttl_seconds : ℕ
  pub authorization_code_ttl_seconds : ℕ
  pub refresh_token_ttl_seconds : ℕ
  pub rotation_horizon_days : ℕ
