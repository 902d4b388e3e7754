-- ===== src/World.antt =====
-- The state that the services share, and what they call outside the repository.
pub mod Host
pub mod Quiet
use keylore.Prelude.{ℕ, String, Bool, Option, List}
use keylore.Domain.{CredentialRecord, PolicyRule}
use keylore.Domain.Reviews.{ApprovalRequest, BreakGlassRequest}
use keylore.Domain.Auth.{AuthTables}
use keylore.Domain.Rotation.{RotationRun}

-- Values of the metadata and payload objects.
pub data Json : Type 0 where
  null : Json
  text : String → Json
  number : ℕ → Json
  flag : Bool → Json
  texts : List String → Json

pub data Outcome : Type 0 where
  allowed denied success error : Outcome

-- A row of `audit_events`.
pub record AuditEvent : Type 0 where
  pub event_id : String
  pub occurred_at : ℕ
  pub tenant_id : String
  pub type : String
  pub action : String
  pub outcome : Outcome
  pub principal : String
  pub correlation_id : String
  pub metadata : List (String × Json)

-- The body of a webhook request.
pub record Envelope : Type 0 where
  pub id : String
  pub type : String
  pub occurred_at : ℕ
  pub trace_id : Option String
  pub payload : List (String × Json)

pub record Delivery : Type 0 where
  pub url : String
  pub envelope : Envelope
  pub signature : Option String

pub data DeliveryStatus : Type 0 where
  disabled success error : DeliveryStatus

-- An HTTP request that the broker has `fetch` send with a credential: the url and the options that it
-- hands over.
pub record Outbound : Type 0 where
  pub method : String
  pub url : String
  pub headers : List (String × String)
  pub body : Option String

-- The tables of the database, the requests sent so far, the counter of random identifiers that were
-- drawn, and the time. `audit`, `deliveries`, `delivery_metrics` and `outbound` grow at the end.
pub record World : Type 0 where
  pub now : ℕ
  pub drawn : ℕ
  pub credentials : List CredentialRecord
  pub policies : List PolicyRule
  pub approvals : List ApprovalRequest
  pub break_glass : List BreakGlassRequest
  pub auth : AuthTables
  pub rotations : List RotationRun
  pub audit : List AuditEvent
  pub deliveries : List Delivery
  pub delivery_metrics : List (String × DeliveryStatus)
  pub outbound : List Outbound
