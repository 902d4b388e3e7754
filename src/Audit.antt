-- ===== src/Audit.antt =====
-- The audit log of src/repositories/pg-audit-log.ts.
pub mod Frame
use keylore.Prelude.{String, Option, none, some, List, [], ◌∷◌, ◌++◌, or_else}
use keylore.Exec.{Result, ok, Exec, ◌>>=◌, ◌>>◌, return, modify}
use keylore.World.{World, Json, Outcome, AuditEvent}
use keylore.World.Host.{Host, random_uuid}

pub record RecordAuditInput : Type 0 where
  pub tenant_id : Option String
  pub type : String
  pub action : String
  pub outcome : Outcome
  pub principal : String
  pub correlation_id : Option String
  pub metadata : List (String × Json)

module _ (host : Host) where
  -- `input.correlationId ?? randomUUID()`
  correlate : Option String → Exec World String
  correlate (some id) = return id
  correlate none = random_uuid host

  -- The insert into `audit_events`.
  append_event : AuditEvent → Exec World Unit
  append_event event = modify (λ w. record w { audit = w.audit ++ event ∷ [] })

  unfoldable pub record_event : RecordAuditInput → Exec World Unit
  unfolding correlate append_event random_uuid
  record_event input = do
    event_id ← random_uuid host
    correlation_id ← correlate input.correlation_id
    occurred_at ← (λ w. (ok w.now, w))
    append_event (record {
      event_id = event_id;
      occurred_at = occurred_at;
      tenant_id = or_else input.tenant_id "default";
      type = input.type;
      action = input.action;
      outcome = input.outcome;
      principal = input.principal;
      correlation_id = correlation_id;
      metadata = input.metadata;
    })
