-- ===== src/Audit/Frame.antt =====
-- What an audit record of src/repositories/pg-audit-log.ts touches.
use keylore.Prelude.{refl, Option, none, some, String}
use keylore.World.Host.{Host, random_uuid}
use keylore.World.Quiet.{Quiet}
use keylore.Audit.{RecordAuditInput, record_event}

module _ (host : Host) where
  pub random_uuid-Quiet : Quiet (random_uuid host)
  unfolding random_uuid
  random_uuid-Quiet = record {
    value = λ w. host.uuid w.drawn;
    returns = λ w. refl;
    same = λ w. record {
      now = refl;
      credentials = refl;
      policies = refl;
      approvals = refl;
      break_glass = refl;
      auth = refl;
      rotations = refl;
      outbound = refl;
    };
  }

  record_event_given :
      (input : RecordAuditInput) (id : Option String)
      → Quiet (record_event host (record input { correlation_id = id }))
  unfolding record_event
  record_event_given input none = record {
    value = λ w. tt;
    returns = λ w. refl;
    same = λ w. record {
      now = refl;
      credentials = refl;
      policies = refl;
      approvals = refl;
      break_glass = refl;
      auth = refl;
      rotations = refl;
      outbound = refl;
    };
  }
  record_event_given input (some id) = record {
    value = λ w. tt;
    returns = λ w. refl;
    same = λ w. record {
      now = refl;
      credentials = refl;
      policies = refl;
      approvals = refl;
      break_glass = refl;
      auth = refl;
      rotations = refl;
      outbound = refl;
    };
  }

  pub record_event-Quiet : (input : RecordAuditInput) → Quiet (record_event host input)
  record_event-Quiet input = record_event_given input input.correlation_id
