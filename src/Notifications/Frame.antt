-- ===== src/Notifications/Frame.antt =====
-- What a notification of src/services/notification-service.ts touches.
use keylore.Prelude.{refl, Option, none, some, String, List, truthy, or_else}
use keylore.Domain.Config.{KeyLoreConfig}
use keylore.World.{Json, DeliveryStatus, Delivery}
use keylore.World.Host.{Host}
use keylore.World.Quiet.{Quiet, Quiet-if, quiet_rules}
use keylore.Audit.Frame.{random_uuid-Quiet, record_event-Quiet}
use keylore.Notifications.{record_delivery, post, report, deliver, send}

module _ (host : Host) (config : KeyLoreConfig) where
  record_delivery-Quiet :
      (type : String) (status : DeliveryStatus) → Quiet (record_delivery host config type status)
  unfolding record_delivery
  record_delivery-Quiet type status = record {
    value = λ w. tt;
    returns = λ w. refl;
    same = λ w. record {
      now = refl;
      credentials = refl;
      policies = refl;
      approvals = refl;
      break_glass = refl;
      auth = refl;
      rotations = refl;
      outbound = refl;
    };
  }

  post-Quiet : (delivery : Delivery) → Quiet (post host config delivery)
  unfolding post
  post-Quiet delivery = record {
    value = λ w. host.webhook delivery;
    returns = λ w. refl;
    same = λ w. record {
      now = refl;
      credentials = refl;
      policies = refl;
      approvals = refl;
      break_glass = refl;
      auth = refl;
      rotations = refl;
      outbound = refl;
    };
  }

  report-Quiet :
      (type url : String) (tenant_id message : Option String)
      → Quiet (report host config type url tenant_id message)
  unfolding report
  report-Quiet type url tenant_id none =
      search (quiet_rules, record_delivery-Quiet, record_event-Quiet)
  report-Quiet type url tenant_id (some message) =
      search (quiet_rules, record_delivery-Quiet, record_event-Quiet)

  deliver-Quiet :
      (url type : String) (payload : List (String × Json))
      → Quiet (deliver host config url type payload)
  unfolding deliver
  deliver-Quiet url type payload =
      search (quiet_rules, random_uuid-Quiet, post-Quiet, report-Quiet) depth 8

  -- Sending a notification returns whatever the webhook answers or throws, and leaves the clock, the
  -- credentials, the rules, the approval and break-glass requests and the outbound requests as they are.
  pub send-Quiet :
      (type : String) (payload : List (String × Json)) → Quiet (send host config type payload)
  unfolding send
  send-Quiet type payload =
      Quiet-if (truthy config.notification_webhook_url) _ _
        (deliver-Quiet (or_else config.notification_webhook_url "") type payload)
        (record_delivery-Quiet type DeliveryStatus.disabled)
