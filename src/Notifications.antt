-- ===== src/Notifications.antt =====
-- Webhook notifications, src/services/notification-service.ts. Spans of the trace service are not
-- modelled: they wrap the delivery and change nothing of it.
pub mod Frame
mod Tests
use keylore.Prelude.{
  ℕ, String, Bool, true, false, Option, none, some, List, [], ◌∷◌, ◌++◌, ◌&&◌, ◌==◌, leb, truthy,
  if◌then◌else◌, or_else, ◌+++◌,
}
use keylore.Exec.{Result, ok, Exec, ◌>>=◌, ◌>>◌, return, modify, gets}
use keylore.Domain.Config.{KeyLoreConfig}
use keylore.World.{World, Json, null, text, Outcome, Envelope, Delivery, DeliveryStatus}
use keylore.World.Host.{Host, WebhookReply, responded, failed, random_uuid}
use keylore.Audit.{record_event}

-- `payload.tenantId`, if it is a text that is not empty
abbrev payload_tenant : List (String × Json) → Option String
payload_tenant [] = none
payload_tenant ((k, v) ∷ fields) =
    if k == "tenantId"
    then elim v [ text s ↦ if s == "" then none else some s | _ ↦ none ]
    else payload_tenant fields

abbrev tenant_json : Option String → Json
tenant_json none = null
tenant_json (some id) = text id

module _ (host : Host) (config : KeyLoreConfig) where
  record_delivery : String → DeliveryStatus → Exec World Unit
  record_delivery type status =
      modify (λ w. record w { delivery_metrics = w.delivery_metrics ++ (type, status) ∷ [] })

  -- The request to the webhook.
  post : Delivery → Exec World WebhookReply
  post delivery w =
      (ok (host.webhook delivery), record w { deliveries = w.deliveries ++ delivery ∷ [] })

  -- `response.ok`
  abbrev is_ok : ℕ → Bool
  is_ok status = leb 200 status && leb status 299

  -- The message of a failed delivery.
  abbrev failure : WebhookReply → Option String
  failure (responded status) =
      if is_ok status
      then none
      else some ("Notification webhook responded with " +++ host.show_number status +++ ".")
  failure (failed message) = some message

  report : String → String → Option String → Option String → Exec World Unit
  unfolding record_delivery
  report type url tenant_id none = do
    record_delivery type DeliveryStatus.success
    record_event host (record {
      tenant_id = tenant_id;
      type = "notification.delivery";
      action = "notification." +++ type;
      outcome = Outcome.success;
      principal = "keylore-system";
      correlation_id = none;
      metadata =
          ("tenantId", tenant_json tenant_id)
          ∷ ("eventType", text type)
          ∷ ("webhookUrl", text url)
          ∷ [];
    })
  report type url tenant_id (some message) = do
    record_delivery type DeliveryStatus.error
    record_event host (record {
      tenant_id = tenant_id;
      type = "notification.delivery";
      action = "notification." +++ type;
      outcome = Outcome.error;
      principal = "keylore-system";
      correlation_id = none;
      metadata =
          ("tenantId", tenant_json tenant_id)
          ∷ ("eventType", text type)
          ∷ ("webhookUrl", text url)
          ∷ ("error", text message)
          ∷ [];
    })

  deliver : String → String → List (String × Json) → Exec World Unit
  unfolding post report
  deliver url type payload = do
    id ← random_uuid host
    occurred_at ← gets (λ w. w.now)
    reply ← post (
        let envelope : Envelope = record {
          id = id;
          type = type;
          occurred_at = occurred_at;
          trace_id = host.trace_id;
          payload = payload;
        } in
        record {
          url = url;
          envelope = envelope;
          signature =
              if truthy config.notification_signing_secret
              then some (host.sign (or_else config.notification_signing_secret "") envelope)
              else none;
        })
    report type url (payload_tenant payload) (failure reply)

  unfoldable pub send : String → List (String × Json) → Exec World Unit
  unfolding record_delivery deliver
  send type payload =
      if truthy config.notification_webhook_url
      then deliver (or_else config.notification_webhook_url "") type payload
      else record_delivery type DeliveryStatus.disabled
