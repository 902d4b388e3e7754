-- ===== src/Notifications/Tests.antt =====
-- A notification whose webhook fails.
use keylore.Prelude.{some, [], length, ◌≡◌, refl}
use keylore.Domain.Config.{KeyLoreConfig}
use keylore.World.Host.{Host, failed}
use keylore.World.Quiet.{Quiet}
use keylore.Notifications.{send}
use keylore.Notifications.Frame.{send-Quiet}
use keylore.Audit
use keylore.World.Host
use keylore.Fixtures.{host, config, world}

abbrev failing : Host
failing = record host { webhook = λ delivery. failed "connection refused" }

abbrev hooked : KeyLoreConfig
hooked = record config { notification_webhook_url = some "https://hooks.example.com" }

failure_is_recorded : length (send failing hooked "approval.pending" [] (world [])).1.audit ≡ 1
unfolding send Host.random_uuid Audit.record_event
failure_is_recorded = refl

send-Quiet_example : Quiet (send failing hooked "approval.pending" [])
send-Quiet_example = send-Quiet failing hooked "approval.pending" []
