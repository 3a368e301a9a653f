-- ===== src/Alerting/Delivery.antt =====
-- packages/monitoring/src/alerting/processor.ts: the delivery of one alert over a transport.
pub mod Once
use uptimeflow.Common.{
  ◌+◌, Bool, true, false, Option, none, some, List, ◌++◌, ◌==◌, find, take, if◌then◌else◌,
}
use uptimeflow.Common.Tables.{update_where}
use uptimeflow.Common.Text.{Text, codes}
use uptimeflow.Enums.{RecordId, Instant}
use uptimeflow.Store.{
  Store, MonitorRow, Incident, IncidentSeverity, IncidentEvent, IncidentEventType, sent_via,
  NotificationStatus, NotificationDelivery, AlertChannel, AlertChannelType, AlertKind, AlertJob,
  is_id, add_event,
}

pub record AlertPayload : Type 0 where
  pub kind : AlertKind
  pub incident_id : RecordId
  pub monitor_name : Text
  pub title : Text
  pub severity : IncidentSeverity
  pub summary : Option Text
  pub occurred_at : Instant

-- What a transport does: a provider's message identifier, or a thrown error's message.
pub data Sent : Type 0 where
  accepted : Option Text → Sent
  thrown : Text → Sent

abbrev pub Transports : Type 0
Transports = AlertChannelType → Option (AlertChannel → AlertPayload → Sent)

pub data JobOutcome : Type 0 where
  no_delivery already_delivered no_transport delivered : JobOutcome
  -- rethrown, so that the queue retries
  failed : Text → JobOutcome

abbrev pub is_done : NotificationStatus → Bool
is_done NotificationStatus.delivered = true
is_done NotificationStatus.sent = true
is_done _ = false

-- `notificationDelivery.update({ where: { id }, data })`
unfoldable pub update_delivery :
    RecordId → (NotificationDelivery → NotificationDelivery) → Store → Store
update_delivery id f s = record s {
  deliveries = update_where (λ (d : NotificationDelivery). d.id == id) f s.deliveries;
}

abbrev name_of_type : AlertChannelType → Text
name_of_type AlertChannelType.email = codes "EMAIL"
name_of_type AlertChannelType.sms = codes "SMS"
name_of_type AlertChannelType.voice = codes "VOICE"
name_of_type AlertChannelType.slack = codes "SLACK"
name_of_type AlertChannelType.discord = codes "DISCORD"
name_of_type AlertChannelType.telegram = codes "TELEGRAM"
name_of_type AlertChannelType.microsoft_teams = codes "MICROSOFT_TEAMS"
name_of_type AlertChannelType.webhook = codes "WEBHOOK"
name_of_type AlertChannelType.pagerduty = codes "PAGERDUTY"
name_of_type AlertChannelType.opsgenie = codes "OPSGENIE"

pub missing_transport : AlertChannelType → Text
missing_transport type =
    codes "No transport configured for channel type "
    ++ (name_of_type type ++ codes " — nothing was sent.")

pub sent_message : AlertKind → Text → Text
sent_message AlertKind.opened name = codes "Alert (opened) sent via " ++ (name ++ codes ".")
sent_message AlertKind.resolved name = codes "Alert (resolved) sent via " ++ (name ++ codes ".")

abbrev pub mark_failed : Text → NotificationDelivery → NotificationDelivery
mark_failed e d = record d { status = NotificationStatus.failed; last_error = some e }

abbrev pub mark_sending : Instant → NotificationDelivery → NotificationDelivery
mark_sending now d = record d {
  status = NotificationStatus.sending;
  attempts = d.attempts + 1;
  sent_at = some now;
}

abbrev pub mark_delivered : Instant → Option Text → NotificationDelivery → NotificationDelivery
mark_delivered at message_id d = record d {
  status = NotificationStatus.delivered;
  delivered_at = some at;
  provider_message_id = message_id;
}

abbrev pub name_of_monitor : List MonitorRow → Incident → Text
name_of_monitor monitors i = elim (find (λ (m : MonitorRow). is_id m.id i.monitor_id) monitors) [
  | none ↦ codes "monitor"
  | some m ↦ m.name
]

-- `now` is read before the transport is called, and `later` after it has answered.
module _ (transports : Transports) (now later : Instant) where
  abbrev sent_event : AlertJob → AlertChannel → IncidentEvent
  sent_event job channel = record {
    incident_id = job.incident_id;
    type = IncidentEventType.notification_sent;
    message = some (sent_message job.kind channel.name);
    actor_id = none;
    metadata = sent_via channel.id channel.type job.delivery_id;
    created_at = later;
  }

  unfoldable pub conclude : Store → AlertJob → AlertChannel → Sent → JobOutcome × Store
  unfolding update_delivery add_event
  conclude s job channel (accepted message_id) = (
    delivered,
    add_event (update_delivery job.delivery_id (mark_delivered later message_id) s)
        (sent_event job channel),
  )
  conclude s job channel (thrown e) =
      (failed e, update_delivery job.delivery_id (mark_failed (take 500 e)) s)

  abbrev payload_of : Store → AlertJob → Incident → AlertPayload
  payload_of s job i = record {
    kind = job.kind;
    incident_id = job.incident_id;
    monitor_name = name_of_monitor s.monitors i;
    title = i.title;
    severity = i.severity;
    summary = i.summary;
    occurred_at = now;
  }

  -- A channel type with no transport fails at once; else the row is marked SENDING and sent.
  unfoldable pub send_over :
      Store
      → AlertJob
      → AlertChannel
      → Incident
      → Option (AlertChannel → AlertPayload → Sent)
      → JobOutcome × Store
  unfolding update_delivery
  send_over s job channel i none = (
    no_transport,
    update_delivery job.delivery_id (mark_failed (missing_transport channel.type)) s,
  )
  send_over s job channel i (some transport) =
      conclude (update_delivery job.delivery_id (mark_sending now) s) job channel
        (transport channel (payload_of s job i))

  -- The delivery's rows: it has a channel by its foreign key, and perhaps an incident.
  unfoldable pub deliver :
      Store
      → AlertJob
      → NotificationDelivery
      → Option AlertChannel
      → Option Incident
      → JobOutcome × Store
  deliver s job d none i = (no_delivery, s)
  deliver s job d (some c) none = (no_delivery, s)
  deliver s job d (some c) (some i) =
      if is_done d.status then (already_delivered, s) else send_over s job c i (transports c.type)

  unfoldable pub find_and_deliver :
      Store → AlertJob → Option NotificationDelivery → JobOutcome × Store
  find_and_deliver s job none = (no_delivery, s)
  find_and_deliver s job (some d) =
      deliver s job d (find (λ (c : AlertChannel). c.id == d.channel_id) s.channels)
        (find (λ (i : Incident). is_id i.id d.incident_id) s.incidents)

  unfoldable pub process_alert : Store → AlertJob → JobOutcome × Store
  process_alert s job =
      find_and_deliver s job
        (find (λ (d : NotificationDelivery). d.id == job.delivery_id) s.deliveries)
