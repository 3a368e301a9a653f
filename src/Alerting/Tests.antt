-- ===== src/Alerting/Tests.antt =====
-- Two channels of the sample organization, one of them switched off, and one delivery.
use uptimeflow.Common.{◌≡◌, refl, false, none, some, [], ◌∷◌}
use uptimeflow.Common.Text.{codes}
use uptimeflow.Enums.{IncidentStatus}
use uptimeflow.Store.{Store, AlertKind, AlertJob, AlertChannel, AlertChannelType, add_event}
use uptimeflow.Alerting.Dispatch.{AlertContext, live_bindings, enqueue_each, dispatch}
use uptimeflow.Alerting.Delivery.{
  Transports, accepted, already_delivered, update_delivery, conclude, send_over, deliver,
  find_and_deliver, process_alert,
}
use uptimeflow.Alerting.Delivery.Once.{delivered_once}
use uptimeflow.Samples.{org, incident_of, store_of, email_channel}

abbrev muted : AlertChannel
muted = record email_channel { id = 21; enabled = false }

abbrev outage : Store
outage =
    let s = store_of (incident_of 50 IncidentStatus.opened 1_000 ∷ []) in
    record s {
      channels = email_channel ∷ (muted ∷ []);
      bindings = (7, 21) ∷ ((7, 20) ∷ ((8, 20) ∷ []));
    }

abbrev context : AlertContext
context = record { incident_id = 50; organization_id = org; kind = AlertKind.opened }

only_the_live_channel : live_bindings outage 7 ≡ 20 ∷ []
unfolding live_bindings
only_the_live_channel = refl

abbrev by_email : Transports
by_email type = elim type [
  | AlertChannelType.email ↦ some (λ channel payload. accepted (some (codes "m1")))
  | _ ↦ none
]

abbrev queued : Store
queued = (dispatch outage context 7).1

abbrev job : AlertJob
job = record {
  delivery_id = 100;
  incident_id = 50;
  channel_id = 20;
  organization_id = org;
  kind = AlertKind.opened;
}

abbrev sent : Store
sent = (process_alert by_email 6_000 6_100 queued job).1

delivered_once_example : process_alert by_email 7_000 7_100 sent job ≡ (already_delivered, sent)
unfolding process_alert find_and_deliver deliver send_over conclude update_delivery add_event
    dispatch enqueue_each live_bindings
delivered_once_example =
    delivered_once by_email 6_000 6_100 queued sent job by_email 7_000 7_100 refl
