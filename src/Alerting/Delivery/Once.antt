-- ===== src/Alerting/Delivery/Once.antt =====
-- At most one message for each delivery of alerting/processor.ts.
use uptimeflow.Common.{
  ◌≡◌, refl, ap, subst, true, inl, inr, Option, none, some, List, ◌==◌, find, Bool-cases, arith,
}
use uptimeflow.Common.Tables.{update_where, find-update}
use uptimeflow.Common.Text.{Text}
use uptimeflow.Enums.{RecordId, Instant}
use uptimeflow.Store.{
  Store, Incident, NotificationDelivery, AlertChannel, AlertJob, is_id, add_event,
}
use uptimeflow.Alerting.Delivery.{
  Transports, Sent, accepted, thrown, JobOutcome, already_delivered, delivered, AlertPayload,
  is_done, update_delivery, mark_sending, mark_delivered, conclude, send_over, deliver,
  find_and_deliver, process_alert,
}

abbrev row : RecordId → List NotificationDelivery → Option NotificationDelivery
row id = find (λ (d : NotificationDelivery). d.id == id)

-- An update by identifier that keeps the identifier updates the row that a query finds.
row-update :
    (id : RecordId) (f : NotificationDelivery → NotificationDelivery)
    (ds : List NotificationDelivery)
    → ((d : NotificationDelivery) → (f d).id ≡ d.id)
    → (d : NotificationDelivery) → row id ds ≡ some d
    → row id (update_where (λ (e : NotificationDelivery). e.id == id) f ds) ≡ some (f d)
row-update id f ds keeps d h =
    find-update (λ (e : NotificationDelivery). e.id == id) f (λ e. ap (λ k. k == id) (keeps e)) ds d
      h

abbrev channel_of : Store → NotificationDelivery → Option AlertChannel
channel_of s d = find (λ (c : AlertChannel). c.id == d.channel_id) s.channels

abbrev incident_of : Store → NotificationDelivery → Option Incident
incident_of s d = find (λ (i : Incident). is_id i.id d.incident_id) s.incidents

-- A delivery whose row says that it was delivered is left alone.
done :
    (transports : Transports) (now later : Instant) (s : Store) (job : AlertJob)
    (d : NotificationDelivery) (c : AlertChannel) (i : Incident)
    → row job.delivery_id s.deliveries ≡ some d
    → channel_of s d ≡ some c
    → incident_of s d ≡ some i
    → is_done d.status ≡ true
    → process_alert transports now later s job ≡ (already_delivered, s)
unfolding process_alert find_and_deliver deliver
done transports now later s job d c i h hc hi e = rw (h, hc, hi, e)

module _ (transports : Transports) (now later : Instant) (s s' : Store) (job : AlertJob) where
  row-sent :
      (m : Option Text) (d : NotificationDelivery)
      → row job.delivery_id s.deliveries ≡ some d
      → row job.delivery_id (
          update_where
            (λ (e : NotificationDelivery). e.id == job.delivery_id)
            (mark_delivered later m)
            (update_where
              (λ (e : NotificationDelivery). e.id == job.delivery_id)
              (mark_sending now)
              s.deliveries))
        ≡ some (mark_delivered later m (mark_sending now d))
  row-sent m d h =
      row-update job.delivery_id (mark_delivered later m) _ (λ d. refl) (mark_sending now d)
        (row-update job.delivery_id (mark_sending now) s.deliveries (λ d. refl) d h)

  module _ (again : Transports) (now_again later_again : Instant) where
    concluded :
        (d : NotificationDelivery) (c : AlertChannel) (i : Incident) (r : Sent)
        → row job.delivery_id s.deliveries ≡ some d
        → channel_of s d ≡ some c
        → incident_of s d ≡ some i
        → conclude transports now later
            (update_delivery job.delivery_id (mark_sending now) s)
            job
            c
            r
          ≡ (delivered, s')
        → process_alert again now_again later_again s' job ≡ (already_delivered, s')
    unfolding conclude update_delivery add_event
    concluded d c i (accepted m) h hc hi e =
        let same = ap (λ (r : JobOutcome × Store). r.1) e in
        subst (λ t. process_alert again now_again later_again t job ≡ (already_delivered, t)) same
          (done again now_again later_again _ job (mark_delivered later m (mark_sending now d)) c i
            (row-sent m d h) hc hi refl)
    concluded d c i (thrown m) h hc hi e = cc

    sent_over :
        (d : NotificationDelivery) (c : AlertChannel) (i : Incident)
        (t : Option (AlertChannel → AlertPayload → Sent))
        → row job.delivery_id s.deliveries ≡ some d
        → channel_of s d ≡ some c
        → incident_of s d ≡ some i
        → send_over transports now later s job c i t ≡ (delivered, s')
        → process_alert again now_again later_again s' job ≡ (already_delivered, s')
    unfolding send_over
    sent_over d c i none h hc hi e = cc
    sent_over d c i (some t) h hc hi e = concluded d c i _ h hc hi e

    delivered_by :
        (d : NotificationDelivery) (c : Option AlertChannel) (i : Option Incident)
        → row job.delivery_id s.deliveries ≡ some d
        → channel_of s d ≡ c
        → incident_of s d ≡ i
        → deliver transports now later s job d c i ≡ (delivered, s')
        → process_alert again now_again later_again s' job ≡ (already_delivered, s')
    unfolding deliver
    delivered_by d none i h hc hi e = cc
    delivered_by d (some c) none h hc hi e = cc
    delivered_by d (some c) (some i) h hc hi e = elim (Bool-cases (is_done d.status)) [
      | inl x ↦ ground (arith, x, e)
      | inr x ↦ sent_over d c i (transports c.type) h hc hi (rw x at e)
    ]

    found_by :
        (d : Option NotificationDelivery)
        → row job.delivery_id s.deliveries ≡ d
        → find_and_deliver transports now later s job d ≡ (delivered, s')
        → process_alert again now_again later_again s' job ≡ (already_delivered, s')
    unfolding find_and_deliver
    found_by none h e = cc
    found_by (some d) h e = delivered_by d (channel_of s d) (incident_of s d) h refl refl e

    -- Once a run of a delivery's job has had its message accepted, a later run of the same job
    -- finds the delivery done: whatever the transports and the times, it changes nothing.
    pub delivered_once :
        process_alert transports now later s job ≡ (delivered, s')
        → process_alert again now_again later_again s' job ≡ (already_delivered, s')
    unfolding process_alert
    delivered_once e = found_by (row job.delivery_id s.deliveries) refl e
