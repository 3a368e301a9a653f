-- ===== src/Alerting/Dispatch.antt =====
-- packages/monitoring/src/alerting/dispatcher.ts: one PENDING delivery and one job per channel.
pub mod Laws
use uptimeflow.Common.{
  ℕ, suc, ◌+◌, Bool, ◌&&◌, none, some, List, [], ◌∷◌, ◌++◌, map, ◌==◌, any, select, length,
  if◌then◌else◌,
}
use uptimeflow.Enums.{RecordId}
use uptimeflow.Store.{
  Store, AlertKind, AlertChannel, AlertJob, NotificationDelivery, NotificationStatus, is_live,
}

pub record AlertContext : Type 0 where
  pub incident_id : RecordId
  pub organization_id : RecordId
  pub kind : AlertKind

abbrev pub is_deliverable : RecordId → AlertChannel → Bool
is_deliverable channel_id c = c.id == channel_id && (c.enabled && is_live c.deleted_at)

-- The channels bound to a monitor, enabled and not deleted.
unfoldable pub live_bindings : Store → RecordId → List RecordId
live_bindings s monitor_id =
    map (λ (b : RecordId × RecordId). b.1)
      (select
        (λ (b : RecordId × RecordId). b.0 == monitor_id && any (is_deliverable b.1) s.channels)
        s.bindings)

abbrev pub new_delivery : AlertContext → RecordId → RecordId → NotificationDelivery
new_delivery ctx channel_id id = record {
  id = id;
  organization_id = ctx.organization_id;
  channel_id = channel_id;
  incident_id = some ctx.incident_id;
  status = NotificationStatus.pending;
  attempts = 0;
  provider_message_id = none;
  last_error = none;
  sent_at = none;
  delivered_at = none;
}

abbrev pub new_job : AlertContext → RecordId → RecordId → AlertJob
new_job ctx channel_id id = record {
  delivery_id = id;
  incident_id = ctx.incident_id;
  channel_id = channel_id;
  organization_id = ctx.organization_id;
  kind = ctx.kind;
}

-- One round of either loop: the row, then the job.
abbrev pub enqueue : AlertContext → RecordId → Store → Store
enqueue ctx channel_id s = record s {
  deliveries = s.deliveries ++ new_delivery ctx channel_id s.next_id ∷ [];
  alert_jobs = s.alert_jobs ++ new_job ctx channel_id s.next_id ∷ [];
  next_id = suc s.next_id;
}

unfoldable pub enqueue_each : AlertContext → List RecordId → Store → ℕ → ℕ × Store
enqueue_each ctx [] s enqueued = (enqueued, s)
enqueue_each ctx (channel_id ∷ rest) s enqueued =
    enqueue_each ctx rest (enqueue ctx channel_id s) (enqueued + 1)

unfoldable pub dispatch : Store → AlertContext → RecordId → ℕ × Store
unfolding enqueue_each
dispatch s ctx monitor_id = enqueue_each ctx (live_bindings s monitor_id) s 0

abbrev pub is_own_channel : AlertContext → RecordId → AlertChannel → Bool
is_own_channel ctx channel_id c =
    c.id == channel_id
    && (c.organization_id == ctx.organization_id && (c.enabled && is_live c.deleted_at))

-- The loop of dispatchToChannels: the channel is looked up again for each identifier.
unfoldable pub dispatch_each : AlertContext → List RecordId → Store → ℕ → ℕ × Store
dispatch_each ctx [] s enqueued = (enqueued, s)
dispatch_each ctx (channel_id ∷ rest) s enqueued =
    let skipped = dispatch_each ctx rest s enqueued in
    let sent = dispatch_each ctx rest (enqueue ctx channel_id s) (enqueued + 1) in
    if any (is_own_channel ctx channel_id) s.channels then sent else skipped

unfoldable pub dispatch_to_channels : Store → AlertContext → List RecordId → ℕ × Store
unfolding dispatch_each
dispatch_to_channels s ctx channel_ids = dispatch_each ctx channel_ids s 0

-- The rows and the jobs for a list of channels, with identifiers handed out in order.
abbrev pub rows_for : AlertContext → List RecordId → RecordId → List NotificationDelivery
rows_for ctx [] id = []
rows_for ctx (c ∷ cs) id = new_delivery ctx c id ∷ rows_for ctx cs (suc id)

abbrev pub jobs_for : AlertContext → List RecordId → RecordId → List AlertJob
jobs_for ctx [] id = []
jobs_for ctx (c ∷ cs) id = new_job ctx c id ∷ jobs_for ctx cs (suc id)

-- The store after the fan-out to a list of channels: nothing but these rows and jobs is new.
abbrev pub fanned_out : AlertContext → List RecordId → Store → Store
fanned_out ctx channels s = record s {
  deliveries = s.deliveries ++ rows_for ctx channels s.next_id;
  alert_jobs = s.alert_jobs ++ jobs_for ctx channels s.next_id;
  next_id = s.next_id + length channels;
}
