-- ===== src/Pipeline/Incidents.antt =====
-- pipeline.ts: opening, finding and resolving a monitor's incident.
use mathlib.Core.Option
use uptimeflow.Common.{
  ℕ, suc, ◌+◌, ◌-◌, ◌/◌, Option, none, some, [], ◌∷◌, ◌++◌, ◌==◌, any, take, or_else, if◌then◌else◌,
}
use uptimeflow.Common.Tables.{update_where}
use uptimeflow.Common.Text.{Text, codes, decimal}
use uptimeflow.Enums.{RecordId, Instant, MonitorType, IncidentStatus}
use uptimeflow.Snapshot.{MonitorSnapshot, ProbeOutcome}
use uptimeflow.Store.{
  Store, Incident, IncidentSeverity, IncidentEvent, IncidentEventType, detection, no_metadata,
  holds_key, add_event,
}
use uptimeflow.Store.Consistency.{latest_unresolved}

abbrev pub max_err : ℕ
max_err = 500

-- `outcome.errorMessage?.slice(0, MAX_ERR)`
abbrev pub cut_message : Option Text → Option Text
cut_message = Option.map (take max_err)

pub type_name : MonitorType → Text
type_name MonitorType.http = codes "HTTP"
type_name MonitorType.tcp = codes "TCP"
type_name MonitorType.ping = codes "PING"
type_name MonitorType.dns = codes "DNS"
type_name MonitorType.keyword = codes "KEYWORD"
type_name MonitorType.ssl = codes "SSL"
type_name MonitorType.port = codes "PORT"
type_name MonitorType.heartbeat = codes "HEARTBEAT"
type_name MonitorType.grpc = codes "GRPC"
type_name MonitorType.domain = codes "DOMAIN"

pub down_title : Text → Text
down_title name = name ++ codes " is down"

pub failed_summary : MonitorType → Text
failed_summary type = type_name type ++ codes " check failed"

abbrev pub new_incident : MonitorSnapshot → ProbeOutcome → Instant → RecordId → Incident
new_incident monitor outcome now id = record {
  id = id;
  organization_id = monitor.organization_id;
  monitor_id = some monitor.id;
  status = IncidentStatus.opened;
  severity = IncidentSeverity.major;
  title = down_title monitor.name;
  summary = some (or_else (cut_message outcome.error_message) (failed_summary monitor.type));
  cause = outcome.error_type;
  fingerprint = some monitor.id;
  started_at = now;
  acknowledged_at = none;
  acknowledged_by_id = none;
  resolved_at = none;
  duration_sec = none;
  created_at = now;
}

abbrev detected : ProbeOutcome → Instant → RecordId → IncidentEvent
detected outcome now id = record {
  incident_id = id;
  type = IncidentEventType.detected;
  message = cut_message outcome.error_message;
  actor_id = none;
  metadata = detection outcome.error_type outcome.status;
  created_at = now;
}

-- `openIncident`: the insert collides with the unique key (monitorId, fingerprint) while an
-- incident of the monitor still holds it.
unfoldable pub open_incident :
    Store → MonitorSnapshot → ProbeOutcome → Instant → Option RecordId × Store
open_incident s monitor outcome now =
    if any (holds_key monitor.id) s.incidents then (none, s) else (
      some s.next_id,
      record s {
        incidents = s.incidents ++ new_incident monitor outcome now s.next_id ∷ [];
        events = s.events ++ detected outcome now s.next_id ∷ [];
        next_id = suc s.next_id;
      },
    )

unfoldable pub find_open_incident_id : Store → RecordId → Option RecordId
find_open_incident_id s monitor_id =
    Option.map (λ (i : Incident). i.id) (latest_unresolved monitor_id s.incidents)

-- `Math.max(0, Math.round((now - startedAt) / 1000))`
abbrev pub duration_sec : Instant → Instant → ℕ
duration_sec now started_at = (now - started_at + 500) / 1000

abbrev pub close_incident : Instant → ℕ → Incident → Incident
close_incident now seconds i = record i {
  status = IncidentStatus.resolved;
  fingerprint = none;
  resolved_at = some now;
  duration_sec = some seconds;
}

pub recovered_message : ℕ → Text
recovered_message seconds = codes "Recovered after " ++ (decimal seconds ++ codes "s.")

abbrev pub closing_event : RecordId → Option Text → Option RecordId → Instant → IncidentEvent
closing_event id message actor_id now = record {
  incident_id = id;
  type = IncidentEventType.resolved;
  message = message;
  actor_id = actor_id;
  metadata = no_metadata;
  created_at = now;
}

unfoldable pub close : Store → Instant → Option Incident → Option RecordId × Store
unfolding add_event
close s now none = (none, s)
close s now (some i) =
    let seconds = duration_sec now i.started_at in
    (
      some i.id,
      add_event
          (record s {
            incidents =
                update_where (λ (j : Incident). j.id == i.id) (close_incident now seconds)
                  s.incidents;
          })
          (closing_event i.id (some (recovered_message seconds)) none now),
    )

unfoldable pub resolve_incident : Store → RecordId → Instant → Option RecordId × Store
unfolding close
resolve_incident s monitor_id now = close s now (latest_unresolved monitor_id s.incidents)
