-- ===== src/IncidentService.antt =====
-- apps/api/src/services/incident.service.ts: incidents as people handle them. Every query names the
-- organization; an acknowledgement and a resolution act on the state the incident is in.
pub mod Scope
pub mod Handling
pub mod Listing
mod Tests
use mathlib.Core.Option
use uptimeflow.Common.{ℕ, ◌&&◌, Option, none, some, List, map, ◌==◌, find, select, if◌then◌else◌}
use uptimeflow.Common.Tables.{update_where}
use uptimeflow.Common.Text.{Text, codes}
use uptimeflow.Enums.{RecordId, Instant, IncidentStatus, is_open, is_resolved}
use uptimeflow.Store.{
  Store, MonitorRow, Incident, IncidentSeverity, IncidentEvent, IncidentEventType, no_metadata,
  AuditRow, AuditAction, ActorType, is_id, add_event, write_audit,
}
use uptimeflow.Pipeline.Incidents.{duration_sec, close_incident, closing_event}

pub record IncidentListItem : Type 0 where
  pub id : RecordId
  pub status : IncidentStatus
  pub severity : IncidentSeverity
  pub title : Text
  pub summary : Option Text
  pub monitor_id : Option RecordId
  pub monitor_name : Option Text
  pub started_at : Instant
  pub acknowledged_at : Option Instant
  pub resolved_at : Option Instant
  pub duration_sec : Option ℕ
  pub created_at : Instant

pub record IncidentDetail : Type 0 where
  pub item : IncidentListItem
  pub cause : Option Text
  pub acknowledged_by_id : Option RecordId
  pub events : List IncidentEvent

pub record IncidentActor : Type 0 where
  pub user_id : Option RecordId
  pub actor_type : ActorType

abbrev name_of : List MonitorRow → Incident → Option Text
name_of monitors i =
    Option.map (λ (m : MonitorRow). m.name)
      (find (λ (m : MonitorRow). is_id m.id i.monitor_id) monitors)

abbrev pub to_list_item : List MonitorRow → Incident → IncidentListItem
to_list_item monitors i = record {
  id = i.id;
  status = i.status;
  severity = i.severity;
  title = i.title;
  summary = i.summary;
  monitor_id = i.monitor_id;
  monitor_name = name_of monitors i;
  started_at = i.started_at;
  acknowledged_at = i.acknowledged_at;
  resolved_at = i.resolved_at;
  duration_sec = i.duration_sec;
  created_at = i.created_at;
}

-- `findFirst({ where: { id, organizationId } })`
unfoldable pub find_scoped : Store → RecordId → RecordId → Option Incident
find_scoped s org id =
    find (λ (i : Incident). (i.id == id) && (i.organization_id == org)) s.incidents

-- Events are appended as time goes on, so that the table's order is that of `createdAt`.
abbrev pub detail_of : Store → Incident → IncidentDetail
detail_of s i = record {
  item = to_list_item s.monitors i;
  cause = i.cause;
  acknowledged_by_id = i.acknowledged_by_id;
  events = select (λ (e : IncidentEvent). e.incident_id == i.id) s.events;
}

unfoldable pub load_detail : Store → RecordId → RecordId → Option IncidentDetail
unfolding find_scoped
load_detail s org id = Option.map (detail_of s) (find_scoped s org id)

abbrev pub acknowledge_incident : Instant → Option RecordId → Incident → Incident
acknowledge_incident now user i = record i {
  status = IncidentStatus.acknowledged;
  acknowledged_at = some now;
  acknowledged_by_id = user;
}

abbrev pub acknowledged_event : RecordId → IncidentActor → Instant → IncidentEvent
acknowledged_event id actor now = record {
  incident_id = id;
  type = IncidentEventType.acknowledged;
  message = some (codes "Acknowledged.");
  actor_id = actor.user_id;
  metadata = no_metadata;
  created_at = now;
}

abbrev pub comment_event : RecordId → Text → IncidentActor → Instant → IncidentEvent
comment_event id message actor now = record {
  incident_id = id;
  type = IncidentEventType.comment;
  message = some message;
  actor_id = actor.user_id;
  metadata = no_metadata;
  created_at = now;
}

abbrev pub audit_of : RecordId → RecordId → IncidentActor → AuditAction → AuditRow
audit_of org id actor action = record {
  organization_id = org;
  actor_id = actor.user_id;
  actor_type = actor.actor_type;
  action = action;
  resource_id = id;
}

-- `incident.update({ where: { id }, data })`
unfoldable pub update_incident : RecordId → (Incident → Incident) → Store → Store
update_incident id f s = record s {
  incidents = update_where (λ (i : Incident). i.id == id) f s.incidents;
}

unfoldable pub acknowledge_existing :
    Store → RecordId → RecordId → IncidentActor → Instant → Option Incident → Store
unfolding add_event write_audit update_incident
acknowledge_existing s org id actor now none = s
acknowledge_existing s org id actor now (some i) =
    if is_open i.status
    then write_audit
        (add_event (update_incident id (acknowledge_incident now actor.user_id) s)
          (acknowledged_event id actor now))
        (audit_of org id actor AuditAction.incident_acknowledged)
    else s

unfoldable pub acknowledge :
    Store → RecordId → RecordId → IncidentActor → Instant → Option IncidentDetail × Store
unfolding find_scoped load_detail acknowledge_existing
acknowledge s org id actor now =
    let after = acknowledge_existing s org id actor now (find_scoped s org id) in
    (load_detail after org id, after)

unfoldable pub resolve_existing :
    Store → RecordId → RecordId → IncidentActor → Instant → Option Incident → Store
unfolding add_event write_audit update_incident
resolve_existing s org id actor now none = s
resolve_existing s org id actor now (some i) =
    if is_resolved i.status
    then s
    else write_audit
        (add_event (update_incident id (close_incident now (duration_sec now i.started_at)) s)
          (closing_event id (some (codes "Resolved manually.")) actor.user_id now))
        (audit_of org id actor AuditAction.incident_resolved)

unfoldable pub resolve :
    Store → RecordId → RecordId → IncidentActor → Instant → Option IncidentDetail × Store
unfolding find_scoped load_detail resolve_existing
resolve s org id actor now =
    let after = resolve_existing s org id actor now (find_scoped s org id) in
    (load_detail after org id, after)

unfoldable pub comment_existing :
    Store
    → RecordId
    → RecordId
    → Text
    → IncidentActor
    → Instant
    → Option Incident
    → Option IncidentEvent × Store
unfolding add_event write_audit
comment_existing s org id message actor now none = (none, s)
comment_existing s org id message actor now (some i) =
    let event = comment_event id message actor now in
    (
      some event,
      write_audit (add_event s event) (audit_of org id actor AuditAction.incident_commented),
    )

unfoldable pub comment :
    Store → RecordId → RecordId → Text → IncidentActor → Instant → Option IncidentEvent × Store
unfolding find_scoped comment_existing
comment s org id message actor now =
    comment_existing s org id message actor now (find_scoped s org id)
