-- ===== src/Store.antt =====
-- The tables of packages/db/prisma/schema.prisma that the monitoring engine and the incident
-- service share, and the job queues, as one state. A table is the list of its rows in the order of
-- insertion; a job queue is the list of the jobs added to it.
pub mod Consistency
use uptimeflow.Common.{
  ℕ, Bool, true, false, not, ◌&&◌, Option, none, some, List, [], ◌∷◌, ◌++◌, ◌==◌,
}
use uptimeflow.Common.Text.{Text}
use uptimeflow.Enums.{
  RecordId, Instant, MonitorType, MonitorHealth, CheckStatus, ProbeRegion, IncidentStatus,
  is_resolved,
}
use uptimeflow.Snapshot.{AssertionDef, HttpMethod}

pub data IncidentSeverity : Type 0 where
  critical major minor warning : IncidentSeverity

pub data IncidentEventType : Type 0 where
  detected acknowledged escalated notification_sent comment status_changed resolved reopened :
      IncidentEventType

pub data NotificationStatus : Type 0 where
  pending sending sent delivered failed bounced : NotificationStatus

pub data AlertChannelType : Type 0 where
  email sms voice slack discord telegram microsoft_teams webhook pagerduty opsgenie :
      AlertChannelType

pub data AlertKind : Type 0 where
  opened resolved : AlertKind

pub data MonitorLifecycle : Type 0 where
  active paused disabled : MonitorLifecycle

pub record MonitorRow : Type 0 where
  pub id : RecordId
  pub organization_id : RecordId
  pub name : Text
  pub type : MonitorType
  pub lifecycle : MonitorLifecycle
  pub deleted_at : Option Instant
  pub url : Option Text
  pub host : Option Text
  pub port : Option ℕ
  pub http_method : Option HttpMethod
  pub request_headers : Option (List (Text × Text))
  pub request_body : Option Text
  pub expected_status : Option ℕ
  pub keyword : Option Text
  pub keyword_inverted : Bool
  pub follow_redirects : Bool
  pub verify_ssl : Bool
  pub timeout_seconds : ℕ
  pub retries : ℕ
  pub interval_seconds : ℕ
  pub failure_threshold : ℕ
  pub success_threshold : ℕ
  pub escalation_policy_id : Option RecordId
  pub health : MonitorHealth
  pub consecutive_failures : ℕ
  pub consecutive_successes : ℕ
  pub last_checked_at : Option Instant
  pub last_status_code : Option ℕ
  pub last_response_ms : Option ℕ
  pub last_error : Option Text
  pub assertions : List AssertionDef

-- The fingerprint `${id}:down` stands as the monitor's identifier.
pub record Incident : Type 0 where
  pub id : RecordId
  pub organization_id : RecordId
  pub monitor_id : Option RecordId
  pub status : IncidentStatus
  pub severity : IncidentSeverity
  pub title : Text
  pub summary : Option Text
  pub cause : Option Text
  pub fingerprint : Option RecordId
  pub started_at : Instant
  pub acknowledged_at : Option Instant
  pub acknowledged_by_id : Option RecordId
  pub resolved_at : Option Instant
  pub duration_sec : Option ℕ
  pub created_at : Instant

pub data EventMetadata : Type 0 where
  no_metadata flapping : EventMetadata
  detection : Option Text → CheckStatus → EventMetadata
  sent_via : RecordId → AlertChannelType → RecordId → EventMetadata
  paging : ℕ → List RecordId → List RecordId → List RecordId → List RecordId → EventMetadata

pub record IncidentEvent : Type 0 where
  pub incident_id : RecordId
  pub type : IncidentEventType
  pub message : Option Text
  pub actor_id : Option RecordId
  pub metadata : EventMetadata
  pub created_at : Instant

pub data ActorType : Type 0 where
  system user api_key : ActorType

pub data AuditAction : Type 0 where
  monitor_flapping incident_opened incident_resolved incident_escalated incident_acknowledged
        incident_commented :
      AuditAction

pub record AuditRow : Type 0 where
  pub organization_id : RecordId
  pub actor_id : Option RecordId
  pub actor_type : ActorType
  pub action : AuditAction
  pub resource_id : RecordId

pub record CheckResult : Type 0 where
  pub organization_id : RecordId
  pub monitor_id : RecordId
  pub region : ProbeRegion
  pub status : CheckStatus
  pub status_code : Option ℕ
  pub response_ms : Option ℕ
  pub error_type : Option Text
  pub error_message : Option Text
  pub checked_at : Instant

pub record MaintenanceWindow : Type 0 where
  pub suppress_alerts : Bool
  pub starts_at : Instant
  pub ends_at : Instant
  pub monitors : List RecordId

pub record AlertChannel : Type 0 where
  pub id : RecordId
  pub organization_id : RecordId
  pub type : AlertChannelType
  pub name : Text
  pub enabled : Bool
  pub deleted_at : Option Instant

pub record NotificationDelivery : Type 0 where
  pub id : RecordId
  pub organization_id : RecordId
  pub channel_id : RecordId
  pub incident_id : Option RecordId
  pub status : NotificationStatus
  pub attempts : ℕ
  pub provider_message_id : Option Text
  pub last_error : Option Text
  pub sent_at : Option Instant
  pub delivered_at : Option Instant

pub record AlertJob : Type 0 where
  pub delivery_id : RecordId
  pub incident_id : RecordId
  pub channel_id : RecordId
  pub organization_id : RecordId
  pub kind : AlertKind

pub record EscalationJob : Type 0 where
  pub incident_id : RecordId
  pub organization_id : RecordId
  pub monitor_id : Option RecordId
  pub policy_id : RecordId
  pub step_index : ℕ
  pub round : ℕ

-- A call of the injected integration dispatcher.
pub record IntegrationCall : Type 0 where
  pub incident_id : RecordId
  pub organization_id : RecordId
  pub monitor_id : RecordId
  pub monitor_name : Text
  pub kind : AlertKind

pub record Store : Type 0 where
  pub monitors : List MonitorRow
  pub incidents : List Incident
  pub events : List IncidentEvent
  pub audits : List AuditRow
  pub results : List CheckResult
  pub windows : List MaintenanceWindow
  pub channels : List AlertChannel
  -- (monitor, channel)
  pub bindings : List (RecordId × RecordId)
  pub deliveries : List NotificationDelivery
  pub alert_jobs : List AlertJob
  -- a job with its delay in milliseconds
  pub escalation_jobs : List (EscalationJob × ℕ)
  pub integration_calls : List IntegrationCall
  -- the next identifier that the database hands out
  pub next_id : RecordId

abbrev pub is_id : RecordId → Option RecordId → Bool
is_id k none = false
is_id k (some j) = j == k

-- `{ monitorId, status: { not: "RESOLVED" } }`
abbrev pub is_unresolved_of : RecordId → Incident → Bool
is_unresolved_of m i = is_id m i.monitor_id && not (is_resolved i.status)

-- the unique key (monitorId, fingerprint), at the fingerprint of monitor `m`
abbrev pub holds_key : RecordId → Incident → Bool
holds_key m i = is_id m i.monitor_id && is_id m i.fingerprint

-- `deletedAt: null`
abbrev pub is_live : Option Instant → Bool
is_live none = true
is_live (some t) = false

unfoldable pub add_event : Store → IncidentEvent → Store
add_event s e = record s { events = s.events ++ e ∷ [] }

unfoldable pub write_audit : Store → AuditRow → Store
write_audit s a = record s { audits = s.audits ++ a ∷ [] }
