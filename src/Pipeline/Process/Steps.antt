-- ===== src/Pipeline/Process/Steps.antt =====
-- pipeline.ts: the writes of `processCheckResult`, and each branch of its incident lifecycle.
use uptimeflow.Common.{
  ℕ, Bool, true, false, not, ◌||◌, Option, none, some, [], ◌∷◌, ◌++◌, ◌==◌, if◌then◌else◌,
}
use uptimeflow.Common.Tables.{update_where}
use uptimeflow.Common.Text.{Text, codes}
use uptimeflow.Enums.{RecordId, Instant, ProbeRegion, is_heartbeat}
use uptimeflow.Snapshot.{MonitorSnapshot, ProbeOutcome, is_success}
use uptimeflow.StateMachine.{TransitionResult, to_health}
use uptimeflow.Store.{
  Store, MonitorRow, IncidentEvent, IncidentEventType, EventMetadata, no_metadata, flapping,
  AuditRow, AuditAction, ActorType, AlertKind, add_event, write_audit,
}
use uptimeflow.Alerting.Dispatch.{dispatch}
use uptimeflow.Escalation.Policy.{PolicyTables, start}
use uptimeflow.Pipeline.Snapshots.{detect_flapping}
use uptimeflow.Pipeline.Incidents.{
  cut_message, open_incident, find_open_incident_id, resolve_incident,
}

-- Which collaborators are wired; the tables are those that the escalation starter reads.
pub record ProcessOptions : Type 0 where
  pub region : ProbeRegion
  pub now : Instant
  pub is_heartbeat_ping : Bool
  pub alerts : Bool
  pub integrations : Bool
  pub escalation : Option PolicyTables

pub data PipelineTransition : Type 0 where
  down recovered : PipelineTransition

-- What the incident part of the pipeline reports.
pub record Lifecycle : Type 0 where
  pub transition : Option PipelineTransition
  pub flapping : Bool
  pub incident_id : Option RecordId
  pub alerts_enqueued : ℕ

abbrev pub quiet : Option RecordId → Lifecycle
quiet id = record { transition = none; flapping = false; incident_id = id; alerts_enqueued = 0 }

abbrev system_audit : RecordId → AuditAction → RecordId → AuditRow
system_audit organization_id action resource_id = record {
  organization_id = organization_id;
  actor_id = none;
  actor_type = ActorType.system;
  action = action;
  resource_id = resource_id;
}

abbrev status_event : RecordId → Text → EventMetadata → Instant → IncidentEvent
status_event incident_id message metadata now = record {
  incident_id = incident_id;
  type = IncidentEventType.status_changed;
  message = some message;
  actor_id = none;
  metadata = metadata;
  created_at = now;
}

module _ (monitor : MonitorSnapshot) (outcome : ProbeOutcome) (opts : ProcessOptions) where
  -- 1. raw result (append-only)
  unfoldable pub record_result : Store → Store
  record_result s = record s {
    results =
        s.results
        ++ record {
          organization_id = monitor.organization_id;
          monitor_id = monitor.id;
          region = opts.region;
          status = outcome.status;
          status_code = outcome.status_code;
          response_ms = outcome.response_ms;
          error_type = outcome.error_type;
          error_message = cut_message outcome.error_message;
          checked_at = opts.now;
        }
          ∷ [];
  }

  -- 2. denormalized monitor state; an evaluation of a heartbeat leaves the time of the last ping
  abbrev pub update_row : TransitionResult → MonitorRow → MonitorRow
  update_row decision row = record row {
    health = to_health decision.state;
    consecutive_failures = decision.consecutive_failures;
    consecutive_successes = decision.consecutive_successes;
    last_status_code = outcome.status_code;
    last_response_ms = outcome.response_ms;
    last_error = if is_success outcome.status then none else cut_message outcome.error_message;
    last_checked_at =
        if not (is_heartbeat monitor.type) || opts.is_heartbeat_ping
        then some opts.now
        else row.last_checked_at;
  }

  unfoldable pub update_monitor : TransitionResult → Store → Store
  update_monitor decision s = record s {
    monitors =
        update_where (λ (r : MonitorRow). r.id == monitor.id) (update_row decision) s.monitors;
  }

  -- `opts.alerts?.dispatch(…) ?? 0`
  unfoldable pub send_alerts : RecordId → AlertKind → Store → ℕ × Store
  send_alerts incident_id kind s =
      if opts.alerts
      then dispatch s
          (record {
            incident_id = incident_id;
            organization_id = monitor.organization_id;
            kind = kind;
          })
          monitor.id
      else (0, s)

  abbrev start_with : RecordId → Store → PolicyTables → RecordId → Store
  start_with incident_id s tables policy_id =
      (start tables s (record {
        incident_id = incident_id;
        organization_id = monitor.organization_id;
        monitor_id = some monitor.id;
        policy_id = policy_id;
      })).1

  unfoldable pub start_escalation : RecordId → Store → Store
  start_escalation incident_id s = elim monitor.escalation_policy_id [
    | none ↦ s
    | some policy_id ↦ elim opts.escalation [
      | none ↦ s
      | some tables ↦ start_with incident_id s tables policy_id
    ]
  ]

  -- `dispatchIntegration`: a call of the dispatcher, whose failure is swallowed
  unfoldable pub dispatch_integration : RecordId → AlertKind → Store → Store
  dispatch_integration incident_id kind s =
      if opts.integrations
      then record s {
        integration_calls =
            s.integration_calls
            ++ record {
              incident_id = incident_id;
              organization_id = monitor.organization_id;
              monitor_id = monitor.id;
              monitor_name = monitor.name;
              kind = kind;
            }
              ∷ [];
      }
      else s

  pub flapping_message : Text
  flapping_message = codes "Flapping detected — alert suppressed."

  pub relapse_message : Text
  relapse_message = codes "Still failing during recovery."

  -- A new incident of a flapping monitor is recorded and nobody is notified.
  unfoldable pub suppress : RecordId → Store → Lifecycle × Store
  unfolding add_event write_audit
  suppress incident_id s = (
    record {
      transition = some down;
      flapping = true;
      incident_id = some incident_id;
      alerts_enqueued = 0;
    },
    write_audit (add_event s (status_event incident_id flapping_message flapping opts.now))
        (system_audit monitor.organization_id AuditAction.monitor_flapping monitor.id),
  )

  -- A new incident is audited, and its channels, its policy and the integrations are set off.
  unfoldable pub announce : RecordId → Store → Lifecycle × Store
  unfolding write_audit
  announce incident_id s =
      let audited =
        write_audit s
          (system_audit monitor.organization_id AuditAction.incident_opened incident_id) in
      let (enqueued, alerted) = send_alerts incident_id AlertKind.opened audited in
      (
        record {
          transition = some down;
          flapping = false;
          incident_id = some incident_id;
          alerts_enqueued = enqueued;
        },
        dispatch_integration incident_id AlertKind.opened (start_escalation incident_id alerted),
      )

  -- Whether `openIncident` inserted a row decides what follows.
  unfoldable pub after_open : Bool → Option RecordId × Store → Lifecycle × Store
  after_open flaps (none, s) =
      (record { transition = none; flapping = flaps; incident_id = none; alerts_enqueued = 0 }, s)
  after_open flaps (some incident_id, s) =
      if flaps then suppress incident_id s else announce incident_id s

  unfoldable pub on_open : Store → Lifecycle × Store
  on_open s =
      after_open (detect_flapping s.incidents monitor.id opts.now)
        (open_incident s monitor outcome opts.now)

  unfoldable pub after_resolve : Option RecordId × Store → Lifecycle × Store
  unfolding write_audit
  after_resolve (none, s) = (quiet none, s)
  after_resolve (some incident_id, s) =
      let audited =
        write_audit s
          (system_audit monitor.organization_id AuditAction.incident_resolved incident_id) in
      let (enqueued, alerted) = send_alerts incident_id AlertKind.resolved audited in
      (
        record {
          transition = some recovered;
          flapping = false;
          incident_id = some incident_id;
          alerts_enqueued = enqueued;
        },
        dispatch_integration incident_id AlertKind.resolved alerted,
      )

  unfoldable pub on_resolve : Store → Lifecycle × Store
  on_resolve s = after_resolve (resolve_incident s monitor.id opts.now)

  -- RECOVERING → DOWN: the open incident persists, and the relapse is noted.
  unfoldable pub on_relapse : Store → Lifecycle × Store
  unfolding add_event
  on_relapse s = elim (find_open_incident_id s monitor.id) [
    | none ↦ (quiet none, s)
    | some incident_id ↦ (
      quiet (some incident_id),
      add_event s (status_event incident_id relapse_message no_metadata opts.now),
    )
  ]
