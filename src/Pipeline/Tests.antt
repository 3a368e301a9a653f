-- ===== src/Pipeline/Tests.antt =====
-- Checks of the sample monitor, which opens an incident at its second failure.
use uptimeflow.Common.{◌≡◌, refl, true, false, none, some, [], ◌∷◌, arith}
use uptimeflow.Enums.{MonitorHealth, MonitorType, CheckStatus, ProbeRegion, IncidentStatus}
use uptimeflow.Snapshot.{MonitorSnapshot, is_success}
use uptimeflow.StateMachine.{transition}
use uptimeflow.Store.{Store, write_audit, AlertKind}
use uptimeflow.Store.Consistency.{IsConsistent, unresolved, latest_unresolved}
use uptimeflow.Alerting.Dispatch.{live_bindings, enqueue_each, dispatch}
use uptimeflow.Pipeline.Snapshots.{to_snapshot, is_in_maintenance, detect_flapping}
use uptimeflow.Pipeline.Incidents.{open_incident}
use uptimeflow.Pipeline.Process.{
  ping, ping_options, ProcessResult, decide, process_check_result, record_heartbeat, record_result,
  update_monitor, send_alerts, announce, after_open, on_open, run_lifecycle,
}
use uptimeflow.Pipeline.Outages.{
  process-IsConsistent, process-opens, process-resolves, process-outage,
}
use uptimeflow.Pipeline.Effects.{record_heartbeat-calls}
use uptimeflow.Pipeline.Alerts.{posted, sent, context_for, process-alerts}
use uptimeflow.Pipeline.Results.{is_checked, is_checkable, Settles, process_check_job-Settles}
use uptimeflow.Pipeline.Tenancy.{tenant_view, process-tenant_view}
use uptimeflow.Pipeline.Processor.{Probe, CheckProcessorDeps, CheckJob, process_check_job}
use uptimeflow.Samples.{
  runtime, signal_of, other_org, row_of, monitor_of, outcome_of, incident_of, closed_incident,
  store_of, options,
}

abbrev quiet_store : Store
quiet_store = store_of []

abbrev down_store : Store
down_store = store_of (incident_of 50 IncidentStatus.opened 1_000 ∷ [])

-- Three incidents have begun within the last half hour.
abbrev flapping_store : Store
flapping_store =
    store_of
      (closed_incident 50 1_000 ∷ (closed_incident 51 2_000 ∷ (closed_incident 52 3_000 ∷ [])))

abbrev about_to_fail : MonitorSnapshot
about_to_fail = monitor_of MonitorHealth.up 1

abbrev failing : MonitorSnapshot
failing = monitor_of MonitorHealth.down 2

quiet-IsConsistent : IsConsistent quiet_store.incidents
quiet-IsConsistent = record { keyed = tt; single = λ m. omega arith }

down-IsConsistent : IsConsistent down_store.incidents
down-IsConsistent = record { keyed = (λ m. ground arith, tt); single = λ m. ground arith }

-- The second failure opens an incident and alerts the one channel.
opens_and_alerts :
    (process_check_result about_to_fail
      (outcome_of CheckStatus.down)
      options
      quiet_store).0.alerts_enqueued
    ≡ 1
unfolding process_check_result decide transition to_snapshot is_in_maintenance run_lifecycle on_open
    open_incident after_open announce send_alerts dispatch enqueue_each live_bindings record_result
    update_monitor detect_flapping is_success write_audit
opens_and_alerts = refl

process-IsConsistent_example :
    IsConsistent
      (process_check_result about_to_fail
        (outcome_of CheckStatus.down)
        options
        quiet_store).1.incidents
process-IsConsistent_example =
    process-IsConsistent about_to_fail (outcome_of CheckStatus.down) options quiet_store
      quiet-IsConsistent

process-opens_example :
    unresolved 7
      (process_check_result about_to_fail
        (outcome_of CheckStatus.down)
        options
        quiet_store).1.incidents
    ≡ 1
unfolding decide transition to_snapshot is_in_maintenance is_success
process-opens_example =
    process-opens about_to_fail (outcome_of CheckStatus.down) options quiet_store quiet-IsConsistent
      refl

process-resolves_example :
    unresolved 7
      (process_check_result failing (outcome_of CheckStatus.up) options down_store).1.incidents
    ≡ 0
unfolding decide transition to_snapshot is_in_maintenance is_success
process-resolves_example =
    process-resolves failing (outcome_of CheckStatus.up) options down_store down-IsConsistent refl

process-outage_example :
    unresolved 7
      (process_check_result failing (outcome_of CheckStatus.down) options down_store).1.incidents
    ≡ 1
unfolding process_check_result decide transition to_snapshot is_in_maintenance is_success
process-outage_example =
    process-outage failing (outcome_of CheckStatus.down) options down_store down-IsConsistent
      (λ h. refl) refl

-- The check that ends the outage owes a recovery notice.
process-alerts_example :
    let r = process_check_result failing (outcome_of CheckStatus.up) options down_store in
    posted r.0.alerts_enqueued r.1
    ≡ sent failing (outcome_of CheckStatus.up) options down_store (
        some (
          context_for failing (outcome_of CheckStatus.up) options 50 AlertKind.resolved,
          down_store.next_id,
        ))
unfolding decide transition to_snapshot is_in_maintenance is_success latest_unresolved
process-alerts_example = process-alerts failing (outcome_of CheckStatus.up) options down_store

abbrev beating_store : Store
beating_store = record down_store {
  monitors = row_of MonitorType.heartbeat MonitorHealth.down 2 ∷ [];
}

abbrev beaten : ProcessResult × Store
beaten =
    process_check_result (to_snapshot (row_of MonitorType.heartbeat MonitorHealth.down 2)) ping
      (ping_options ProbeRegion.na_east 5_000 true) beating_store

record_heartbeat-calls_example : (beaten.1.integration_calls ≡ []) × (beaten.1.escalation_jobs ≡ [])
unfolding record_heartbeat
record_heartbeat-calls_example =
    record_heartbeat-calls beating_store beaten.1 beaten.0 7 ProbeRegion.na_east 5_000 true refl

process-tenant_view_example :
    tenant_view other_org
      (process_check_result about_to_fail (outcome_of CheckStatus.down) options quiet_store).1
    ≡ tenant_view other_org quiet_store
unfolding to_snapshot
process-tenant_view_example =
    process-tenant_view about_to_fail (outcome_of CheckStatus.down) options other_org
      (λ h. omega arith) quiet_store

abbrev http_probe : Probe
http_probe monitor k = some (signal_of true 503)

abbrev deps : CheckProcessorDeps
deps = record {
  probes = λ type. elim type [ MonitorType.http ↦ some http_probe | _ ↦ none ];
  alerts = true;
  integrations = false;
  escalation = none;
}

abbrev queued : CheckJob
queued = record { monitor_id = 7; region = ProbeRegion.na_east }

process_check_job-Settles_example :
    (is_checked (process_check_job runtime deps 5_000 quiet_store queued).0
      ≡ is_checkable runtime deps 5_000 quiet_store ProbeRegion.na_east
          (some (row_of MonitorType.http MonitorHealth.up 0)))
    × Settles 7 quiet_store (process_check_job runtime deps 5_000 quiet_store queued)
process_check_job-Settles_example = process_check_job-Settles runtime deps 5_000 quiet_store queued
