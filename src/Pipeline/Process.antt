-- ===== src/Pipeline/Process.antt =====
-- pipeline.ts: `processCheckResult` and `recordHeartbeat`.
pub mod Steps
use mathlib.Core.Option
use uptimeflow.Common.{
  ℕ, Bool, true, false, ◌&&◌, Option, none, some, [], ◌==◌, find, if◌then◌else◌,
}
use uptimeflow.Enums.{RecordId, Instant, MonitorHealth, CheckStatus, ProbeRegion, is_heartbeat}
use uptimeflow.Snapshot.{MonitorSnapshot, ProbeOutcome, is_success}
use uptimeflow.StateMachine.{
  MonitorState, opens, resolves, nothing, TransitionResult, transition, same_state, to_health,
}
use uptimeflow.Store.{Store, MonitorRow, is_live}
use uptimeflow.Pipeline.Snapshots.{to_snapshot, is_in_maintenance}
pub use uptimeflow.Pipeline.Process.Steps.{
  ProcessOptions, PipelineTransition, down, recovered, Lifecycle, quiet,
}
unfoldable pub use uptimeflow.Pipeline.Process.Steps.{
  record_result, update_monitor, send_alerts, start_escalation, dispatch_integration, suppress,
  announce, after_open, on_open, after_resolve, on_resolve, on_relapse,
}

pub record ProcessResult : Type 0 where
  pub check_status : CheckStatus
  pub previous_health : MonitorHealth
  pub new_health : MonitorHealth
  pub state : MonitorState
  pub transition : Option PipelineTransition
  pub in_maintenance : Bool
  pub flapping : Bool
  pub incident_id : Option RecordId
  pub alerts_enqueued : ℕ

module _ (monitor : MonitorSnapshot) (outcome : ProbeOutcome) (opts : ProcessOptions) where
  -- 3. incident lifecycle + timeline + audit + alerts
  unfoldable pub run_lifecycle : TransitionResult → Store → Lifecycle × Store
  run_lifecycle decision s = elim decision.incident [
    | opens ↦ on_open monitor outcome opts s
    | resolves ↦ on_resolve monitor outcome opts s
    | nothing ↦
        if decision.changed && same_state decision.state MonitorState.down
        then on_relapse monitor outcome opts s
        else (quiet none, s)
  ]

  unfoldable pub decide : Store → TransitionResult
  decide s = transition (record {
    current = monitor.health;
    success = is_success outcome.status;
    prior_consecutive_failures = monitor.consecutive_failures;
    prior_consecutive_successes = monitor.consecutive_successes;
    failure_threshold = monitor.failure_threshold;
    success_threshold = monitor.success_threshold;
    in_maintenance = is_in_maintenance s monitor.id opts.now;
  })

  unfoldable pub process_check_result : Store → ProcessResult × Store
  process_check_result s =
      let decision = decide s in
      let (lifecycle, after) =
        run_lifecycle decision
          (update_monitor monitor outcome opts decision (record_result monitor outcome opts s)) in
      (
        record {
          check_status = outcome.status;
          previous_health = monitor.health;
          new_health = to_health decision.state;
          state = decision.state;
          transition = lifecycle.transition;
          in_maintenance = is_in_maintenance s monitor.id opts.now;
          flapping = lifecycle.flapping;
          incident_id = lifecycle.incident_id;
          alerts_enqueued = lifecycle.alerts_enqueued;
        },
        after,
      )

abbrev pub is_pingable : RecordId → MonitorRow → Bool
is_pingable monitor_id row =
    row.id == monitor_id && (is_heartbeat row.type && is_live row.deleted_at)

abbrev pub ping : ProbeOutcome
ping = record {
  status = CheckStatus.up;
  status_code = none;
  response_ms = some 0;
  error_type = none;
  error_message = none;
  cert = none;
  dns = none;
  domain = none;
  validations = [];
  attempts = 1;
}

abbrev pub ping_options : ProbeRegion → Instant → Bool → ProcessOptions
ping_options region now alerts = record {
  region = region;
  now = now;
  is_heartbeat_ping = true;
  alerts = alerts;
  integrations = false;
  escalation = none;
}

-- `recordHeartbeat`: `none` where the monitor is missing, deleted or no heartbeat. A ping is given
-- neither integrations nor an escalation engine.
unfoldable pub record_heartbeat :
    Store → RecordId → ProbeRegion → Instant → Bool → Option (ProcessResult × Store)
record_heartbeat s monitor_id region now alerts =
    Option.map
      (λ (row : MonitorRow).
        process_check_result (to_snapshot row) ping (ping_options region now alerts) s)
      (find (is_pingable monitor_id) s.monitors)
