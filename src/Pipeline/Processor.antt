-- ===== src/Pipeline/Processor.antt =====
-- packages/monitoring/src/processor.ts: one job of the monitor-check queue, from the monitor's row
-- to the pipeline. The probes are parameters.
use uptimeflow.Common.{
  ℕ, inl, inr, Bool, true, false, ◌&&◌, Option, none, some, ◌==◌, find, if◌then◌else◌, Bool-cases,
}
use uptimeflow.Enums.{RecordId, Instant, MonitorType, CheckStatus, ProbeRegion}
use uptimeflow.Runtime.{Runtime}
use uptimeflow.Snapshot.{MonitorSnapshot, ProbeSignal, ProbeOutcome}
use uptimeflow.Checks.Execute.{execute_check}
use uptimeflow.Escalation.Policy.{PolicyTables}
use uptimeflow.Store.{Store, MonitorRow, MonitorLifecycle, is_live}
use uptimeflow.Store.Consistency.{IsConsistent}
use uptimeflow.Pipeline.Snapshots.{to_snapshot}
use uptimeflow.Pipeline.Process.{
  PipelineTransition, ProcessOptions, ProcessResult, process_check_result,
}
use uptimeflow.Pipeline.Outages.{process-IsConsistent}

-- The signal of a probe's attempt of a given number, `none` where it throws.
abbrev pub Probe : Type 0
Probe = MonitorSnapshot → ℕ → Option ProbeSignal

pub record CheckProcessorDeps : Type 0 where
  pub probes : MonitorType → Option Probe
  pub alerts : Bool
  pub integrations : Bool
  pub escalation : Option PolicyTables

pub record CheckJob : Type 0 where
  pub monitor_id : RecordId
  pub region : ProbeRegion

pub data CheckJobResult : Type 0 where
  not_found inactive unsupported_type : CheckJobResult
  -- thrown, so that the queue retries
  failed : CheckJobResult
  checked : CheckStatus → Option PipelineTransition → CheckJobResult

abbrev pub is_active : MonitorLifecycle → Bool
is_active MonitorLifecycle.active = true
is_active _ = false

module _ (rt : Runtime) (deps : CheckProcessorDeps) (now : Instant) where
  abbrev pub options_of : ProbeRegion → ProcessOptions
  options_of region = record {
    region = region;
    now = now;
    is_heartbeat_ping = false;
    alerts = deps.alerts;
    integrations = deps.integrations;
    escalation = deps.escalation;
  }

  abbrev pub report : ProcessResult × Store → CheckJobResult × Store
  report (r, s) = (checked r.check_status r.transition, s)

  unfoldable pub finish :
      Store → MonitorSnapshot → ProbeRegion → Option ProbeOutcome → CheckJobResult × Store
  finish s monitor region none = (failed, s)
  finish s monitor region (some outcome) =
      report (process_check_result monitor outcome (options_of region) s)

  unfoldable pub probe_with :
      Store → MonitorRow → ProbeRegion → Option Probe → CheckJobResult × Store
  unfolding finish
  probe_with s row region none = (unsupported_type, s)
  probe_with s row region (some probe) =
      let monitor = to_snapshot row in
      finish s monitor region (execute_check rt monitor (probe monitor))

  unfoldable pub check_row : Store → ProbeRegion → Option MonitorRow → CheckJobResult × Store
  unfolding probe_with
  check_row s region none = (not_found, s)
  check_row s region (some row) =
      if is_active row.lifecycle
      then probe_with s row region (deps.probes row.type)
      else (inactive, s)

  unfoldable pub process_check_job : Store → CheckJob → CheckJobResult × Store
  unfolding check_row
  process_check_job s job =
      check_row s job.region
        (find (λ (r : MonitorRow). r.id == job.monitor_id && is_live r.deleted_at) s.monitors)

  finish-IsConsistent :
      (s : Store) (monitor : MonitorSnapshot) (region : ProbeRegion) (o : Option ProbeOutcome)
      → IsConsistent s.incidents
      → IsConsistent (finish s monitor region o).1.incidents
  unfolding finish
  finish-IsConsistent s monitor region none c = c
  finish-IsConsistent s monitor region (some outcome) c =
      process-IsConsistent monitor outcome (options_of region) s c

  probe_with-IsConsistent :
      (s : Store) (row : MonitorRow) (region : ProbeRegion) (o : Option Probe)
      → IsConsistent s.incidents
      → IsConsistent (probe_with s row region o).1.incidents
  unfolding probe_with
  probe_with-IsConsistent s row region none c = c
  probe_with-IsConsistent s row region (some probe) c =
      finish-IsConsistent s (to_snapshot row) region _ c

  check_row-IsConsistent :
      (s : Store) (region : ProbeRegion) (o : Option MonitorRow)
      → IsConsistent s.incidents
      → IsConsistent (check_row s region o).1.incidents
  unfolding check_row
  check_row-IsConsistent s region none c = c
  check_row-IsConsistent s region (some row) c = elim (Bool-cases (is_active row.lifecycle)) [
    | inl e ↦ simp e (probe_with-IsConsistent s row region (deps.probes row.type) c)
    | inr e ↦ simp e c
  ]

  -- A job of the check queue, whatever becomes of it, keeps the incident table consistent.
  pub process_check_job-IsConsistent :
      (s : Store) (job : CheckJob)
      → IsConsistent s.incidents
      → IsConsistent (process_check_job s job).1.incidents
  unfolding process_check_job
  process_check_job-IsConsistent s job c = check_row-IsConsistent s job.region _ c
