-- ===== src/Pipeline/Results.antt =====
-- The check results of pipeline.ts and of packages/monitoring/src/processor.ts: what a job records.
use uptimeflow.Common.{
  ℕ, ◌≡◌, ◌⊎◌, refl, ap, sym, subst, ◌∙◌, is_some, Bool, true, false, ◌&&◌, Option, none, some,
  List, [], ◌∷◌, ◌++◌, ◌==◌, find, Bool-cases, inl, inr, any, arith,
}
use uptimeflow.Common.Tables.{find-holds}
use uptimeflow.Enums.{RecordId, Instant, ProbeRegion}
use uptimeflow.Runtime.{Runtime}
use uptimeflow.Snapshot.{MonitorSnapshot, ProbeOutcome}
use uptimeflow.StateMachine.{
  MonitorState, IncidentAction, opens, resolves, nothing, TransitionResult, same_state,
}
use uptimeflow.Store.{
  Store, Incident, MonitorRow, AlertKind, CheckResult, holds_key, add_event, write_audit, is_live,
}
use uptimeflow.Alerting.Dispatch.Laws.{dispatch_lem}
use uptimeflow.Escalation.Policy.{start, add_job}
use uptimeflow.Pipeline.Snapshots.{to_snapshot, detect_flapping}
use uptimeflow.Pipeline.Incidents.{open_incident, close, resolve_incident}
use uptimeflow.Pipeline.Process.{
  ProcessOptions, record_result, update_monitor, send_alerts, start_escalation,
  dispatch_integration, suppress, announce, after_open, on_open, after_resolve, on_resolve,
  on_relapse, run_lifecycle, decide, process_check_result, PipelineTransition,
}
use uptimeflow.Checks.Execute.{execute_check}
use uptimeflow.Pipeline.Processor.{
  Probe, CheckProcessorDeps, CheckJob, CheckJobResult, checked, is_active, options_of, finish,
  probe_with, check_row, process_check_job,
}

module _ (monitor : MonitorSnapshot) (outcome : ProbeOutcome) (opts : ProcessOptions) where
  abbrev results : Store → List CheckResult
  results s = s.results

  send_alerts-results :
      (id : RecordId) (kind : AlertKind) (s : Store)
      → (send_alerts monitor outcome opts id kind s).1.results ≡ s.results
  unfolding send_alerts
  send_alerts-results id kind s = elim (Bool-cases opts.alerts) [
    | inl e ↦ simp e (ap (λ (r : ℕ × Store). r.1.results) (dispatch_lem s _ monitor.id))
    | inr e ↦ simp e
  ]

  start_escalation-results :
      (id : RecordId) (s : Store) → (start_escalation monitor outcome opts id s).results ≡ s.results
  unfolding start_escalation start add_job
  start_escalation-results id s = ground arith

  dispatch_integration-results :
      (id : RecordId) (kind : AlertKind) (s : Store)
      → (dispatch_integration monitor outcome opts id kind s).results ≡ s.results
  unfolding dispatch_integration
  dispatch_integration-results id kind s = ground arith

  announce-results :
      (id : RecordId) (s : Store) → (announce monitor outcome opts id s).1.results ≡ s.results
  unfolding announce write_audit
  announce-results id s =
      dispatch_integration-results id AlertKind.opened _
      ∙ start_escalation-results id _
      ∙ send_alerts-results id AlertKind.opened _

  on_open-results : (s : Store) → (on_open monitor outcome opts s).1.results ≡ s.results
  unfolding on_open after_open open_incident suppress add_event write_audit
  on_open-results s = elim (Bool-cases (any (holds_key monitor.id) s.incidents)) [
    | inl e ↦ rw e refl
    | inr e ↦ elim (Bool-cases (detect_flapping s.incidents monitor.id opts.now)) [
      | inl f ↦ rw (e, f) refl
      | inr f ↦ rw (e, f) (announce-results s.next_id _)
    ]
  ]

  after_close-results :
      (s : Store) (o : Option Incident)
      → (after_resolve monitor outcome opts (close s opts.now o)).1.results ≡ s.results
  unfolding after_resolve close add_event write_audit
  after_close-results s none = refl
  after_close-results s (some i) =
      dispatch_integration-results i.id AlertKind.resolved _
      ∙ send_alerts-results i.id AlertKind.resolved _

  on_relapse-results : (s : Store) → (on_relapse monitor outcome opts s).1.results ≡ s.results
  unfolding on_relapse add_event
  on_relapse-results s = ground arith

  run_lifecycle-results :
      (a : IncidentAction) (d : TransitionResult) (s : Store)
      → d.incident ≡ a
      → (run_lifecycle monitor outcome opts d s).1.results ≡ s.results
  unfolding run_lifecycle on_resolve resolve_incident
  run_lifecycle-results opens d s h = rw h (on_open-results s)
  run_lifecycle-results resolves d s h = rw h (after_close-results s _)
  run_lifecycle-results nothing d s h =
      rw h (elim (Bool-cases (d.changed && same_state d.state MonitorState.down)) [
        | inl e ↦ rw e (on_relapse-results s)
        | inr e ↦ rw e refl
      ])

  process-results :
      (s : Store)
      → (row : CheckResult) × ((process_check_result monitor outcome opts s).1.results
          ≡ s.results ++ row ∷ [])
        × (row.monitor_id ≡ monitor.id)
        × (row.status ≡ (process_check_result monitor outcome opts s).0.check_status)
  unfolding process_check_result record_result update_monitor
  process-results s =
      (_, run_lifecycle-results _ (decide monitor outcome opts s) _ refl, refl, refl)

abbrev pub is_checked : CheckJobResult → Bool
is_checked (checked _ _) = true
is_checked _ = false

-- The job reports a status, and its store has one more check result, of that monitor and status.
abbrev pub HasRecorded : RecordId → Store → CheckJobResult × Store → Type 0
HasRecorded monitor_id s (r, t) =
    (row : CheckResult) × (transition : Option PipelineTransition) × (r
      ≡ checked row.status transition)
    × (row.monitor_id ≡ monitor_id)
    × (t.results ≡ s.results ++ row ∷ [])

-- The job reports no status, and its store is as it was.
abbrev pub HasRefused : Store → CheckJobResult × Store → Type 0
HasRefused s (r, t) = (is_checked r ≡ false) × (t ≡ s)

-- One of the two.
abbrev pub Settles : RecordId → Store → CheckJobResult × Store → Type 0
Settles monitor_id s r = HasRefused s r ⊎ HasRecorded monitor_id s r

module _ (rt : Runtime) (deps : CheckProcessorDeps) (now : Instant) (s : Store)
    (region : ProbeRegion) where
  finish-Settles :
      (monitor : MonitorSnapshot) (o : Option ProbeOutcome)
      → (is_checked (finish rt deps now s monitor region o).0 ≡ is_some o)
        × Settles monitor.id s (finish rt deps now s monitor region o)
  unfolding finish
  finish-Settles monitor none = (refl, inl (refl, refl))
  finish-Settles monitor (some outcome) =
      let r = process_check_result monitor outcome (options_of rt deps now region) s in
      let (row, added, same, status) =
        process-results monitor outcome (options_of rt deps now region) s in
      (
        refl,
        inr (row, r.0.transition, ap (λ c. checked c r.0.transition) (sym status), same, added),
      )

  -- Whether the probe of a monitor ends with an outcome.
  abbrev pub gives_outcome : MonitorRow → Option Probe → Bool
  gives_outcome row none = false
  gives_outcome row (some probe) =
      is_some (execute_check rt (to_snapshot row) (probe (to_snapshot row)))

  probe_with-Settles :
      (row : MonitorRow) (o : Option Probe)
      → (is_checked (probe_with rt deps now s row region o).0 ≡ gives_outcome row o)
        × Settles row.id s (probe_with rt deps now s row region o)
  unfolding probe_with to_snapshot
  probe_with-Settles row none = (refl, inl (refl, refl))
  probe_with-Settles row (some probe) = finish-Settles (to_snapshot row) _

  -- Whether a job finds an active monitor whose type has a probe, and the probe ends with an outcome.
  abbrev pub is_checkable : Option MonitorRow → Bool
  is_checkable none = false
  is_checkable (some row) = is_active row.lifecycle && gives_outcome row (deps.probes row.type)

  check_row-Settles :
      (id : RecordId) (o : Option MonitorRow)
      → find (λ (r : MonitorRow). r.id == id && is_live r.deleted_at) s.monitors ≡ o
      → (is_checked (check_row rt deps now s region o).0 ≡ is_checkable o)
        × Settles id s (check_row rt deps now s region o)
  unfolding check_row
  check_row-Settles id none h = (refl, inl (refl, refl))
  check_row-Settles id (some row) h = elim (Bool-cases (is_active row.lifecycle)) [
    | inl e ↦
        let t = find-holds (λ (r : MonitorRow). r.id == id && is_live r.deleted_at) s.monitors h in
        let same : row.id ≡ id = ground (arith, t) in
        let (answer, settled) = probe_with-Settles row (deps.probes row.type) in
        rw e (
          answer,
          subst (λ i. Settles i s (probe_with rt deps now s row region (deps.probes row.type))) same
              settled,
        )
    | inr e ↦ rw e (refl, inl (refl, refl))
  ]

-- A job of the check queue reports a status exactly where its monitor exists, is not deleted and is
-- active, its type has a probe and the retries end with an outcome. It then adds one check result, of
-- that monitor and that status; otherwise it leaves the store as it was.
pub process_check_job-Settles :
    (rt : Runtime) (deps : CheckProcessorDeps) (now : Instant) (s : Store) (job : CheckJob)
    → (is_checked (process_check_job rt deps now s job).0
        ≡ is_checkable rt deps now s job.region
            (find (λ (r : MonitorRow). r.id == job.monitor_id && is_live r.deleted_at) s.monitors))
      × Settles job.monitor_id s (process_check_job rt deps now s job)
unfolding process_check_job
process_check_job-Settles rt deps now s job =
    check_row-Settles rt deps now s job.region job.monitor_id _ refl
