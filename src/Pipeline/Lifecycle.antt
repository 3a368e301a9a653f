-- ===== src/Pipeline/Lifecycle.antt =====
-- The incident table across pipeline.ts: which calls leave it alone, and what the others make of it.
use uptimeflow.Common.{
  ℕ, ◌≡◌, refl, ap, ◌∙◌, Bool, true, false, Option, none, some, List, [], ◌∷◌, ◌++◌, ◌==◌, any,
  Bool-cases, inl, inr, if◌then◌else◌, arith,
}
use uptimeflow.Common.Tables.{update_where}
use uptimeflow.Enums.{RecordId, Instant}
use uptimeflow.Snapshot.{MonitorSnapshot, ProbeOutcome}
use uptimeflow.StateMachine.{IncidentAction, opens, resolves, nothing, TransitionResult}
use uptimeflow.Store.{Store, Incident, AlertKind, holds_key}
use uptimeflow.Store.Consistency.{latest_unresolved}
use uptimeflow.Alerting.Dispatch.Laws.{dispatch_lem}
use uptimeflow.Escalation.Policy.{PolicyTables, EscalationContext, start, add_job}
use uptimeflow.Pipeline.Incidents.{
  new_incident, open_incident, close_incident, duration_sec, close, resolve_incident,
}
use uptimeflow.Pipeline.Process.{
  ProcessOptions, send_alerts, start_escalation, dispatch_integration, suppress, announce,
  after_open, on_open, after_resolve, on_resolve, on_relapse, run_lifecycle, record_result,
  update_monitor, decide, process_check_result,
}

-- The incident table after an attempt to open (to resolve) the monitor's incident.
abbrev pub opened_incidents :
    MonitorSnapshot → ProbeOutcome → Instant → RecordId → List Incident → List Incident
opened_incidents monitor outcome now id incidents =
    if any (holds_key monitor.id) incidents
    then incidents
    else incidents ++ new_incident monitor outcome now id ∷ []

abbrev pub closed_by : Instant → Option Incident → List Incident → List Incident
closed_by now none incidents = incidents
closed_by now (some i) incidents =
    update_where (λ (j : Incident). j.id == i.id)
      (close_incident now (duration_sec now i.started_at)) incidents

abbrev pub closed_incidents : RecordId → Instant → List Incident → List Incident
closed_incidents monitor_id now incidents =
    closed_by now (latest_unresolved monitor_id incidents) incidents

abbrev pub incidents_after :
    IncidentAction
    → MonitorSnapshot
    → ProbeOutcome
    → Instant
    → RecordId
    → List Incident
    → List Incident
incidents_after opens monitor outcome now id incidents =
    opened_incidents monitor outcome now id incidents
incidents_after resolves monitor outcome now id incidents =
    closed_incidents monitor.id now incidents
incidents_after nothing monitor outcome now id incidents = incidents

start-incidents :
    (tables : PolicyTables) (s : Store) (ctx : EscalationContext)
    → (start tables s ctx).1.incidents ≡ s.incidents
unfolding start add_job
start-incidents tables s ctx = ground arith

module _ (monitor : MonitorSnapshot) (outcome : ProbeOutcome) (opts : ProcessOptions) where
  send_alerts-incidents :
      (id : RecordId) (kind : AlertKind) (s : Store)
      → (send_alerts monitor outcome opts id kind s).1.incidents ≡ s.incidents
  unfolding send_alerts
  send_alerts-incidents id kind s = elim (Bool-cases opts.alerts) [
    | inl e ↦ simp e (ap (λ (r : ℕ × Store). r.1.incidents) (dispatch_lem s _ monitor.id))
    | inr e ↦ simp e
  ]

  start_escalation-incidents :
      (id : RecordId) (s : Store)
      → (start_escalation monitor outcome opts id s).incidents ≡ s.incidents
  unfolding start_escalation
  start_escalation-incidents id s = grind (arith, start-incidents)

  dispatch_integration-incidents :
      (id : RecordId) (kind : AlertKind) (s : Store)
      → (dispatch_integration monitor outcome opts id kind s).incidents ≡ s.incidents
  unfolding dispatch_integration
  dispatch_integration-incidents id kind s = ground arith

  announce-incidents :
      (id : RecordId) (s : Store) → (announce monitor outcome opts id s).1.incidents ≡ s.incidents
  unfolding announce
  announce-incidents id s =
      dispatch_integration-incidents id AlertKind.opened _
      ∙ start_escalation-incidents id _
      ∙ send_alerts-incidents id AlertKind.opened _

  suppress-incidents :
      (id : RecordId) (s : Store) → (suppress monitor outcome opts id s).1.incidents ≡ s.incidents
  unfolding suppress
  suppress-incidents id s = refl

  after_open-incidents :
      (flaps : Bool) (r : Option RecordId × Store)
      → (after_open monitor outcome opts flaps r).1.incidents ≡ r.1.incidents
  unfolding after_open
  after_open-incidents flaps (none, s) = refl
  after_open-incidents true (some id, s) = suppress-incidents id s
  after_open-incidents false (some id, s) = announce-incidents id s

  open_incident-incidents :
      (s : Store)
      → (open_incident s monitor outcome opts.now).1.incidents
        ≡ opened_incidents monitor outcome opts.now s.next_id s.incidents
  unfolding open_incident
  open_incident-incidents s = elim (Bool-cases (any (holds_key monitor.id) s.incidents)) [
    | inl e ↦ simp e
    | inr e ↦ simp e
  ]

  on_open-incidents :
      (s : Store)
      → (on_open monitor outcome opts s).1.incidents
        ≡ opened_incidents monitor outcome opts.now s.next_id s.incidents
  unfolding on_open
  on_open-incidents s = after_open-incidents _ _ ∙ open_incident-incidents s

  after_resolve-incidents :
      (r : Option RecordId × Store)
      → (after_resolve monitor outcome opts r).1.incidents ≡ r.1.incidents
  unfolding after_resolve
  after_resolve-incidents (none, s) = refl
  after_resolve-incidents (some id, s) =
      dispatch_integration-incidents id AlertKind.resolved _
      ∙ send_alerts-incidents id AlertKind.resolved _

  close-incidents :
      (s : Store) (o : Option Incident)
      → (close s opts.now o).1.incidents ≡ closed_by opts.now o s.incidents
  unfolding close
  close-incidents s none = refl
  close-incidents s (some i) = refl

  on_resolve-incidents :
      (s : Store)
      → (on_resolve monitor outcome opts s).1.incidents
        ≡ closed_incidents monitor.id opts.now s.incidents
  unfolding on_resolve resolve_incident
  on_resolve-incidents s = after_resolve-incidents _ ∙ close-incidents s _

  on_relapse-incidents : (s : Store) → (on_relapse monitor outcome opts s).1.incidents ≡ s.incidents
  unfolding on_relapse
  on_relapse-incidents s = ground arith

  run_lifecycle-incidents :
      (d : TransitionResult) (s : Store)
      → (run_lifecycle monitor outcome opts d s).1.incidents
        ≡ incidents_after d.incident monitor outcome opts.now s.next_id s.incidents
  unfolding run_lifecycle
  run_lifecycle-incidents d s =
      ground (arith, on_open-incidents s, on_resolve-incidents s, on_relapse-incidents s)

  -- Processing a check changes the incident table only as its decision asks.
  pub process-incidents :
      (s : Store)
      → (process_check_result monitor outcome opts s).1.incidents
        ≡ incidents_after
            (decide monitor outcome opts s).incident
            monitor
            outcome
            opts.now
            s.next_id
            s.incidents
  unfolding process_check_result record_result update_monitor
  process-incidents s = run_lifecycle-incidents _ _
