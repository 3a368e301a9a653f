-- ===== src/Pipeline/Alerts.antt =====
-- The alerts of a check in pipeline.ts: the deliveries and the jobs that it adds, on every branch.
use uptimeflow.Common.{
  ℕ, suc, ◌≡◌, refl, ap, ◌∙◌, ◌&&◌, ◌||◌, Option, none, some, List, ◌++◌, any, length, Bool-cases,
  inl, inr, arith, if◌then◌else◌,
}
use uptimeflow.Enums.{RecordId}
use uptimeflow.Snapshot.{MonitorSnapshot, ProbeOutcome}
use uptimeflow.StateMachine.{
  MonitorState, IncidentAction, opens, resolves, nothing, TransitionResult, same_state,
}
use uptimeflow.Store.{
  Store, Incident, AlertKind, NotificationDelivery, AlertJob, holds_key, add_event, write_audit,
}
use uptimeflow.Store.Consistency.{latest_unresolved}
use uptimeflow.Alerting.Dispatch.{AlertContext, live_bindings, rows_for, jobs_for}
use uptimeflow.Alerting.Dispatch.Laws.{dispatch_lem}
use uptimeflow.Escalation.Policy.{start, add_job}
use uptimeflow.Pipeline.Snapshots.{detect_flapping}
use uptimeflow.Pipeline.Incidents.{open_incident, close, resolve_incident}
use uptimeflow.Pipeline.Process.{
  ProcessOptions, Lifecycle, record_result, update_monitor, send_alerts, start_escalation,
  dispatch_integration, suppress, announce, after_open, on_open, after_resolve, on_resolve,
  on_relapse, run_lifecycle, decide, process_check_result,
}

-- How many alerts a check reports, and the rows and jobs in the store.
abbrev pub Posted : Type 0
Posted = ℕ × List NotificationDelivery × List AlertJob

abbrev pub posted : ℕ → Store → Posted
posted n s = (n, s.deliveries, s.alert_jobs)

-- The incident and the kind of an alert, and the identifier of its first delivery.
abbrev pub Notice : Type 0
Notice = AlertContext × RecordId

module _ (monitor : MonitorSnapshot) (outcome : ProbeOutcome) (opts : ProcessOptions) where
  abbrev pub context_for : RecordId → AlertKind → AlertContext
  context_for id kind = record {
    incident_id = id;
    organization_id = monitor.organization_id;
    kind = kind;
  }

  -- What a store holds once a notice is sent to the monitor's live channels.
  abbrev pub sent : Store → Option Notice → Posted
  sent s none = posted 0 s
  sent s (some (ctx, id)) =
      let channels = live_bindings s monitor.id in
      if opts.alerts
      then (
        length channels,
        s.deliveries ++ rows_for ctx channels id,
        s.alert_jobs ++ jobs_for ctx channels id,
      )
      else posted 0 s

  abbrev pub recovery_notice : Store → Option Incident → Option Notice
  recovery_notice s none = none
  recovery_notice s (some i) = some (context_for i.id AlertKind.resolved, s.next_id)

  -- The notice that a check owes: of a new incident, where the monitor has no other and is not
  -- flapping, and of the incident that ends.
  abbrev pub notice : IncidentAction → Store → Option Notice
  notice opens s =
      if any (holds_key monitor.id) s.incidents || detect_flapping s.incidents monitor.id opts.now
      then none
      else some (context_for s.next_id AlertKind.opened, suc s.next_id)
  notice resolves s = recovery_notice s (latest_unresolved monitor.id s.incidents)
  notice nothing s = none

  abbrev pub reported : Lifecycle × Store → Posted
  reported (l, s) = posted l.alerts_enqueued s

  send_alerts-sent :
      (id : RecordId) (kind : AlertKind) (s : Store)
      → posted
          (send_alerts monitor outcome opts id kind s).0
          (send_alerts monitor outcome opts id kind s).1
        ≡ sent s (some (context_for id kind, s.next_id))
  unfolding send_alerts
  send_alerts-sent id kind s = elim (Bool-cases opts.alerts) [
    | inl e ↦
        simp e
          (ap (λ (r : ℕ × Store). posted r.0 r.1) (dispatch_lem s (context_for id kind) monitor.id))
    | inr e ↦ simp e
  ]

  start_escalation-posted :
      (n : ℕ) (id : RecordId) (s : Store)
      → posted n (start_escalation monitor outcome opts id s) ≡ posted n s
  unfolding start_escalation start add_job
  start_escalation-posted n id s = ground arith

  dispatch_integration-posted :
      (n : ℕ) (id : RecordId) (kind : AlertKind) (s : Store)
      → posted n (dispatch_integration monitor outcome opts id kind s) ≡ posted n s
  unfolding dispatch_integration
  dispatch_integration-posted n id kind s = elim (Bool-cases opts.integrations) [
    | inl e ↦ simp e
    | inr e ↦ simp e
  ]

  announce-sent :
      (id : RecordId) (s : Store)
      → reported (announce monitor outcome opts id s)
        ≡ sent s (some (context_for id AlertKind.opened, s.next_id))
  unfolding announce write_audit live_bindings
  announce-sent id s =
      dispatch_integration-posted _ id AlertKind.opened _
      ∙ start_escalation-posted _ id _
      ∙ send_alerts-sent id AlertKind.opened _

  on_open-sent : (s : Store) → reported (on_open monitor outcome opts s) ≡ sent s (notice opens s)
  unfolding on_open after_open open_incident suppress add_event write_audit live_bindings
  on_open-sent s = elim (Bool-cases (any (holds_key monitor.id) s.incidents)) [
    | inl e ↦ rw e refl
    | inr e ↦ elim (Bool-cases (detect_flapping s.incidents monitor.id opts.now)) [
      | inl f ↦ rw (e, f) refl
      | inr f ↦ rw (e, f) (announce-sent s.next_id _)
    ]
  ]

  after_close-sent :
      (s : Store) (o : Option Incident)
      → reported (after_resolve monitor outcome opts (close s opts.now o))
        ≡ sent s (recovery_notice s o)
  unfolding after_resolve close add_event write_audit live_bindings
  after_close-sent s none = refl
  after_close-sent s (some i) =
      dispatch_integration-posted _ i.id AlertKind.resolved _
      ∙ send_alerts-sent i.id AlertKind.resolved _

  on_relapse-sent : (s : Store) → reported (on_relapse monitor outcome opts s) ≡ posted 0 s
  unfolding on_relapse add_event
  on_relapse-sent s = ground arith

  run_lifecycle-sent :
      (a : IncidentAction) (d : TransitionResult) (s : Store)
      → d.incident ≡ a
      → reported (run_lifecycle monitor outcome opts d s) ≡ sent s (notice a s)
  unfolding run_lifecycle on_resolve resolve_incident
  run_lifecycle-sent opens d s h = rw h (on_open-sent s)
  run_lifecycle-sent resolves d s h = rw h (after_close-sent s _)
  run_lifecycle-sent nothing d s h =
      rw h (elim (Bool-cases (d.changed && same_state d.state MonitorState.down)) [
        | inl e ↦ rw e (on_relapse-sent s)
        | inr e ↦ rw e refl
      ])

  -- The writes before the lifecycle change nothing that a notice depends on.
  abbrev written : TransitionResult → Store → Store
  written d s = update_monitor monitor outcome opts d (record_result monitor outcome opts s)

  recovery-written :
      (d : TransitionResult) (s : Store) (o : Option Incident)
      → sent (written d s) (recovery_notice (written d s) o) ≡ sent s (recovery_notice s o)
  unfolding record_result update_monitor live_bindings
  recovery-written d s none = refl
  recovery-written d s (some i) = refl

  notice-written :
      (a : IncidentAction) (d : TransitionResult) (s : Store)
      → sent (written d s) (notice a (written d s)) ≡ sent s (notice a s)
  unfolding record_result update_monitor live_bindings
  notice-written opens d s =
      elim (Bool-cases (
        any (holds_key monitor.id) s.incidents
        || detect_flapping s.incidents monitor.id opts.now)) [
          | inl e ↦ rw e refl
          | inr e ↦ rw e refl
        ]
  notice-written resolves d s = recovery-written d s (latest_unresolved monitor.id s.incidents)
  notice-written nothing d s = refl

  -- A check, whatever it finds, adds exactly the alerts that it owes: one delivery and one job for
  -- each live channel of the monitor, about the new incident where it opens one, the monitor has
  -- no other and is not flapping, or about the latest unresolved one where it resolves; it adds
  -- none otherwise or where alerts are not wired, and reports their number.
  pub process-alerts :
      (s : Store)
      → let r = process_check_result monitor outcome opts s in
        posted r.0.alerts_enqueued r.1 ≡ sent s (notice (decide monitor outcome opts s).incident s)
  unfolding process_check_result
  process-alerts s =
      let d = decide monitor outcome opts s in
      run_lifecycle-sent d.incident d (written d s) refl ∙ notice-written d.incident d s
