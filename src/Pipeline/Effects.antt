-- ===== src/Pipeline/Effects.antt =====
-- Who is told of an incident by pipeline.ts: the deliveries and jobs that a check leaves behind.
use mathlib.Core.Option
use mathlib.Core.Option.{some-injective}
use uptimeflow.Common.{
  ℕ, ◌≡◌, refl, ap, sym, ◌∙◌, Bool, true, false, Option, none, some, List, ◌&&◌, any, find,
  Bool-cases, inl, inr, arith,
}
use uptimeflow.Enums.{RecordId, Instant, ProbeRegion}
use uptimeflow.Snapshot.{MonitorSnapshot, ProbeOutcome}
use uptimeflow.StateMachine.{
  MonitorState, IncidentAction, opens, resolves, nothing, TransitionResult, same_state,
}
use uptimeflow.Store.{
  Store, MonitorRow, Incident, AlertKind, NotificationDelivery, AlertJob, EscalationJob,
  IntegrationCall, holds_key, write_audit,
}
use uptimeflow.Alerting.Dispatch.Laws.{dispatch_lem}
use uptimeflow.Pipeline.Snapshots.{to_snapshot, detect_flapping}
use uptimeflow.Pipeline.Incidents.{open_incident, close, resolve_incident}
use uptimeflow.Pipeline.Process.{
  ProcessOptions, ProcessResult, is_pingable, ping, ping_options, record_result, update_monitor,
  send_alerts, start_escalation, dispatch_integration, suppress, announce, after_open, on_open,
  after_resolve, on_resolve, on_relapse, run_lifecycle, decide, process_check_result,
  record_heartbeat,
}

-- Everything that leaves the pipeline for other people or systems.
pub record Outbox : Type 0 where
  pub deliveries : List NotificationDelivery
  pub alert_jobs : List AlertJob
  pub escalation_jobs : List (EscalationJob × ℕ)
  pub integration_calls : List IntegrationCall

abbrev pub outbox : Store → Outbox
outbox s = record {
  deliveries = s.deliveries;
  alert_jobs = s.alert_jobs;
  escalation_jobs = s.escalation_jobs;
  integration_calls = s.integration_calls;
}

-- The parts of the outbox that a heartbeat ping could reach besides alerts.
abbrev calls : Store → List IntegrationCall × List (EscalationJob × ℕ)
calls s = (s.integration_calls, s.escalation_jobs)

module _ (monitor : MonitorSnapshot) (outcome : ProbeOutcome) (opts : ProcessOptions) where
  open_incident-outbox :
      (s : Store) → outbox (open_incident s monitor outcome opts.now).1 ≡ outbox s
  unfolding open_incident
  open_incident-outbox s = elim (Bool-cases (any (holds_key monitor.id) s.incidents)) [
    | inl e ↦ simp e
    | inr e ↦ simp e
  ]

  after_open-flapping :
      (r : Option RecordId × Store) → outbox (after_open monitor outcome opts true r).1 ≡ outbox r.1
  unfolding after_open suppress
  after_open-flapping (none, s) = refl
  after_open-flapping (some id, s) = refl

  on_open-flapping :
      (s : Store)
      → detect_flapping s.incidents monitor.id opts.now ≡ true
      → outbox (on_open monitor outcome opts s).1 ≡ outbox s
  unfolding on_open
  on_open-flapping s h = rw h (after_open-flapping _ ∙ open_incident-outbox s)

  -- While a monitor is flapping, a check that opens an incident sends nothing: no delivery, no alert
  -- job, no escalation job and no integration call.
  pub process-flapping :
      (s : Store)
      → (decide monitor outcome opts s).incident ≡ opens
      → detect_flapping s.incidents monitor.id opts.now ≡ true
      → outbox (process_check_result monitor outcome opts s).1 ≡ outbox s
  unfolding process_check_result run_lifecycle record_result update_monitor
  process-flapping s h f = rw h (on_open-flapping _ f)

  send_alerts-calls :
      (id : RecordId) (kind : AlertKind) (s : Store)
      → calls (send_alerts monitor outcome opts id kind s).1 ≡ calls s
  unfolding send_alerts
  send_alerts-calls id kind s = elim (Bool-cases opts.alerts) [
    | inl e ↦ simp e (ap (λ (r : ℕ × Store). calls r.1) (dispatch_lem s _ monitor.id))
    | inr e ↦ simp e
  ]

  start_escalation-none :
      (id : RecordId) (s : Store)
      → opts.escalation ≡ none
      → start_escalation monitor outcome opts id s ≡ s
  unfolding start_escalation
  start_escalation-none id s h = ground arith

  no_integrations :
      (id : RecordId) (kind : AlertKind) (s : Store)
      → opts.integrations ≡ false
      → dispatch_integration monitor outcome opts id kind s ≡ s
  unfolding dispatch_integration
  no_integrations id kind s h = simp h

  module _ (unwired : opts.integrations ≡ false) (idle : opts.escalation ≡ none) where
    announce-calls :
        (id : RecordId) (s : Store) → calls (announce monitor outcome opts id s).1 ≡ calls s
    unfolding announce write_audit
    announce-calls id s =
        ap calls (no_integrations id AlertKind.opened _ unwired ∙ start_escalation-none id _ idle)
        ∙ send_alerts-calls id AlertKind.opened _

    after_open-calls :
        (flaps : Bool) (r : Option RecordId × Store)
        → calls (after_open monitor outcome opts flaps r).1 ≡ calls r.1
    unfolding after_open suppress
    after_open-calls flaps (none, s) = refl
    after_open-calls true (some id, s) = refl
    after_open-calls false (some id, s) = announce-calls id s

    after_resolve-calls :
        (r : Option RecordId × Store) → calls (after_resolve monitor outcome opts r).1 ≡ calls r.1
    unfolding after_resolve write_audit
    after_resolve-calls (none, s) = refl
    after_resolve-calls (some id, s) =
        ap calls (no_integrations id AlertKind.resolved _ unwired)
        ∙ send_alerts-calls id AlertKind.resolved _

    close-calls : (s : Store) (o : Option Incident) → calls (close s opts.now o).1 ≡ calls s
    unfolding close
    close-calls s none = refl
    close-calls s (some i) = refl

    on_open-calls : (s : Store) → calls (on_open monitor outcome opts s).1 ≡ calls s
    unfolding on_open
    on_open-calls s =
        after_open-calls _ _
        ∙ ap (λ (o : Outbox). (o.integration_calls, o.escalation_jobs)) (open_incident-outbox s)

    on_resolve-calls : (s : Store) → calls (on_resolve monitor outcome opts s).1 ≡ calls s
    unfolding on_resolve resolve_incident
    on_resolve-calls s = after_resolve-calls _ ∙ close-calls s _

    on_relapse-calls : (s : Store) → calls (on_relapse monitor outcome opts s).1 ≡ calls s
    unfolding on_relapse
    on_relapse-calls s = ground arith

    run_lifecycle-calls :
        (a : IncidentAction) (d : TransitionResult) (s : Store)
        → d.incident ≡ a
        → calls (run_lifecycle monitor outcome opts d s).1 ≡ calls s
    unfolding run_lifecycle
    run_lifecycle-calls opens d s h = rw h (on_open-calls s)
    run_lifecycle-calls resolves d s h = rw h (on_resolve-calls s)
    run_lifecycle-calls nothing d s h =
        rw h (elim (Bool-cases (d.changed && same_state d.state MonitorState.down)) [
          | inl e ↦ rw e (on_relapse-calls s)
          | inr e ↦ rw e
        ])

    process-calls : (s : Store) → calls (process_check_result monitor outcome opts s).1 ≡ calls s
    unfolding process_check_result record_result update_monitor
    process-calls s = run_lifecycle-calls _ (decide monitor outcome opts s) _ refl

pinged-calls :
    (s t : Store) (r : ProcessResult) (f : MonitorRow → ProcessResult × Store)
    (o : Option MonitorRow)
    → ((row : MonitorRow) → calls (f row).1 ≡ calls s)
    → Option.map f o ≡ some (r, t)
    → calls t ≡ calls s
pinged-calls s t r f none k h = cc
pinged-calls s t r f (some row) k h =
    sym (ap (λ (x : ProcessResult × Store). calls x.1) (some-injective _ _ h)) ∙ k row

-- A heartbeat ping that is accepted never calls an integration and never starts an escalation,
-- whatever it resolves.
pub record_heartbeat-calls :
    (s t : Store) (r : ProcessResult) (monitor_id : RecordId) (region : ProbeRegion) (now : Instant)
    (alerts : Bool)
    → record_heartbeat s monitor_id region now alerts ≡ some (r, t)
    → (t.integration_calls ≡ s.integration_calls) × (t.escalation_jobs ≡ s.escalation_jobs)
unfolding record_heartbeat
record_heartbeat-calls s t r monitor_id region now alerts h =
    let e =
      pinged-calls s t r _ (find (is_pingable monitor_id) s.monitors)
        (λ row. process-calls (to_snapshot row) ping (ping_options region now alerts) refl refl s)
        h in
    (
      ap (λ (c : List IntegrationCall × List (EscalationJob × ℕ)). c.0) e,
      ap (λ (c : List IntegrationCall × List (EscalationJob × ℕ)). c.1) e,
    )
