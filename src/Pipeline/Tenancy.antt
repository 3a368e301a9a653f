-- ===== src/Pipeline/Tenancy.antt =====
-- Tenant isolation of pipeline.ts: what another organization sees of a check.
use uptimeflow.Common.{
  ℕ, suc, ◌≡◌, ◌≢◌, refl, ap, ◌∙◌, Bool, true, false, ◌&&◌, Option, none, some, List, [], ◌∷◌, ◌++◌,
  ◌==◌, any, select, select-append, Bool-cases, inl, inr, arith,
}
use mathlib.Core.List.{append-nil}
use uptimeflow.Enums.{RecordId}
use uptimeflow.Snapshot.{MonitorSnapshot, ProbeOutcome}
use uptimeflow.StateMachine.{
  MonitorState, IncidentAction, opens, resolves, nothing, TransitionResult, same_state,
}
use uptimeflow.Store.{
  Store, Incident, IncidentEvent, AlertKind, AuditRow, CheckResult, NotificationDelivery, AlertJob,
  holds_key, add_event, write_audit,
}
use uptimeflow.Alerting.Dispatch.{AlertContext, rows_for, jobs_for, live_bindings, fanned_out}
use uptimeflow.Alerting.Dispatch.Laws.{dispatch_lem}
use uptimeflow.Escalation.Policy.{start, add_job}
use uptimeflow.Pipeline.Incidents.{open_incident, close, resolve_incident}
use uptimeflow.Pipeline.Process.{
  ProcessOptions, record_result, update_monitor, send_alerts, start_escalation,
  dispatch_integration, suppress, announce, after_open, on_open, after_resolve, on_resolve,
  on_relapse, run_lifecycle, decide, process_check_result,
}

-- The rows of one organization in the tables that the pipeline appends to.
pub record TenantView : Type 0 where
  pub results : List CheckResult
  pub audits : List AuditRow
  pub deliveries : List NotificationDelivery
  pub alert_jobs : List AlertJob

unfoldable pub tenant_view : RecordId → Store → TenantView
tenant_view org s = record {
  results = select (λ (r : CheckResult). r.organization_id == org) s.results;
  audits = select (λ (a : AuditRow). a.organization_id == org) s.audits;
  deliveries = select (λ (d : NotificationDelivery). d.organization_id == org) s.deliveries;
  alert_jobs = select (λ (j : AlertJob). j.organization_id == org) s.alert_jobs;
}

-- Rows of other organizations do not show.
append_unseen {ℓ} :
    {A : Type ℓ} (p : A → Bool) (xs ys : List A)
    → select p ys ≡ []
    → select p (xs ++ ys) ≡ select p xs
append_unseen p xs ys h =
    select-append p xs ys ∙ ap (λ zs. select p xs ++ zs) h ∙ append-nil (select p xs)

module _ (org : RecordId) (ctx : AlertContext) (other : ctx.organization_id ≢ org) where
  rows_unseen :
      (cs : List RecordId) (id : RecordId)
      → select (λ (d : NotificationDelivery). d.organization_id == org) (rows_for ctx cs id) ≡ []
  rows_unseen [] id = refl
  rows_unseen (c ∷ cs) id = ground (arith, rows_unseen cs (suc id))

  jobs_unseen :
      (cs : List RecordId) (id : RecordId)
      → select (λ (j : AlertJob). j.organization_id == org) (jobs_for ctx cs id) ≡ []
  jobs_unseen [] id = refl
  jobs_unseen (c ∷ cs) id = ground (arith, jobs_unseen cs (suc id))

  fanned_out-view :
      (cs : List RecordId) (s : Store) → tenant_view org (fanned_out ctx cs s) ≡ tenant_view org s
  unfolding tenant_view
  fanned_out-view cs s = λ i. record {
    results = select (λ (r : CheckResult). r.organization_id == org) s.results;
    audits = select (λ (a : AuditRow). a.organization_id == org) s.audits;
    deliveries =
        append_unseen (λ (d : NotificationDelivery). d.organization_id == org) s.deliveries
          (rows_for ctx cs s.next_id) (rows_unseen cs s.next_id) i;
    alert_jobs =
        append_unseen (λ (j : AlertJob). j.organization_id == org) s.alert_jobs
          (jobs_for ctx cs s.next_id) (jobs_unseen cs s.next_id) i;
  }

audit-view :
    (org : RecordId) (s : Store) (a : AuditRow)
    → a.organization_id ≢ org
    → tenant_view org (write_audit s a) ≡ tenant_view org s
unfolding write_audit tenant_view
audit-view org s a n =
    ap
      (λ (rows : List AuditRow).
        let v : TenantView = record (tenant_view org s) { audits = rows } in v)
      (append_unseen (λ (r : AuditRow). r.organization_id == org) s.audits (a ∷ []) (ground arith))

event-view :
    (org : RecordId) (s : Store) (e : IncidentEvent)
    → tenant_view org (add_event s e) ≡ tenant_view org s
unfolding add_event tenant_view
event-view org s e = refl

module _ (monitor : MonitorSnapshot) (outcome : ProbeOutcome) (opts : ProcessOptions)
    (org : RecordId) (other : monitor.organization_id ≢ org) where
  result-view :
      (s : Store) → tenant_view org (record_result monitor outcome opts s) ≡ tenant_view org s
  unfolding record_result tenant_view
  result-view s =
      ap
        (λ (rs : List CheckResult).
          let v : TenantView = record (tenant_view org s) { results = rs } in v)
        (append_unseen (λ (r : CheckResult). r.organization_id == org) s.results _ (ground arith))

  alerts-view :
      (id : RecordId) (kind : AlertKind) (s : Store)
      → tenant_view org (send_alerts monitor outcome opts id kind s).1 ≡ tenant_view org s
  unfolding send_alerts
  alerts-view id kind s = elim (Bool-cases opts.alerts) [
    | inl e ↦ simp e (
        ap (λ (r : ℕ × Store). tenant_view org r.1) (dispatch_lem s _ monitor.id)
        ∙ fanned_out-view org _ other (live_bindings s monitor.id) s)
    | inr e ↦ simp e
  ]

  escalation-view :
      (id : RecordId) (s : Store)
      → tenant_view org (start_escalation monitor outcome opts id s) ≡ tenant_view org s
  unfolding start_escalation start add_job tenant_view
  escalation-view id s = ground arith

  integration-view :
      (id : RecordId) (kind : AlertKind) (s : Store)
      → tenant_view org (dispatch_integration monitor outcome opts id kind s) ≡ tenant_view org s
  unfolding dispatch_integration tenant_view
  integration-view id kind s = ground arith

  announce-view :
      (id : RecordId) (s : Store)
      → tenant_view org (announce monitor outcome opts id s).1 ≡ tenant_view org s
  unfolding announce
  announce-view id s =
      integration-view id AlertKind.opened _
      ∙ escalation-view id _
      ∙ alerts-view id AlertKind.opened _
      ∙ audit-view org s _ other

  suppress-view :
      (id : RecordId) (s : Store)
      → tenant_view org (suppress monitor outcome opts id s).1 ≡ tenant_view org s
  unfolding suppress
  suppress-view id s = audit-view org _ _ other ∙ event-view org s _

  after_open-view :
      (flaps : Bool) (r : Option RecordId × Store)
      → tenant_view org (after_open monitor outcome opts flaps r).1 ≡ tenant_view org r.1
  unfolding after_open
  after_open-view flaps (none, s) = refl
  after_open-view true (some id, s) = suppress-view id s
  after_open-view false (some id, s) = announce-view id s

  on_open-view :
      (s : Store) → tenant_view org (on_open monitor outcome opts s).1 ≡ tenant_view org s
  unfolding on_open open_incident tenant_view
  on_open-view s =
      after_open-view _ _ ∙ elim (Bool-cases (any (holds_key monitor.id) s.incidents)) [
        | inl e ↦ simp e
        | inr e ↦ simp e
      ]

  after_resolve-view :
      (r : Option RecordId × Store)
      → tenant_view org (after_resolve monitor outcome opts r).1 ≡ tenant_view org r.1
  unfolding after_resolve
  after_resolve-view (none, s) = refl
  after_resolve-view (some id, s) =
      integration-view id AlertKind.resolved _
      ∙ alerts-view id AlertKind.resolved _
      ∙ audit-view org s _ other

  close-view :
      (s : Store) (o : Option Incident) → tenant_view org (close s opts.now o).1 ≡ tenant_view org s
  unfolding close tenant_view
  close-view s none = refl
  close-view s (some i) = refl

  on_resolve-view :
      (s : Store) → tenant_view org (on_resolve monitor outcome opts s).1 ≡ tenant_view org s
  unfolding on_resolve resolve_incident
  on_resolve-view s = after_resolve-view _ ∙ close-view s _

  on_relapse-view :
      (s : Store) → tenant_view org (on_relapse monitor outcome opts s).1 ≡ tenant_view org s
  unfolding on_relapse tenant_view
  on_relapse-view s = ground arith

  lifecycle-view :
      (a : IncidentAction) (d : TransitionResult) (s : Store)
      → d.incident ≡ a
      → tenant_view org (run_lifecycle monitor outcome opts d s).1 ≡ tenant_view org s
  unfolding run_lifecycle
  lifecycle-view opens d s h = rw h (on_open-view s)
  lifecycle-view resolves d s h = rw h (on_resolve-view s)
  lifecycle-view nothing d s h =
      rw h (elim (Bool-cases (d.changed && same_state d.state MonitorState.down)) [
        | inl e ↦ rw e (on_relapse-view s)
        | inr e ↦ rw e
      ])

  -- Processing a check of a monitor leaves every other organization's check results, audit entries,
  -- deliveries and alert jobs exactly as they were.
  pub process-tenant_view :
      (s : Store)
      → tenant_view org (process_check_result monitor outcome opts s).1 ≡ tenant_view org s
  unfolding process_check_result update_monitor tenant_view
  process-tenant_view s = lifecycle-view _ (decide monitor outcome opts s) _ refl ∙ result-view s
