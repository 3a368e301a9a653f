-- ===== src/IncidentService/Handling.antt =====
-- What acknowledging and resolving an incident in incident.service.ts does to its escalation and
-- to its monitor.
use uptimeflow.Common.{
  arith, count, ◌≤◌, ◌≡◌, refl, ap, inl, inr, true, false, Option, some, ◌==◌, find, Bool-cases,
  if◌then◌else◌,
}
use uptimeflow.Common.Int.{ℤ}
use uptimeflow.Common.Text.{Text}
use uptimeflow.Common.Tables.{find-update, find-both, count-drop_one}
use uptimeflow.Enums.{RecordId, Instant, IncidentStatus, is_open, is_resolved}
use uptimeflow.Store.{is_unresolved_of, Store, Incident, EscalationJob, add_event, write_audit}
use uptimeflow.Escalation.Policy.{PolicyTables}
use uptimeflow.Escalation.Paging.{Wiring}
use uptimeflow.Escalation.Engine.{stopped, run_incident, process_job}
use uptimeflow.Pipeline.Incidents.{close_incident, duration_sec}
use uptimeflow.Pipeline.Outages.{close_incident-Closes}
use uptimeflow.Store.Consistency.{IsConsistent, unresolved}
use uptimeflow.IncidentService.{
  IncidentActor, find_scoped, acknowledge, acknowledge_existing, resolve, resolve_existing,
  update_incident, acknowledge_incident,
}

-- The incident that an identifier names.
abbrev pub incident_at : RecordId → Store → Option Incident
incident_at id s = find (λ (i : Incident). i.id == id) s.incidents

update-incident_at :
    (id : RecordId) (f : Incident → Incident) (s : Store) (i : Incident)
    → ((i : Incident) → (f i).id ≡ i.id)
    → incident_at id s ≡ some i
    → incident_at id (update_incident id f s) ≡ some (f i)
unfolding update_incident
update-incident_at id f s i keeps h =
    find-update (λ (i : Incident). i.id == id) f (λ i. ap (λ k. k == id) (keeps i)) s.incidents i h

-- An incident after it was acknowledged, and after it was resolved.
unfoldable pub acknowledged_form : Instant → Option RecordId → Incident → Incident
acknowledged_form now user i = if is_open i.status then acknowledge_incident now user i else i

unfoldable pub resolved_form : Instant → Incident → Incident
resolved_form now i =
    if is_resolved i.status then i else close_incident now (duration_sec now i.started_at) i

acknowledged_form-closed :
    (now : Instant) (user : Option RecordId) (i : Incident)
    → is_open (acknowledged_form now user i).status ≡ false
unfolding acknowledged_form
acknowledged_form-closed now user i = elim (Bool-cases (is_open i.status)) [
  | inl e ↦ rw e refl
  | inr e ↦ rw e e
]

resolved_form-resolved :
    (now : Instant) (i : Incident) → is_resolved (resolved_form now i).status ≡ true
unfolding resolved_form
resolved_form-resolved now i = elim (Bool-cases (is_resolved i.status)) [
  | inl e ↦ rw e e
  | inr e ↦ rw e refl
]

is_resolved-not_open : (x : IncidentStatus) → is_resolved x ≡ true → is_open x ≡ false
is_resolved-not_open IncidentStatus.opened h = cc
is_resolved-not_open IncidentStatus.acknowledged h = refl
is_resolved-not_open IncidentStatus.resolved h = refl

module _ (s : Store) (org id : RecordId) (actor : IncidentActor) (now : Instant)
    (i : Incident) where
  scoped :
      incident_at id s ≡ some i → (i.organization_id == org) ≡ true → find_scoped s org id ≡ some i
  unfolding find_scoped
  scoped h o =
      find-both (λ (i : Incident). i.id == id) (λ (i : Incident). i.organization_id == org)
        s.incidents i h o

  acknowledge-incident_at :
      incident_at id s ≡ some i
      → (i.organization_id == org) ≡ true
      → incident_at id (acknowledge s org id actor now).1
        ≡ some (acknowledged_form now actor.user_id i)
  unfolding acknowledge acknowledge_existing acknowledged_form add_event write_audit
  acknowledge-incident_at h o = elim (Bool-cases (is_open i.status)) [
    | inl e ↦
        rw (scoped h o, e)
          (update-incident_at id (acknowledge_incident now actor.user_id) s i (λ i. refl) h)
    | inr e ↦ rw (scoped h o, e) h
  ]

  resolve-incident_at :
      incident_at id s ≡ some i
      → (i.organization_id == org) ≡ true
      → incident_at id (resolve s org id actor now).1 ≡ some (resolved_form now i)
  unfolding resolve resolve_existing resolved_form add_event write_audit
  resolve-incident_at h o = elim (Bool-cases (is_resolved i.status)) [
    | inl e ↦ rw (scoped h o, e) h
    | inr e ↦
        rw (scoped h o, e)
          (update-incident_at id (close_incident now (duration_sec now i.started_at)) s i
            (λ i. refl) h)
  ]

  -- Resolving an unresolved incident of a monitor, on a consistent table in which at most one
  -- incident has its identifier, leaves that monitor with no unresolved incident.
  pub resolve_frees_monitor :
      (m : RecordId)
      → IsConsistent s.incidents
      → count (λ (i : Incident). i.id == id) s.incidents ≤ 1
      → incident_at id s ≡ some i
      → (i.organization_id == org) ≡ true
      → is_unresolved_of m i ≡ true
      → unresolved m (resolve s org id actor now).1.incidents ≡ 0
  unfolding resolve resolve_existing add_event write_audit update_incident
  resolve_frees_monitor m c one h o u =
      let open_still : is_resolved i.status ≡ false = ground (arith, u) in
      let dropped =
        count-drop_one (λ (i : Incident). i.id == id)
          (close_incident now (duration_sec now i.started_at)) (is_unresolved_of m) s.incidents i h
          one u (close_incident-Closes now (duration_sec now i.started_at) m i).0 in
      rw (scoped h o, open_still) (omega (arith, dropped, c.single m))

  module _ (tz_offset_ms : Instant → Text → ℤ) (w : Wiring tz_offset_ms) (tables : PolicyTables)
      (later : Instant) (job : EscalationJob) (mine : job.incident_id ≡ id) where
    stops :
        (t : Store) (j : Incident)
        → incident_at id t ≡ some j
        → is_open j.status ≡ false
        → process_job tz_offset_ms w tables later t job ≡ (stopped, t)
    unfolding process_job run_incident
    stops t j h e = rw (mine, h, e)

    -- Once an incident of the organization has been acknowledged, or resolved, every job of its
    -- escalation that runs later stops there and changes nothing, whatever its step and round.
    pub handling_stops_escalation :
        incident_at id s ≡ some i
        → (i.organization_id == org) ≡ true
        → (process_job tz_offset_ms w tables later (acknowledge s org id actor now).1 job
            ≡ (stopped, (acknowledge s org id actor now).1))
          × (process_job tz_offset_ms w tables later (resolve s org id actor now).1 job
              ≡ (stopped, (resolve s org id actor now).1))
    handling_stops_escalation h o = (
      stops _ _ (acknowledge-incident_at h o) (acknowledged_form-closed now actor.user_id i),
      stops _ _ (resolve-incident_at h o)
          (is_resolved-not_open (resolved_form now i).status (resolved_form-resolved now i)),
    )
