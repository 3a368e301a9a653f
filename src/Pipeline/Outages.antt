-- ===== src/Pipeline/Outages.antt =====
-- The incidents of a monitor against its health, across pipeline.ts.
use uptimeflow.Common.{
  ℕ, ◌≡◌, ◌⊎◌, refl, ◌∙◌, true, Option, none, some, List, ◌==◌, any, Bool-cases, inl, inr, arith,
}
use uptimeflow.Enums.{RecordId, Instant}
use uptimeflow.Snapshot.{MonitorSnapshot, ProbeOutcome}
use uptimeflow.StateMachine.{
  IncidentAction, opens, resolves, nothing, TransitionInput, transition, to_health,
}
use uptimeflow.StateMachine.Incidents.{in_outage}
use uptimeflow.Store.{Store, Incident, holds_key, is_unresolved_of}
use uptimeflow.Store.Consistency.{
  unresolved, IsKeyed, IsConsistent, Closes, any-holds_key, any-holds_key-true, latest_unresolved,
  latest_unresolved-none, closes_latest, closes-IsConsistent, add-unresolved, add-IsConsistent,
}
use uptimeflow.Pipeline.Incidents.{new_incident, close_incident, duration_sec}
use uptimeflow.Pipeline.Process.{ProcessOptions, decide, process_check_result}
use uptimeflow.Pipeline.Lifecycle.{opened_incidents, closed_by, incidents_after, process-incidents}

pub close_incident-Closes : (now : Instant) (seconds : ℕ) → Closes (close_incident now seconds)
close_incident-Closes now seconds m i = ground arith

new_incident-mine :
    (monitor : MonitorSnapshot) (outcome : ProbeOutcome) (now : Instant) (id m : RecordId)
    → is_unresolved_of m (new_incident monitor outcome now id) ≡ (monitor.id == m)
new_incident-mine monitor outcome now id m = ground arith

new_incident-IsKeyed :
    (monitor : MonitorSnapshot) (outcome : ProbeOutcome) (now : Instant) (id : RecordId)
    → IsKeyed (new_incident monitor outcome now id)
new_incident-IsKeyed monitor outcome now id m = ground arith

module _ (monitor : MonitorSnapshot) (outcome : ProbeOutcome) (now : Instant) (id : RecordId)
    (is : List Incident) (c : IsConsistent is) where
  opened-IsConsistent : IsConsistent (opened_incidents monitor outcome now id is)
  opened-IsConsistent = elim (Bool-cases (any (holds_key monitor.id) is)) [
    | inl e ↦ rw e c
    | inr e ↦ rw e (
        add-IsConsistent monitor.id (new_incident monitor outcome now id)
          (new_incident-mine monitor outcome now id) (new_incident-IsKeyed monitor outcome now id)
          is c e)
  ]

  opened-unresolved : unresolved monitor.id (opened_incidents monitor outcome now id is) ≡ 1
  opened-unresolved = elim (Bool-cases (any (holds_key monitor.id) is)) [
    | inl e ↦ rw e (omega (arith, any-holds_key-true monitor.id is c.keyed e, c.single monitor.id))
    | inr e ↦ rw e (
        add-unresolved monitor.id (new_incident monitor outcome now id)
          (new_incident-mine monitor outcome now id) (new_incident-IsKeyed monitor outcome now id)
          monitor.id is
        ∙ ground (arith, any-holds_key monitor.id is c.keyed e))
  ]

  closed_by-IsConsistent : (o : Option Incident) → IsConsistent (closed_by now o is)
  closed_by-IsConsistent none = c
  closed_by-IsConsistent (some i) =
      closes-IsConsistent (close_incident now (duration_sec now i.started_at))
        (close_incident-Closes now (duration_sec now i.started_at)) i.id is c

  closed_by-unresolved :
      (o : Option Incident)
      → latest_unresolved monitor.id is ≡ o
      → unresolved monitor.id (closed_by now o is) ≡ 0
  closed_by-unresolved none e = latest_unresolved-none monitor.id is e
  closed_by-unresolved (some i) e = omega (
    arith,
    closes_latest (close_incident now (duration_sec now i.started_at))
        (close_incident-Closes now (duration_sec now i.started_at)) monitor.id is i e,
    c.single monitor.id,
  )

  after-IsConsistent :
      (a : IncidentAction) → IsConsistent (incidents_after a monitor outcome now id is)
  after-IsConsistent opens = opened-IsConsistent
  after-IsConsistent resolves = closed_by-IsConsistent (latest_unresolved monitor.id is)
  after-IsConsistent nothing = c

-- What a decision asks, against the health before and after it.
outage_kept :
    (t : TransitionInput)
    → in_outage (to_health (transition t).state) ≡ true
    → ((transition t).incident ≡ opens)
      ⊎ (((transition t).incident ≡ nothing) × (in_outage t.current ≡ true))
unfolding transition
outage_kept t h = ground arith

module _ (monitor : MonitorSnapshot) (outcome : ProbeOutcome) (opts : ProcessOptions) (s : Store)
    (c : IsConsistent s.incidents) where
  -- Processing a check on a consistent incident table leaves a consistent one: keys and statuses
  -- agree, and no monitor gets a second unresolved incident.
  pub process-IsConsistent : IsConsistent (process_check_result monitor outcome opts s).1.incidents
  process-IsConsistent =
      rw (process-incidents monitor outcome opts s)
        (after-IsConsistent monitor outcome opts.now s.next_id s.incidents c _)

  -- On a consistent incident table, when the decision opens an incident, the monitor has exactly
  -- one unresolved incident afterwards, whether or not it had one before.
  pub process-opens :
      (decide monitor outcome opts s).incident ≡ opens
      → unresolved monitor.id (process_check_result monitor outcome opts s).1.incidents ≡ 1
  process-opens h =
      rw (process-incidents monitor outcome opts s, h)
        (opened-unresolved monitor outcome opts.now s.next_id s.incidents c)

  -- On a consistent incident table, when the decision resolves, the monitor has no unresolved
  -- incident afterwards.
  pub process-resolves :
      (decide monitor outcome opts s).incident ≡ resolves
      → unresolved monitor.id (process_check_result monitor outcome opts s).1.incidents ≡ 0
  process-resolves h =
      rw (process-incidents monitor outcome opts s, h)
        (closed_by-unresolved monitor outcome opts.now s.next_id s.incidents c _ refl)

  -- On a consistent incident table, if a monitor that was down or recovering had exactly one
  -- unresolved incident, then the monitor has exactly one after any check that leaves it down or
  -- recovering.
  pub process-outage :
      (in_outage monitor.health ≡ true → unresolved monitor.id s.incidents ≡ 1)
      → in_outage (process_check_result monitor outcome opts s).0.new_health ≡ true
      → unresolved monitor.id (process_check_result monitor outcome opts s).1.incidents ≡ 1
  unfolding process_check_result decide
  process-outage before h = elim (outage_kept _ h) [
    | inl e ↦ process-opens e
    | inr (e, old) ↦ rw (process-incidents monitor outcome opts s, e) (before old)
  ]
