-- ===== src/Escalation/Firing.antt =====
-- What one job of an open incident does in engine.ts.
use mathlib.Core.List.{append-nil}
use uptimeflow.Common.{
  ℕ, zero, suc, ◌≤◌, ◌<◌, ◌≡◌, refl, ap, sym, subst, ◌∙◌, true, ◌&&◌, Option, none, some, List, [],
  ◌∷◌, ◌++◌, ◌==◌, find, length, get_elem?, arith,
}
use uptimeflow.Common.Int.{ℤ}
use uptimeflow.Common.Text.{Text}
use uptimeflow.Enums.{RecordId, Instant, is_open}
use uptimeflow.Store.{Store, Incident, EscalationJob, is_live, add_event, write_audit}
use uptimeflow.Alerting.Dispatch.Laws.{dispatch_to_channels_lem}
use uptimeflow.Escalation.Policy.{StepRow, PolicyRow, PolicyTables, steps_of, add_job}
use uptimeflow.Escalation.Paging.{Wiring, IncidentContext, execute_step}
use uptimeflow.Escalation.Engine.{
  JobResult, fired, job_at, next_job, enqueue_next, context_of, run_at, run_step, run_policy,
  run_incident, process_job,
}

-- The position of the step that a job fired, in a list that is empty where it fired none.
abbrev pub fired_positions : JobResult → List ℕ
fired_positions (fired position _ _) = position ∷ []
fired_positions _ = []

-- The part of the store that decides how an escalation goes on.
abbrev pub Chain : Type 0
Chain = List Incident × List (EscalationJob × ℕ)

abbrev pub chain : Store → Chain
chain s = (s.incidents, s.escalation_jobs)

abbrev pub listed : Option (EscalationJob × ℕ) → List (EscalationJob × ℕ)
listed none = []
listed (some j) = j ∷ []

pub get_some :
    (steps : List StepRow) (i : ℕ) → i < length steps → (x : StepRow) × (get_elem? steps i ≡ some x)
get_some [] i h = absurd (omega arith)
get_some (x ∷ xs) zero h = (x, refl)
get_some (x ∷ xs) (suc i) h = get_some xs i (omega arith)

pub get_none : (steps : List StepRow) (i : ℕ) → length steps ≤ i → get_elem? steps i ≡ none
get_none [] i h = refl
get_none (x ∷ xs) zero h = absurd (omega arith)
get_none (x ∷ xs) (suc i) h = get_none xs i (omega arith)

enqueue_next-jobs :
    (s : Store) (o : Option (EscalationJob × ℕ))
    → (enqueue_next s o).escalation_jobs ≡ s.escalation_jobs ++ listed o
unfolding enqueue_next add_job
enqueue_next-jobs s none = sym (append-nil s.escalation_jobs)
enqueue_next-jobs s (some (j, d)) = refl

enqueue_next-incidents :
    (s : Store) (o : Option (EscalationJob × ℕ)) → (enqueue_next s o).incidents ≡ s.incidents
unfolding enqueue_next add_job
enqueue_next-incidents s none = refl
enqueue_next-incidents s (some (j, d)) = refl

module _ (tz_offset_ms : Instant → Text → ℤ) (w : Wiring tz_offset_ms) (tables : PolicyTables)
    (now : Instant) where
  execute_step-chain :
      (incident_id organization_id : RecordId) (c : IncidentContext) (step : StepRow) (s : Store)
      → chain (execute_step tz_offset_ms w incident_id organization_id c now step s).1 ≡ chain s
  unfolding execute_step add_event write_audit
  execute_step-chain incident_id organization_id c step s =
      ap (λ (r : ℕ × Store). chain r.1) (dispatch_to_channels_lem s _ _)

  -- What a job does whose step is there.
  abbrev pub Fires : Store → JobResult × Store → List StepRow → ℕ → EscalationJob → StepRow → Type 0
  Fires s r steps n job x =
      (fired_positions r.0 ≡ x.position ∷ [])
      × (r.1.escalation_jobs ≡ s.escalation_jobs ++ listed (next_job steps n job))
      × (r.1.incidents ≡ s.incidents)

  run_at-Fires :
      (s : Store) (job : EscalationJob) (i : Incident) (steps : List StepRow) (n : ℕ) (x : StepRow)
      → Fires s (run_at tz_offset_ms w tables now s job i steps n (some x)) steps n job x
  unfolding run_at
  run_at-Fires s job i steps n x = (
    refl,
    enqueue_next-jobs _ (next_job steps n job)
        ∙ ap (λ (c : Chain). c.1 ++ listed (next_job steps n job))
            (execute_step-chain job.incident_id job.organization_id (context_of s i) x s),
    enqueue_next-incidents _ (next_job steps n job)
        ∙ ap (λ (c : Chain). c.0)
            (execute_step-chain job.incident_id job.organization_id (context_of s i) x s),
  )

  module _ (incident : Incident) (policy : PolicyRow) (first : StepRow) (rest : List StepRow)
      (job : EscalationJob) (is_there : steps_of tables job.policy_id ≡ first ∷ rest)
      (is_policy : find
          (λ (p : PolicyRow). p.id == job.policy_id && is_live p.deleted_at)
          tables.policies
        ≡ some policy)
      (opened : is_open incident.status ≡ true) where
    abbrev steps : List StepRow
    steps = first ∷ rest

    process_job-run_at :
        (s : Store) (index round : ℕ) (x : StepRow)
        → find (λ (i : Incident). i.id == job.incident_id) s.incidents ≡ some incident
        → get_elem? steps index ≡ some x
        → process_job tz_offset_ms w tables now s (job_at job index round)
          ≡ run_at tz_offset_ms w tables now s
              (job_at job index round)
              incident
              steps
              policy.repeat_count
              (some x)
    unfolding process_job run_incident run_policy run_step
    process_job-run_at s index round x found e =
        let jb = job_at job index round in
        ap (run_incident tz_offset_ms w tables now s jb) found
        ∙ rw (opened, is_policy, is_there)
            (ap (run_at tz_offset_ms w tables now s jb incident steps policy.repeat_count) e)

    pub process_job-Fires :
        (s : Store) (index round : ℕ) (x : StepRow)
        → find (λ (i : Incident). i.id == job.incident_id) s.incidents ≡ some incident
        → get_elem? steps index ≡ some x
        → Fires s
            (process_job tz_offset_ms w tables now s (job_at job index round))
            steps
            policy.repeat_count
            (job_at job index round)
            x
    process_job-Fires s index round x found e =
        subst (λ r. Fires s r steps policy.repeat_count (job_at job index round) x)
          (sym (process_job-run_at s index round x found e))
          (run_at-Fires s (job_at job index round) incident steps policy.repeat_count x)
