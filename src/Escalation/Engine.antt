-- ===== src/Escalation/Engine.antt =====
-- `createEscalationProcessor` of packages/monitoring/src/escalation/engine.ts: one job of the queue.
use mathlib.Core.Option
use uptimeflow.Common.{
  ℕ, suc, ◌+◌, Bool, true, false, ◌&&◌, Option, none, some, List, [], ◌∷◌, ◌==◌, ltb, find,
  get_elem?, if◌then◌else◌,
}
use uptimeflow.Common.Int.{ℤ}
use uptimeflow.Common.Text.{Text}
use uptimeflow.Enums.{Instant, is_open}
use uptimeflow.Store.{Store, MonitorRow, Incident, EscalationJob, is_id, is_live}
use uptimeflow.Escalation.Policy.{
  StepRow, PolicyRow, PolicyTables, steps_of, minutes_to_ms, add_job,
}
use uptimeflow.Escalation.Paging.{Wiring, IncidentContext, StepResult, execute_step}

pub data JobResult : Type 0 where
  no_incident stopped no_policy exhausted : JobResult
  repeated : ℕ → JobResult
  -- position of the step, what it did, and whether another job was scheduled
  fired : ℕ → StepResult → Bool → JobResult

-- The job for step `index` in round `round`.
abbrev pub job_at : EscalationJob → ℕ → ℕ → EscalationJob
job_at job index round = record job { step_index = index; round = round }

abbrev first_delay : List StepRow → ℕ
first_delay [] = 0
first_delay (step ∷ rest) = minutes_to_ms step.delay_minutes

-- `round < policy.repeatCount`: the first step again, in the next round.
unfoldable pub next_round : List StepRow → ℕ → EscalationJob → Option (EscalationJob × ℕ)
next_round steps repeat_count job =
    if ltb job.round repeat_count
    then some (job_at job 0 (job.round + 1), first_delay steps)
    else none

-- What follows a step that fired.
unfoldable pub next_job : List StepRow → ℕ → EscalationJob → Option (EscalationJob × ℕ)
unfolding next_round
next_job steps repeat_count job = elim (get_elem? steps (suc job.step_index)) [
  | some next ↦ some (job_at job (suc job.step_index) job.round, minutes_to_ms next.delay_minutes)
  | none ↦ next_round steps repeat_count job
]

unfoldable pub enqueue_next : Store → Option (EscalationJob × ℕ) → Store
unfolding add_job
enqueue_next s none = s
enqueue_next s (some (job, delay)) = add_job s job delay

abbrev pub is_scheduled : Option (EscalationJob × ℕ) → Bool
is_scheduled none = false
is_scheduled (some _) = true

abbrev after_repeat : Option (EscalationJob × ℕ) → ℕ → JobResult
after_repeat none round = exhausted
after_repeat (some _) round = repeated round

abbrev monitor_name : List MonitorRow → Incident → Option Text
monitor_name monitors i =
    Option.map (λ (m : MonitorRow). m.name)
      (find (λ (m : MonitorRow). is_id m.id i.monitor_id) monitors)

abbrev pub context_of : Store → Incident → IncidentContext
context_of s i = record {
  title = i.title;
  summary = i.summary;
  severity = i.severity;
  monitor_name = monitor_name s.monitors i;
}

module _ (tz_offset_ms : Instant → Text → ℤ) (w : Wiring tz_offset_ms) (tables : PolicyTables)
    (now : Instant) where
  -- The step of the job, or the end of a round.
  unfoldable pub run_at :
      Store → EscalationJob → Incident → List StepRow → ℕ → Option StepRow → JobResult × Store
  run_at s job i steps repeat_count none =
      let next = next_round steps repeat_count job in
      (after_repeat next (job.round + 1), enqueue_next s next)
  run_at s job i steps repeat_count (some step) =
      let next = next_job steps repeat_count job in
      let (result, paged) =
        execute_step tz_offset_ms w job.incident_id job.organization_id (context_of s i) now step
          s in
      (fired step.position result (is_scheduled next), enqueue_next paged next)

  unfoldable pub run_step : Store → EscalationJob → Incident → List StepRow → ℕ → JobResult × Store
  unfolding run_at
  run_step s job i steps repeat_count =
      run_at s job i steps repeat_count (get_elem? steps job.step_index)

  -- `!policy || policy.steps.length === 0`
  unfoldable pub run_policy :
      Store → EscalationJob → Incident → Option PolicyRow → List StepRow → JobResult × Store
  run_policy s job i none steps = (no_policy, s)
  run_policy s job i (some p) [] = (no_policy, s)
  run_policy s job i (some p) (step ∷ rest) = run_step s job i (step ∷ rest) p.repeat_count

  -- An incident that is not open stops its escalation here.
  unfoldable pub run_incident : Store → EscalationJob → Option Incident → JobResult × Store
  run_incident s job none = (no_incident, s)
  run_incident s job (some i) =
      if is_open i.status
      then run_policy s job i
          (find (λ (p : PolicyRow). p.id == job.policy_id && is_live p.deleted_at) tables.policies)
          (steps_of tables job.policy_id)
      else (stopped, s)

  unfoldable pub process_job : Store → EscalationJob → JobResult × Store
  process_job s job =
      run_incident s job (find (λ (i : Incident). i.id == job.incident_id) s.incidents)
