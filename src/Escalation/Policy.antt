-- ===== src/Escalation/Policy.antt =====
-- The escalation tables, and the starter of packages/monitoring/src/escalation/engine.ts.
use uptimeflow.Common.{
  ℕ, ◌*◌, Bool, true, false, Option, List, [], ◌∷◌, ◌++◌, ◌==◌, leb, select, if◌then◌else◌,
}
use uptimeflow.Common.Int.{ℤ, pos_part}
use uptimeflow.Enums.{RecordId, Instant}
use uptimeflow.Store.{Store, EscalationJob}

pub data TargetType : Type 0 where
  user schedule channel : TargetType

pub record Target : Type 0 where
  pub type : TargetType
  pub user_id : Option RecordId
  pub schedule_id : Option RecordId
  pub channel_id : Option RecordId

pub record StepRow : Type 0 where
  pub policy_id : RecordId
  pub position : ℕ
  pub delay_minutes : ℤ
  pub targets : List Target

pub record PolicyRow : Type 0 where
  pub id : RecordId
  pub repeat_count : ℕ
  pub deleted_at : Option Instant

pub record PolicyTables : Type 0 where
  pub policies : List PolicyRow
  pub steps : List StepRow

-- `orderBy: { position: "asc" }`
abbrev pub insert_step : StepRow → List StepRow → List StepRow
insert_step x [] = x ∷ []
insert_step x (y ∷ ys) =
    let later = y ∷ insert_step x ys in if leb x.position y.position then x ∷ (y ∷ ys) else later

abbrev pub sort_steps : List StepRow → List StepRow
sort_steps [] = []
sort_steps (x ∷ xs) = insert_step x (sort_steps xs)

unfoldable pub steps_of : PolicyTables → RecordId → List StepRow
steps_of tables policy_id = sort_steps (select (λ x. x.policy_id == policy_id) tables.steps)

-- `Math.max(0, m) * 60_000`
abbrev pub minutes_to_ms : ℤ → ℕ
minutes_to_ms m = pos_part m * 60_000

pub record EscalationContext : Type 0 where
  pub incident_id : RecordId
  pub organization_id : RecordId
  pub monitor_id : Option RecordId
  pub policy_id : RecordId

unfoldable pub add_job : Store → EscalationJob → ℕ → Store
add_job s job delay = record s { escalation_jobs = s.escalation_jobs ++ (job, delay) ∷ [] }

abbrev pub first_job : EscalationContext → EscalationJob
first_job ctx = record {
  incident_id = ctx.incident_id;
  organization_id = ctx.organization_id;
  monitor_id = ctx.monitor_id;
  policy_id = ctx.policy_id;
  step_index = 0;
  round = 0;
}

-- `start`: the first step's job after its delay, or `false` for a policy with no steps.
unfoldable pub start : PolicyTables → Store → EscalationContext → Bool × Store
start tables s ctx = elim (steps_of tables ctx.policy_id) [
  | [] ↦ (false, s)
  | first ∷ _ ↦ (true, add_job s (first_job ctx) (minutes_to_ms first.delay_minutes))
]
