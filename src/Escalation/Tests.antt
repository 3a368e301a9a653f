-- ===== src/Escalation/Tests.antt =====
-- A policy of two steps that is repeated once, on an open incident.
use uptimeflow.Common.{◌+◌, ◌≡◌, refl, none, some, [], ◌∷◌, arith, length, count, ◌≤◌}
use uptimeflow.Common.Int.{ℤ, pos}
use uptimeflow.Common.Text.{Text, codes}
use uptimeflow.Enums.{RecordId, Instant, IncidentStatus}
use uptimeflow.Store.{Store, IncidentSeverity}
use uptimeflow.Escalation.Policy.{
  TargetType, Target, StepRow, PolicyRow, PolicyTables, EscalationContext, steps_of, start,
}
use uptimeflow.Escalation.Paging.{
  IncidentContext, StepResult, Paged, Wiring, execute_step, chosen_for, paged_for,
}
use uptimeflow.Escalation.Rounds.{drain, escalation_rounds}
use uptimeflow.Escalation.Guards.{is_user, is_failure, execute_step_accounts}
use uptimeflow.Samples.{org, incident_of, store_of}

abbrev utc : Instant → Text → ℤ
utc now zone = pos 0

abbrev to_user : RecordId → Target
to_user id = record {
  type = TargetType.user;
  user_id = some id;
  schedule_id = none;
  channel_id = none;
}

abbrev to_channel : RecordId → Target
to_channel id = record {
  type = TargetType.channel;
  user_id = none;
  schedule_id = none;
  channel_id = some id;
}

-- The same person twice, and a channel.
abbrev first_step : StepRow
first_step = record {
  policy_id = 40;
  position = 0;
  delay_minutes = pos 0;
  targets = to_user 11 ∷ (to_user 11 ∷ (to_channel 20 ∷ []));
}

abbrev second_step : StepRow
second_step = record {
  policy_id = 40;
  position = 1;
  delay_minutes = pos 5;
  targets = to_user 12 ∷ [];
}

abbrev policy : PolicyRow
policy = record { id = 40; repeat_count = 1; deleted_at = none }

abbrev tables : PolicyTables
tables = record { policies = policy ∷ []; steps = second_step ∷ (first_step ∷ []) }

abbrev wired : Wiring utc
wired = record {
  schedules = [];
  users = record { id = 11; email = codes "a@b.io"; name = codes "ann" } ∷ [];
  responders = some (λ page. none);
}

abbrev outage : Store
outage = store_of (incident_of 50 IncidentStatus.opened 1_000 ∷ [])

abbrev context : IncidentContext
context = record {
  title = codes "api is down";
  summary = none;
  severity = IncidentSeverity.major;
  monitor_name = none;
}

abbrev incident_context : EscalationContext
incident_context = record {
  incident_id = 50;
  organization_id = org;
  monitor_id = some 7;
  policy_id = 40;
}

escalation_rounds_example :
    drain utc wired tables (λ k. 9_000) 4 (start tables outage incident_context).1
    ≡ 0 ∷ (1 ∷ (0 ∷ (1 ∷ [])))
unfolding steps_of
escalation_rounds_example =
    escalation_rounds utc wired tables (λ k. 9_000) (incident_of 50 IncidentStatus.opened 1_000)
      policy first_step (second_step ∷ []) incident_context 4 outage refl refl refl refl refl
      (omega arith)

abbrev first_result : StepResult
first_result = (execute_step utc wired 50 org context 9_000 first_step outage).0

abbrev first_paged : Paged
first_paged =
    paged_for utc wired 50 org context 9_000 first_step
      (chosen_for utc wired 50 org context 9_000 first_step).responders

execute_step_accounts_example :
    (count (is_user 11) first_result.responders ≤ 1)
    × (count (is_user 11) first_paged.paged + count (is_failure 11) first_paged.failed
        ≡ count (is_user 11) first_result.responders)
    × (first_result.responders_paged ≡ length first_paged.paged)
    × (first_result.responders_failed ≡ length first_paged.failed)
execute_step_accounts_example =
    execute_step_accounts 11 utc wired 50 org context 9_000 first_step outage
