-- ===== src/StateMachine.antt =====
-- packages/monitoring/src/state-machine.ts: the transition of a monitor's state on one check.
pub mod Incidents
pub mod Streaks
pub mod Confirmation
mod Tests
use uptimeflow.Common.{ℕ, ◌+◌, Bool, true, false, not, ◌&&◌, ◌||◌, leb, if◌then◌else◌}
use uptimeflow.Enums.{MonitorHealth}

-- The five canonical states.
pub data MonitorState : Type 0 where
  pending up down recovering maintenance : MonitorState

pub data IncidentAction : Type 0 where
  opens resolves nothing : IncidentAction

pub record TransitionInput : Type 0 where
  pub current : MonitorHealth
  pub success : Bool
  pub prior_consecutive_failures : ℕ
  pub prior_consecutive_successes : ℕ
  pub failure_threshold : ℕ
  pub success_threshold : ℕ
  pub in_maintenance : Bool

pub record TransitionResult : Type 0 where
  pub state : MonitorState
  pub consecutive_failures : ℕ
  pub consecutive_successes : ℕ
  pub incident : IncidentAction
  pub changed : Bool

unfoldable pub normalize : MonitorHealth → MonitorState
normalize MonitorHealth.down = MonitorState.down
normalize MonitorHealth.recovering = MonitorState.recovering
normalize MonitorHealth.pending = MonitorState.pending
normalize MonitorHealth.maintenance = MonitorState.maintenance
normalize _ = MonitorState.up

-- `next === prev` on states
abbrev pub same_state : MonitorState → MonitorState → Bool
same_state MonitorState.pending MonitorState.pending = true
same_state MonitorState.up MonitorState.up = true
same_state MonitorState.down MonitorState.down = true
same_state MonitorState.recovering MonitorState.recovering = true
same_state MonitorState.maintenance MonitorState.maintenance = true
same_state _ _ = false

unfoldable pub incident_action : MonitorState → MonitorState → IncidentAction
incident_action prev next =
    if same_state next MonitorState.down
      && (not (same_state prev MonitorState.down) && not (same_state prev MonitorState.recovering))
    then opens
    else if same_state next MonitorState.up
        && (same_state prev MonitorState.down
            || (same_state prev MonitorState.recovering
                || same_state prev MonitorState.maintenance))
    then resolves
    else nothing

-- The `switch` on the previous state, outside maintenance.
unfoldable pub next_state : MonitorState → Bool → Bool → Bool → MonitorState
next_state MonitorState.pending success failure_confirmed success_confirmed =
    if success
    then MonitorState.up
    else if failure_confirmed
    then MonitorState.down
    else MonitorState.pending
next_state MonitorState.down success failure_confirmed success_confirmed =
    if not success
    then MonitorState.down
    else if success_confirmed
    then MonitorState.up
    else MonitorState.recovering
next_state MonitorState.recovering success failure_confirmed success_confirmed =
    if not success
    then MonitorState.down
    else if success_confirmed
    then MonitorState.up
    else MonitorState.recovering
next_state MonitorState.maintenance success failure_confirmed success_confirmed =
    if success
    then MonitorState.up
    else if failure_confirmed
    then MonitorState.down
    else MonitorState.up
next_state MonitorState.up success failure_confirmed success_confirmed =
    if success
    then MonitorState.up
    else if failure_confirmed
    then MonitorState.down
    else MonitorState.up

unfoldable pub transition : TransitionInput → TransitionResult
unfolding normalize next_state incident_action
transition input =
    let prev = normalize input.current in
    let failures : ℕ = if input.success then 0 else input.prior_consecutive_failures + 1 in
    let successes : ℕ = if input.success then input.prior_consecutive_successes + 1 else 0 in
    let next =
      if input.in_maintenance
      then MonitorState.maintenance
      else next_state prev input.success (leb input.failure_threshold failures)
          (leb input.success_threshold successes) in
    record {
      state = next;
      consecutive_failures = failures;
      consecutive_successes = successes;
      incident = incident_action prev next;
      changed = not (same_state next prev);
    }

-- What the pipeline stores as the monitor's health: the state under the same name.
abbrev pub to_health : MonitorState → MonitorHealth
to_health MonitorState.pending = MonitorHealth.pending
to_health MonitorState.up = MonitorHealth.up
to_health MonitorState.down = MonitorHealth.down
to_health MonitorState.recovering = MonitorHealth.recovering
to_health MonitorState.maintenance = MonitorHealth.maintenance

-- One check as the machine sees it: its outcome, and whether a maintenance window was active.
pub record Check : Type 0 where
  pub success : Bool
  pub in_maintenance : Bool

-- What a monitor carries from one check to the next.
pub record Progress : Type 0 where
  pub health : MonitorHealth
  pub failures : ℕ
  pub successes : ℕ

module _ (failure_threshold success_threshold : ℕ) where
  unfoldable pub decide_check : Progress → Check → TransitionResult
  unfolding transition
  decide_check p c = transition (record {
    current = p.health;
    success = c.success;
    prior_consecutive_failures = p.failures;
    prior_consecutive_successes = p.successes;
    failure_threshold = failure_threshold;
    success_threshold = success_threshold;
    in_maintenance = c.in_maintenance;
  })

  -- The monitor's new state after one check, as the pipeline writes it back.
  unfoldable pub advance : Progress → Check → Progress
  unfolding decide_check
  advance p c =
      let r = decide_check p c in
      record {
        health = to_health r.state;
        failures = r.consecutive_failures;
        successes = r.consecutive_successes;
      }
