-- ===== src/StateMachine/Streaks.antt =====
-- The counters of state-machine.ts against the history of checks, newest check first.
use uptimeflow.Common.{ℕ, suc, ◌≤◌, ◌≡◌, refl, ◌⊎◌, false, List, [], ◌∷◌, if◌then◌else◌, arith}
use uptimeflow.Enums.{MonitorHealth}
use uptimeflow.StateMachine.{MonitorState, Check, Progress, decide_check, advance, opens}

-- How many of the newest checks failed (succeeded) in a row.
abbrev pub failing_streak : List Check → ℕ
failing_streak [] = 0
failing_streak (c ∷ older) = if c.success then 0 else suc (failing_streak older)

abbrev pub passing_streak : List Check → ℕ
passing_streak [] = 0
passing_streak (c ∷ older) = if c.success then suc (passing_streak older) else 0

-- A monitor that was never checked.
abbrev pub fresh : Progress
fresh = record { health = MonitorHealth.pending; failures = 0; successes = 0 }

module _ (failure_threshold success_threshold : ℕ) where
  -- The monitor after a whole history.
  abbrev pub after : Progress → List Check → Progress
  after p [] = p
  after p (c ∷ older) = advance failure_threshold success_threshold (after p older) c

  -- From a monitor that was never checked on, the stored counters are the streaks of the history,
  -- maintenance or not.
  pub counters-after :
      (history : List Check)
      → ((after fresh history).failures ≡ failing_streak history)
        × ((after fresh history).successes ≡ passing_streak history)
  unfolding advance
  counters-after [] = (refl, refl)
  counters-after (c ∷ older) = ground (arith, counters-after older)

  -- From a monitor that was never checked on, a check opens an incident only when it is a failing
  -- check outside maintenance and the last of at least `failure_threshold` failing checks in a
  -- row.
  pub opens_needs_streak :
      (history : List Check) (c : Check)
      → (decide_check failure_threshold success_threshold (after fresh history) c).incident ≡ opens
      → (failure_threshold ≤ failing_streak (c ∷ history))
        × (c.success ≡ false)
        × (c.in_maintenance ≡ false)
  unfolding decide_check
  opens_needs_streak history c h = ground (arith, counters-after history)

  -- From a monitor that was never checked on, once it is down or recovering, a check declares it
  -- up only as the last of at least `success_threshold` passing checks in a row.
  pub recovery_needs_streak :
      (history : List Check) (c : Check)
      → ((after fresh history).health ≡ MonitorHealth.down)
        ⊎ ((after fresh history).health ≡ MonitorHealth.recovering)
      → (decide_check failure_threshold success_threshold (after fresh history) c).state
        ≡ MonitorState.up
      → success_threshold ≤ passing_streak (c ∷ history)
  unfolding decide_check
  recovery_needs_streak history c d h = ground (arith, counters-after history)
