-- ===== src/StateMachine/Tests.antt =====
-- The state machine at concrete thresholds: three failures to go down, two successes to recover.
use uptimeflow.Common.{◌≤◌, ◌≡◌, refl, true, false, some, [], ◌∷◌}
use uptimeflow.Enums.{MonitorHealth}
use uptimeflow.StateMachine.{
  MonitorState, opens, resolves, nothing, Check, Progress, decide_check, advance,
}
use uptimeflow.StateMachine.Streaks.{failing_streak, after, opens_needs_streak}
use uptimeflow.StateMachine.Incidents.{in_outage, followed, incidents_bracketed}

abbrev bad : Check
bad = record { success = false; in_maintenance = false }

abbrev good : Check
good = record { success = true; in_maintenance = false }

abbrev hidden : Check
hidden = record { success = false; in_maintenance = true }

abbrev healthy : Progress
healthy = record { health = MonitorHealth.up; failures = 0; successes = 9 }

abbrev broken : Progress
broken = record { health = MonitorHealth.down; failures = 5; successes = 0 }

abbrev serviced : Progress
serviced = record { health = MonitorHealth.maintenance; failures = 0; successes = 0 }

-- Two failures are not enough, the third one opens an incident.
third_failure_opens : (decide_check 3 2 (after 3 2 healthy (bad ∷ bad ∷ [])) bad).incident ≡ opens
unfolding advance decide_check
third_failure_opens = refl

second_failure_waits : (decide_check 3 2 (after 3 2 healthy (bad ∷ [])) bad).incident ≡ nothing
unfolding advance decide_check
second_failure_waits = refl

relapse_keeps_the_incident :
    (decide_check 3 2 (after 3 2 broken (good ∷ [])) bad).incident ≡ nothing
unfolding advance decide_check
relapse_keeps_the_incident = refl

incidents_bracketed_example :
    followed 3 2 healthy (good ∷ bad ∷ bad ∷ bad ∷ [])
    ≡ some (in_outage (after 3 2 healthy (good ∷ bad ∷ bad ∷ bad ∷ [])).health)
incidents_bracketed_example =
    incidents_bracketed 3 2 healthy (good ∷ bad ∷ bad ∷ bad ∷ []) (λ h. cc)
      (refl, (refl, (refl, (refl, tt))))

-- The first failing check after maintenance, below the threshold, asks to resolve.
failed_check_resolves :
    ((decide_check 3 2 serviced bad).state ≡ MonitorState.up)
    × ((decide_check 3 2 serviced bad).incident ≡ resolves)
unfolding decide_check
failed_check_resolves = (refl, refl)

opens_needs_streak_example :
    (3 ≤ failing_streak (bad ∷ bad ∷ bad ∷ []))
    × (bad.success ≡ false)
    × (bad.in_maintenance ≡ false)
unfolding advance decide_check
opens_needs_streak_example = opens_needs_streak 3 2 (bad ∷ bad ∷ []) bad refl
