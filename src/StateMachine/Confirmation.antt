-- ===== src/StateMachine/Confirmation.antt =====
-- Enough checks of one kind settle the state of state-machine.ts from any state.
use uptimeflow.Common.{ℕ, ◌≤◌, ◌<◌, ◌≡◌, true, false, List, [], ◌∷◌, length, All, arith}
use uptimeflow.Enums.{MonitorHealth}
use uptimeflow.StateMachine.{Check, Progress, advance}
use uptimeflow.StateMachine.Streaks.{after}

abbrev pub IsFailing : Check → Type 0
IsFailing c = (c.success ≡ false) × (c.in_maintenance ≡ false)

abbrev pub IsPassing : Check → Type 0
IsPassing c = (c.success ≡ true) × (c.in_maintenance ≡ false)

module _ (failure_threshold success_threshold : ℕ) where
  failures-ge-length :
      (p : Progress) (history : List Check)
      → All IsFailing history
      → length history ≤ (after failure_threshold success_threshold p history).failures
  unfolding advance
  failures-ge-length p [] h = omega arith
  failures-ge-length p (c ∷ older) h = ground (arith, failures-ge-length p older h.1)

  successes-ge-length :
      (p : Progress) (history : List Check)
      → All IsPassing history
      → length history ≤ (after failure_threshold success_threshold p history).successes
  unfolding advance
  successes-ge-length p [] h = omega arith
  successes-ge-length p (c ∷ older) h = ground (arith, successes-ge-length p older h.1)

  -- From any state and any counters, a run of at least `failure_threshold` failing checks outside
  -- maintenance (and at least one) leaves the monitor down.
  pub failing_run-down :
      (p : Progress) (history : List Check)
      → All IsFailing history
      → failure_threshold ≤ length history
      → 0 < length history
      → (after failure_threshold success_threshold p history).health ≡ MonitorHealth.down
  unfolding advance
  failing_run-down p [] h k n = absurd (omega arith)
  failing_run-down p (c ∷ older) h k n = ground (arith, failures-ge-length p older h.1)

  -- From any state and any counters, a run of at least `success_threshold` passing checks outside
  -- maintenance (and at least one) leaves the monitor up.
  pub passing_run-up :
      (p : Progress) (history : List Check)
      → All IsPassing history
      → success_threshold ≤ length history
      → 0 < length history
      → (after failure_threshold success_threshold p history).health ≡ MonitorHealth.up
  unfolding advance
  passing_run-up p [] h k n = absurd (omega arith)
  passing_run-up p (c ∷ older) h k n = ground (arith, successes-ge-length p older h.1)
