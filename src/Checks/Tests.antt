-- ===== src/Checks/Tests.antt =====
-- Checks of a monitor that expects status 200 and has one retry.
use uptimeflow.Common.{ℕ, zero, suc, ◌≡◌, refl, true, some}
use uptimeflow.Enums.{MonitorHealth, CheckStatus}
use uptimeflow.Snapshot.{MonitorSnapshot, ProbeSignal}
use uptimeflow.Checks.Validations.{
  check_status, check_keyword, check_cert, check_domain, check_assertions, evaluate_validations,
}
use uptimeflow.Checks.Execute.{classify_signal, execute_check}
use uptimeflow.Checks.Verdicts.{verdict, classify_signal-verdict}
use uptimeflow.Checks.Retries.{IsDecided, execute_check-IsDecided}
use uptimeflow.Pipeline.Snapshots.{to_snapshot}
use uptimeflow.Samples.{runtime, monitor_of, signal_of}

abbrev checked : MonitorSnapshot
checked = monitor_of MonitorHealth.up 0

-- The first attempt answers 503, the later ones 200.
abbrev flaky : ℕ → ProbeSignal
flaky zero = signal_of true 503
flaky (suc k) = signal_of true 200

wrong_status_is_down :
    (classify_signal runtime checked (signal_of true 503) 1).status ≡ CheckStatus.down
unfolding classify_signal evaluate_validations check_status check_keyword check_cert check_domain
    check_assertions to_snapshot
wrong_status_is_down = refl

classify_signal-verdict_example :
    (classify_signal runtime checked (signal_of true 503) 1).status
    ≡ verdict runtime checked (signal_of true 503)
classify_signal-verdict_example =
    classify_signal-verdict runtime checked (signal_of true 503) 1 refl

execute_check-IsDecided_example :
    (k : ℕ) × IsDecided runtime checked flaky 0 1
      (execute_check runtime checked (λ i. some (flaky i)))
      k
unfolding to_snapshot
execute_check-IsDecided_example = execute_check-IsDecided runtime checked flaky
