-- ===== src/Checks/Execute.antt =====
-- packages/monitoring/src/execute.ts: the classification of a signal, and the loop over attempts.
use uptimeflow.Common.{
  ℕ, zero, suc, ◌+◌, Bool, true, false, ◌||◌, Option, none, some, List, any, find, if◌then◌else◌,
}
use uptimeflow.Common.Text.{Text, codes, text_eq}
use uptimeflow.Enums.{CheckStatus}
use uptimeflow.Runtime.{Runtime}
use uptimeflow.Snapshot.{
  MonitorSnapshot, ProbeSignal, ProbeOutcome, ValidationSeverity, ValidationResult, is_success,
}
use uptimeflow.Checks.Validations.{evaluate_validations}
use mathlib.Core.Option

abbrev error_is : Option Text → Text → Bool
error_is none t = false
error_is (some s) t = text_eq s t

unfoldable pub status_for_unreachable : Option Text → CheckStatus
status_for_unreachable error_type =
    if error_is error_type (codes "timeout")
    then CheckStatus.timeout
    else if error_is error_type (codes "config") || error_is error_type (codes "error")
    then CheckStatus.error
    else CheckStatus.down

abbrev pub is_error : ValidationResult → Bool
is_error v = elim v.severity [ ValidationSeverity.error ↦ true | ValidationSeverity.warn ↦ false ]

abbrev pub is_warn : ValidationResult → Bool
is_warn v = elim v.severity [ ValidationSeverity.error ↦ false | ValidationSeverity.warn ↦ true ]

-- The status of a reachable signal, from its violations.
unfoldable pub status_of_violations : List ValidationResult → CheckStatus
status_of_violations validations =
    if any is_error validations
    then CheckStatus.down
    else if any is_warn validations
    then CheckStatus.degraded
    else CheckStatus.up

module _ (rt : Runtime) where
  -- `attempts` is filled in by the loop.
  unfoldable pub classify_signal : MonitorSnapshot → ProbeSignal → ℕ → ProbeOutcome
  unfolding status_of_violations
  classify_signal monitor signal attempts =
      let validations = evaluate_validations rt monitor signal in
      let has_error = any is_error validations in
      if signal.reachable
      then record {
        status = status_of_violations validations;
        status_code = signal.status_code;
        response_ms = some signal.response_ms;
        error_type = if has_error then some (codes "assert") else none;
        error_message =
            if has_error
            then Option.map (λ (v : ValidationResult). v.message) (find is_error validations)
            else none;
        cert = signal.cert;
        dns = signal.dns;
        domain = signal.domain;
        validations = validations;
        attempts = attempts;
      }
      else record {
        status = status_for_unreachable signal.error_type;
        status_code = none;
        response_ms = some signal.response_ms;
        error_type = signal.error_type;
        error_message = signal.error_message;
        cert = none;
        dns = none;
        domain = none;
        validations = List.[];
        attempts = attempts;
      }

  -- The loop, with `left` retries to go. The probe is a parameter: what attempt number `k` yields,
  -- `none` where it throws (the loop then throws too).
  unfoldable pub attempt_from :
      MonitorSnapshot → (ℕ → Option ProbeSignal) → ℕ → ℕ → Option ProbeOutcome
  attempt_from monitor probe zero attempt =
      Option.map (λ signal. classify_signal monitor signal (attempt + 1)) (probe attempt)
  attempt_from monitor probe (suc left) attempt =
      let again = attempt_from monitor probe left (attempt + 1) in
      elim (probe attempt) [
        | none ↦ none
        | some signal ↦
            let outcome = classify_signal monitor signal (attempt + 1) in
            if is_success outcome.status then some outcome else again
      ]

  unfoldable pub execute_check : MonitorSnapshot → (ℕ → Option ProbeSignal) → Option ProbeOutcome
  unfolding attempt_from
  execute_check monitor probe = attempt_from monitor probe monitor.retries 0
