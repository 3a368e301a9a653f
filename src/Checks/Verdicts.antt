-- ===== src/Checks/Verdicts.antt =====
-- What the validations of assertions.ts and the classification of execute.ts amount to.
use uptimeflow.Common.{
  ℕ, ◌≡◌, refl, Bool, true, false, not, ◌&&◌, ◌||◌, Option, none, some, List, [], ◌∷◌, any,
  any-append, if◌then◌else◌, ◌==◌, or_else, arith,
}
use uptimeflow.Common.Int.{ℤ, pos, leb_ℤ, ltb_ℤ}
use uptimeflow.Common.Text.{Text, includes}
use uptimeflow.Enums.{CheckStatus}
use uptimeflow.Runtime.{Runtime}
use uptimeflow.Snapshot.{AssertionDef, MonitorSnapshot, ProbeSignal, ValidationCode, is_success}
use uptimeflow.Checks.Comparators.{assertion_holds}
use uptimeflow.Checks.Validations.{
  is_ssl_expiry, is_domain_expiry, is_soft, check_status, check_keyword, check_expiry, check_cert,
  check_domain, check_assertions, evaluate_validations, keyword_violation,
}
use uptimeflow.Checks.Execute.{is_error, is_warn, classify_signal, status_for_unreachable}

abbrev pub wrong_status : MonitorSnapshot → ProbeSignal → Bool
wrong_status monitor signal = elim monitor.expected_status [
  | none ↦ false
  | some expected ↦ elim signal.status_code [ none ↦ false | some got ↦ not (got == expected) ]
]

-- A keyword is wrong when its presence equals its being forbidden.
abbrev pub wrong_keyword : MonitorSnapshot → ProbeSignal → Bool
wrong_keyword monitor signal = elim monitor.keyword [
  | none ↦ false
  | some [] ↦ false
  | some (c ∷ word) ↦
      if includes (or_else signal.body []) (c ∷ word)
      then monitor.keyword_inverted
      else not monitor.keyword_inverted
]

-- The days left on the certificate (the registration), where the default rule applies to them.
abbrev pub cert_days : MonitorSnapshot → ProbeSignal → Option ℤ
cert_days monitor signal = elim signal.cert [
  | none ↦ none
  | some cert ↦ if any is_ssl_expiry monitor.assertions then none else some cert.days_until_expiry
]

abbrev pub domain_days : MonitorSnapshot → ProbeSignal → Option ℤ
domain_days monitor signal = elim signal.domain [
  | none ↦ none
  | some domain ↦
      if any is_domain_expiry monitor.assertions then none else some domain.days_until_expiry
]

abbrev pub has_expired : Option ℤ → Bool
has_expired none = false
has_expired (some days) = leb_ℤ days (pos 0)

abbrev pub expires_within : ℕ → Option ℤ → Bool
expires_within warn_days none = false
expires_within warn_days (some days) = not (leb_ℤ days (pos 0)) && ltb_ℤ days (pos warn_days)

module _ (rt : Runtime) where
  abbrev pub fails_hard : ProbeSignal → AssertionDef → Bool
  fails_hard signal def = not (assertion_holds rt def signal) && not (is_soft def.source)

  abbrev pub fails_soft : ProbeSignal → AssertionDef → Bool
  fails_soft signal def = not (assertion_holds rt def signal) && is_soft def.source

  abbrev pub hard_failure : MonitorSnapshot → ProbeSignal → Bool
  hard_failure monitor signal =
      wrong_status monitor signal
      || (wrong_keyword monitor signal
          || (has_expired (cert_days monitor signal)
              || (has_expired (domain_days monitor signal)
                  || any (fails_hard signal) monitor.assertions)))

  abbrev pub soft_failure : MonitorSnapshot → ProbeSignal → Bool
  soft_failure monitor signal =
      expires_within 14 (cert_days monitor signal)
      || (expires_within 30 (domain_days monitor signal)
          || any (fails_soft signal) monitor.assertions)

  -- The status that the documentation of the two files promises.
  abbrev pub verdict : MonitorSnapshot → ProbeSignal → CheckStatus
  verdict monitor signal =
      if hard_failure monitor signal
      then CheckStatus.down
      else if soft_failure monitor signal
      then CheckStatus.degraded
      else CheckStatus.up

  status_violations :
      (m : MonitorSnapshot) (s : ProbeSignal)
      → (any is_error (check_status rt m s) ≡ wrong_status m s)
        × (any is_warn (check_status rt m s) ≡ false)
  unfolding check_status
  status_violations m s = ground arith

  keyword_violations :
      (m : MonitorSnapshot) (s : ProbeSignal)
      → (any is_error (check_keyword rt m s) ≡ wrong_keyword m s)
        × (any is_warn (check_keyword rt m s) ≡ false)
  unfolding check_keyword keyword_violation
  keyword_violations m s = ground arith

  expiry_violations :
      (warn_days : ℕ) (what : Text) (expired expiring : ValidationCode) (days : ℤ)
      → (any is_error (check_expiry rt warn_days what expired expiring days)
          ≡ has_expired (some days))
        × (any is_warn (check_expiry rt warn_days what expired expiring days)
            ≡ expires_within warn_days (some days))
  unfolding check_expiry
  expiry_violations warn_days what expired expiring days = ground arith

  cert_violations :
      (m : MonitorSnapshot) (s : ProbeSignal)
      → (any is_error (check_cert rt m s) ≡ has_expired (cert_days m s))
        × (any is_warn (check_cert rt m s) ≡ expires_within 14 (cert_days m s))
  unfolding check_cert
  cert_violations m s = grind (arith, expiry_violations)

  domain_violations :
      (m : MonitorSnapshot) (s : ProbeSignal)
      → (any is_error (check_domain rt m s) ≡ has_expired (domain_days m s))
        × (any is_warn (check_domain rt m s) ≡ expires_within 30 (domain_days m s))
  unfolding check_domain
  domain_violations m s = grind (arith, expiry_violations)

  assertion_violations :
      (defs : List AssertionDef) (s : ProbeSignal)
      → (any is_error (check_assertions rt defs s) ≡ any (fails_hard s) defs)
        × (any is_warn (check_assertions rt defs s) ≡ any (fails_soft s) defs)
  unfolding check_assertions
  assertion_violations [] s = (refl, refl)
  assertion_violations (def ∷ defs) s = ground (arith, assertion_violations defs s)

  errors-evaluate_validations :
      (m : MonitorSnapshot) (s : ProbeSignal)
      → any is_error (evaluate_validations rt m s) ≡ hard_failure m s
  unfolding evaluate_validations
  errors-evaluate_validations m s = simp (
    any-append,
    (status_violations m s).0,
    (keyword_violations m s).0,
    (cert_violations m s).0,
    (domain_violations m s).0,
    (assertion_violations m.assertions s).0,
  )

  warns-evaluate_validations :
      (m : MonitorSnapshot) (s : ProbeSignal)
      → any is_warn (evaluate_validations rt m s) ≡ soft_failure m s
  unfolding evaluate_validations
  warns-evaluate_validations m s = simp (
    any-append,
    (status_violations m s).1,
    (keyword_violations m s).1,
    (cert_violations m s).1,
    (domain_violations m s).1,
    (assertion_violations m.assertions s).1,
  )

  -- A reachable signal is DOWN exactly on a wrong status, a wrong keyword, an expired certificate or
  -- registration or a failed hard assertion; else DEGRADED exactly on a near expiry or a failed soft
  -- assertion; else UP.
  pub classify_signal-verdict :
      (m : MonitorSnapshot) (s : ProbeSignal) (n : ℕ)
      → s.reachable ≡ true
      → (classify_signal rt m s n).status ≡ verdict m s
  unfolding classify_signal
  classify_signal-verdict m s n h =
      simp (h, errors-evaluate_validations, warns-evaluate_validations)

  -- The outcome of an unreachable signal is never a success.
  pub unreachable-fails :
      (m : MonitorSnapshot) (s : ProbeSignal) (n : ℕ)
      → s.reachable ≡ false
      → is_success (classify_signal rt m s n).status ≡ false
  unfolding classify_signal is_success status_for_unreachable
  unreachable-fails m s n h = ground arith
