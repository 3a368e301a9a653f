-- ===== src/Checks/Validations.antt =====
-- packages/monitoring/src/assertions.ts: evaluateValidations, one function for each numbered step.
use uptimeflow.Common.{
  ℕ, Bool, true, false, not, Option, none, some, List, [], ◌∷◌, ◌++◌, any, if◌then◌else◌, ◌==◌,
  or_else,
}
use uptimeflow.Common.Int.{ℤ, pos, abs, leb_ℤ, ltb_ℤ}
use uptimeflow.Common.Text.{Text, codes, includes}
use uptimeflow.Enums.{AssertionSource, AssertionComparator}
use uptimeflow.Runtime.{Runtime}
use uptimeflow.Snapshot.{
  AssertionDef, MonitorSnapshot, ProbeSignal, ValidationSeverity, ValidationCode, ValidationResult,
}
use uptimeflow.Checks.Comparators.{Actual, str, num, assertion_holds, resolve_actual}

abbrev pub default_ssl_warn_days : ℕ
default_ssl_warn_days = 14

abbrev pub default_domain_warn_days : ℕ
default_domain_warn_days = 30

abbrev pub is_ssl_expiry : AssertionDef → Bool
is_ssl_expiry def = elim def.source [ AssertionSource.ssl_expiry_days ↦ true | _ ↦ false ]

abbrev pub is_domain_expiry : AssertionDef → Bool
is_domain_expiry def = elim def.source [ AssertionSource.domain_expiry_days ↦ true | _ ↦ false ]

-- The signals whose failed assertion only degrades.
abbrev pub is_soft : AssertionSource → Bool
is_soft AssertionSource.response_time = true
is_soft AssertionSource.ssl_expiry_days = true
is_soft AssertionSource.domain_expiry_days = true
is_soft _ = false

-- The names of the enumerations as the messages print them.
source_name : AssertionSource → Text
source_name AssertionSource.status_code = codes "STATUS_CODE"
source_name AssertionSource.response_time = codes "RESPONSE_TIME"
source_name AssertionSource.header = codes "HEADER"
source_name AssertionSource.body_text = codes "BODY_TEXT"
source_name AssertionSource.body_json = codes "BODY_JSON"
source_name AssertionSource.ssl_expiry_days = codes "SSL_EXPIRY_DAYS"
source_name AssertionSource.dns_record = codes "DNS_RECORD"
source_name AssertionSource.domain_expiry_days = codes "DOMAIN_EXPIRY_DAYS"

comparator_name : AssertionComparator → Text
comparator_name AssertionComparator.equals = codes "EQUALS"
comparator_name AssertionComparator.not_equals = codes "NOT_EQUALS"
comparator_name AssertionComparator.contains = codes "CONTAINS"
comparator_name AssertionComparator.not_contains = codes "NOT_CONTAINS"
comparator_name AssertionComparator.greater_than = codes "GREATER_THAN"
comparator_name AssertionComparator.less_than = codes "LESS_THAN"
comparator_name AssertionComparator.matches_regex = codes "MATCHES_REGEX"
comparator_name AssertionComparator.exists = codes "EXISTS"

module _ (rt : Runtime) where
  open rt use {Number, number_of_int, text_of_number}

  -- `${n}` for an integer
  show : ℤ → Text
  show n = text_of_number (number_of_int n)

  pub status_message : ℕ → ℕ → Text
  unfolding show
  status_message expected got =
      codes "Expected status "
      ++ (show (pos expected) ++ (codes ", got " ++ (show (pos got) ++ codes ".")))

  pub keyword_message : Bool → Text → Text
  keyword_message inverted keyword =
      if inverted
      then codes "Forbidden keyword \"" ++ (keyword ++ codes "\" was present.")
      else codes "Required keyword \"" ++ (keyword ++ codes "\" was missing.")

  pub expired_message : Text → ℤ → Text
  unfolding show
  expired_message what days =
      what ++ (codes " expired " ++ (show (pos (abs days)) ++ codes " day(s) ago."))

  pub expiring_message : Text → ℤ → Text
  unfolding show
  expiring_message what days = what ++ (codes " expires in " ++ (show days ++ codes " day(s)."))

  shown_actual : Option (Actual Number) → Text
  shown_actual none = codes "n/a"
  shown_actual (some (str s)) = s
  shown_actual (some (num n)) = text_of_number n

  pub assertion_message : AssertionDef → Option (Actual Number) → Text
  unfolding source_name comparator_name shown_actual
  assertion_message def actual =
      codes "Assertion failed: "
      ++ (source_name def.source
          ++ (codes " "
              ++ (comparator_name def.comparator
                  ++ (codes " "
                      ++ (def.expected
                          ++ (codes " (actual: " ++ (shown_actual actual ++ codes ").")))))))

  -- 1. Expected HTTP status code.
  unfoldable pub check_status : MonitorSnapshot → ProbeSignal → List ValidationResult
  check_status monitor signal = elim monitor.expected_status [
    | none ↦ []
    | some expected ↦ elim signal.status_code [
      | none ↦ []
      | some got ↦
          if not (got == expected)
          then record {
            severity = ValidationSeverity.error;
            code = ValidationCode.status_mismatch;
            message = status_message expected got;
          }
            ∷ []
          else []
    ]
  ]

  unfoldable pub keyword_violation : Bool → Text → ValidationResult
  keyword_violation inverted keyword = record {
    severity = ValidationSeverity.error;
    code = ValidationCode.keyword;
    message = keyword_message inverted keyword;
  }

  -- 2. Keyword presence / absence.
  unfoldable pub check_keyword : MonitorSnapshot → ProbeSignal → List ValidationResult
  check_keyword monitor signal = elim monitor.keyword [
    | none ↦ []
    | some [] ↦ []
    | some (c ∷ word) ↦
        let present = includes (or_else signal.body []) (c ∷ word) in
        let satisfied = if monitor.keyword_inverted then not present else present in
        if not satisfied then keyword_violation monitor.keyword_inverted (c ∷ word) ∷ [] else []
  ]

  -- The safety net shared in shape by steps 3 and 4.
  unfoldable pub check_expiry :
      ℕ → Text → ValidationCode → ValidationCode → ℤ → List ValidationResult
  check_expiry warn_days what expired expiring days =
      if leb_ℤ days (pos 0)
      then record {
        severity = ValidationSeverity.error;
        code = expired;
        message = expired_message what days;
      }
        ∷ []
      else if ltb_ℤ days (pos warn_days)
      then record {
        severity = ValidationSeverity.warn;
        code = expiring;
        message = expiring_message what days;
      }
        ∷ []
      else []

  -- 3. Certificate expiry, unless an explicit assertion covers it.
  unfoldable pub check_cert : MonitorSnapshot → ProbeSignal → List ValidationResult
  check_cert monitor signal = elim signal.cert [
    | none ↦ []
    | some cert ↦
        if not (any is_ssl_expiry monitor.assertions)
        then check_expiry default_ssl_warn_days (codes "TLS certificate") ValidationCode.ssl_expired
            ValidationCode.ssl_expiring cert.days_until_expiry
        else []
  ]

  -- 4. Domain registration expiry, unless an explicit assertion covers it.
  unfoldable pub check_domain : MonitorSnapshot → ProbeSignal → List ValidationResult
  check_domain monitor signal = elim signal.domain [
    | none ↦ []
    | some domain ↦
        if not (any is_domain_expiry monitor.assertions)
        then check_expiry default_domain_warn_days (codes "Domain registration")
            ValidationCode.domain_expired ValidationCode.domain_expiring domain.days_until_expiry
        else []
  ]

  abbrev pub assertion_violation : AssertionDef → ProbeSignal → ValidationResult
  assertion_violation def signal = record {
    severity = if is_soft def.source then ValidationSeverity.warn else ValidationSeverity.error;
    code = ValidationCode.assert def.source;
    message = assertion_message def (resolve_actual rt def signal);
  }

  -- 5. Custom assertions, in order.
  unfoldable pub check_assertions : List AssertionDef → ProbeSignal → List ValidationResult
  check_assertions [] signal = []
  check_assertions (def ∷ defs) signal =
      let rest = check_assertions defs signal in
      if assertion_holds rt def signal then rest else assertion_violation def signal ∷ rest

  unfoldable pub evaluate_validations : MonitorSnapshot → ProbeSignal → List ValidationResult
  evaluate_validations monitor signal =
      check_status monitor signal
      ++ (check_keyword monitor signal
          ++ (check_cert monitor signal
              ++ (check_domain monitor signal ++ check_assertions monitor.assertions signal)))
