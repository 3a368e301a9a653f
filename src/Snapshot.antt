-- ===== src/Snapshot.antt =====
-- packages/monitoring/src/types.ts: the view of a monitor that a check needs, the raw signal of one
-- probe attempt, and the outcome of a check.
use uptimeflow.Common.{ℕ, Bool, Option, List, true, false}
use uptimeflow.Common.Int.{ℤ}
use uptimeflow.Common.Text.{Text}
use uptimeflow.Enums.{
  RecordId, Instant, MonitorType, MonitorHealth, CheckStatus, AssertionSource, AssertionComparator,
}

pub record AssertionDef : Type 0 where
  pub source : AssertionSource
  pub comparator : AssertionComparator
  pub property : Option Text
  pub expected : Text

pub data HttpMethod : Type 0 where
  get post put patch delete head options : HttpMethod

pub record MonitorSnapshot : Type 0 where
  pub id : RecordId
  pub organization_id : RecordId
  pub name : Text
  pub type : MonitorType
  pub url : Option Text
  pub host : Option Text
  pub port : Option ℕ
  pub http_method : Option HttpMethod
  pub request_headers : Option (List (Text × Text))
  pub request_body : Option Text
  pub expected_status : Option ℕ
  pub keyword : Option Text
  pub keyword_inverted : Bool
  pub follow_redirects : Bool
  pub verify_ssl : Bool
  pub timeout_seconds : ℕ
  pub retries : ℕ
  pub interval_seconds : ℕ
  pub failure_threshold : ℕ
  pub success_threshold : ℕ
  pub escalation_policy_id : Option RecordId
  pub health : MonitorHealth
  pub consecutive_failures : ℕ
  pub consecutive_successes : ℕ
  pub last_checked_at : Option Instant
  pub assertions : List AssertionDef

pub record CertInfo : Type 0 where
  pub valid_to : Instant
  pub valid_from : Instant
  pub days_until_expiry : ℤ
  pub issuer : Option Text
  pub subject : Option Text

pub data DnsRecordType : Type 0 where
  a aaaa cname mx txt ns soa : DnsRecordType

pub record DnsInfo : Type 0 where
  pub record_type : DnsRecordType
  pub values : List Text

pub record DomainInfo : Type 0 where
  pub expires_at : Instant
  pub days_until_expiry : ℤ
  pub registrar : Option Text
  pub statuses : List Text

pub record ProbeSignal : Type 0 where
  pub reachable : Bool
  pub response_ms : ℕ
  pub status_code : Option ℕ
  pub headers : Option (List (Text × Text))
  pub body : Option Text
  pub cert : Option CertInfo
  pub dns : Option DnsInfo
  pub domain : Option DomainInfo
  pub error_type : Option Text
  pub error_message : Option Text

pub data ValidationSeverity : Type 0 where
  error warn : ValidationSeverity

pub data ValidationCode : Type 0 where
  status_mismatch keyword ssl_expired ssl_expiring domain_expired domain_expiring : ValidationCode
  assert : AssertionSource → ValidationCode

pub record ValidationResult : Type 0 where
  pub severity : ValidationSeverity
  pub code : ValidationCode
  pub message : Text

pub record ProbeOutcome : Type 0 where
  pub status : CheckStatus
  pub status_code : Option ℕ
  pub response_ms : Option ℕ
  pub error_type : Option Text
  pub error_message : Option Text
  pub cert : Option CertInfo
  pub dns : Option DnsInfo
  pub domain : Option DomainInfo
  pub validations : List ValidationResult
  pub attempts : ℕ

-- UP or DEGRADED: the outcomes that count as a success.
unfoldable pub is_success : CheckStatus → Bool
is_success CheckStatus.up = true
is_success CheckStatus.degraded = true
is_success _ = false
