-- ===== src/Samples.antt =====
-- Concrete data for the tests: a monitor, its store, a failing and a passing outcome, and a small
-- JavaScript runtime whose numbers are integers.
use uptimeflow.Common.{ℕ, Bool, true, false, Option, none, some, List, [], ◌∷◌, refl, arith}
use uptimeflow.Common.Int.{ℤ, pos, ltb_ℤ}
use uptimeflow.Common.Text.{Text, codes}
use uptimeflow.Pagination.Pages.{Cursor, Codec}
use uptimeflow.Enums.{
  RecordId, Instant, MonitorType, MonitorHealth, CheckStatus, ProbeRegion, IncidentStatus,
}
use uptimeflow.Runtime.{Runtime, num}
use uptimeflow.Snapshot.{MonitorSnapshot, ProbeOutcome, ProbeSignal}
use uptimeflow.Store.{
  Store, MonitorRow, MonitorLifecycle, Incident, IncidentSeverity, AlertChannel, AlertChannelType,
}
use uptimeflow.Pipeline.Snapshots.{to_snapshot}
use uptimeflow.Pipeline.Process.{ProcessOptions}

abbrev pub runtime : Runtime
runtime = record {
  Number = ℤ;
  Value = ℤ;
  number_of_text = λ t. pos 0;
  number_of_int = λ z. z;
  text_of_number = λ z. [];
  gt = λ a b. ltb_ℤ b a;
  lt = λ a b. ltb_ℤ a b;
  regex_test = λ r t. some false;
  to_lower = λ t. t;
  parse_json = λ t. none;
  stringify = λ v. none;
  view = λ v. num v;
  property = λ v t. v;
}

-- The identifiers of the tests.
abbrev pub org : RecordId
org = 1

abbrev pub other_org : RecordId
other_org = 2

abbrev pub row_of : MonitorType → MonitorHealth → ℕ → MonitorRow
row_of type health failures = record {
  id = 7;
  organization_id = org;
  name = codes "api";
  type = type;
  lifecycle = MonitorLifecycle.active;
  deleted_at = none;
  url = some (codes "https://a.io");
  host = none;
  port = none;
  http_method = none;
  request_headers = none;
  request_body = none;
  expected_status = some 200;
  keyword = none;
  keyword_inverted = false;
  follow_redirects = true;
  verify_ssl = true;
  timeout_seconds = 10;
  retries = 1;
  interval_seconds = 60;
  failure_threshold = 2;
  success_threshold = 1;
  escalation_policy_id = some 40;
  health = health;
  consecutive_failures = failures;
  consecutive_successes = 0;
  last_checked_at = none;
  last_status_code = none;
  last_response_ms = none;
  last_error = none;
  assertions = [];
}

abbrev pub monitor_of : MonitorHealth → ℕ → MonitorSnapshot
monitor_of health failures = to_snapshot (row_of MonitorType.http health failures)

abbrev pub outcome_of : CheckStatus → ProbeOutcome
outcome_of status = record {
  status = status;
  status_code = some 500;
  response_ms = some 20;
  error_type = none;
  error_message = none;
  cert = none;
  dns = none;
  domain = none;
  validations = [];
  attempts = 1;
}

abbrev pub signal_of : Bool → ℕ → ProbeSignal
signal_of reachable code = record {
  reachable = reachable;
  response_ms = 20;
  status_code = some code;
  headers = none;
  body = none;
  cert = none;
  dns = none;
  domain = none;
  error_type = none;
  error_message = none;
}

abbrev pub incident_of : RecordId → IncidentStatus → Instant → Incident
incident_of id status started_at = record {
  id = id;
  organization_id = org;
  monitor_id = some 7;
  status = status;
  severity = IncidentSeverity.major;
  title = codes "api is down";
  summary = none;
  cause = none;
  fingerprint = some 7;
  started_at = started_at;
  acknowledged_at = none;
  acknowledged_by_id = none;
  resolved_at = none;
  duration_sec = none;
  created_at = started_at;
}

abbrev pub closed_incident : RecordId → Instant → Incident
closed_incident id started_at = record (incident_of id IncidentStatus.resolved started_at) {
  fingerprint = none;
}

abbrev pub email_channel : AlertChannel
email_channel = record {
  id = 20;
  organization_id = org;
  type = AlertChannelType.email;
  name = codes "team";
  enabled = true;
  deleted_at = none;
}

-- A store with the sample monitor, one channel bound to it, and the given incidents.
abbrev pub store_of : List Incident → Store
store_of incidents = record {
  monitors = row_of MonitorType.http MonitorHealth.up 0 ∷ [];
  incidents = incidents;
  events = [];
  audits = [];
  results = [];
  windows = [];
  channels = email_channel ∷ [];
  bindings = (7, 20) ∷ [];
  deliveries = [];
  alert_jobs = [];
  escalation_jobs = [];
  integration_calls = [];
  next_id = 100;
}

abbrev pub options : ProcessOptions
options = record {
  region = ProbeRegion.na_east;
  now = 5_000;
  is_heartbeat_ping = false;
  alerts = true;
  integrations = true;
  escalation = none;
}

abbrev plain_decode : Text → Option Cursor
plain_decode (id ∷ (created_at ∷ [])) = some (record { id = id; created_at = created_at })
plain_decode _ = none

-- Cursors of two units.
abbrev pub plain_codec : Codec
plain_codec = record {
  encode_cursor = λ c. c.id ∷ (c.created_at ∷ []);
  decode_cursor = plain_decode;
  decode_encode = λ c. refl;
  encode_non_empty = λ c. omega arith;
}
