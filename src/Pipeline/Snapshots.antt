-- ===== src/Pipeline/Snapshots.antt =====
-- `toSnapshot`, and the reads of pipeline.ts and flapping.ts.
use uptimeflow.Common.{ℕ, ◌-◌, ◌*◌, Bool, ◌&&◌, List, ◌==◌, leb, any, count}
use uptimeflow.Enums.{RecordId, Instant}
use uptimeflow.Snapshot.{MonitorSnapshot}
use uptimeflow.Store.{Store, MonitorRow, MaintenanceWindow, Incident, is_id}

unfoldable pub to_snapshot : MonitorRow → MonitorSnapshot
to_snapshot row = record {
  id = row.id;
  organization_id = row.organization_id;
  name = row.name;
  type = row.type;
  url = row.url;
  host = row.host;
  port = row.port;
  http_method = row.http_method;
  request_headers = row.request_headers;
  request_body = row.request_body;
  expected_status = row.expected_status;
  keyword = row.keyword;
  keyword_inverted = row.keyword_inverted;
  follow_redirects = row.follow_redirects;
  verify_ssl = row.verify_ssl;
  timeout_seconds = row.timeout_seconds;
  retries = row.retries;
  interval_seconds = row.interval_seconds;
  failure_threshold = row.failure_threshold;
  success_threshold = row.success_threshold;
  escalation_policy_id = row.escalation_policy_id;
  health = row.health;
  consecutive_failures = row.consecutive_failures;
  consecutive_successes = row.consecutive_successes;
  last_checked_at = row.last_checked_at;
  assertions = row.assertions;
}

abbrev covers : RecordId → Instant → MaintenanceWindow → Bool
covers monitor_id now w =
    w.suppress_alerts
    && (leb w.starts_at now && (leb now w.ends_at && any (λ m. m == monitor_id) w.monitors))

unfoldable pub is_in_maintenance : Store → RecordId → Instant → Bool
is_in_maintenance s monitor_id now = any (covers monitor_id now) s.windows

abbrev pub flap_window_ms : ℕ
flap_window_ms = 30 * 60 * 1000

abbrev pub flap_threshold : ℕ
flap_threshold = 3

-- Instants are not negative, so the start of the window may stop at 0.
unfoldable pub detect_flapping : List Incident → RecordId → Instant → Bool
detect_flapping incidents monitor_id now = leb flap_threshold (
    count
      (λ (i : Incident). is_id monitor_id i.monitor_id && leb (now - flap_window_ms) i.started_at)
      incidents)
