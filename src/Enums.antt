-- ===== src/Enums.antt =====
-- The enumerations of packages/db/prisma/schema.prisma that the monitoring engine reads and writes.
use uptimeflow.Common.{Bool, true, false, ℕ}

-- Identifiers are compared and copied, never inspected, so a number stands for one.
abbrev pub RecordId : Type 0
RecordId = ℕ

-- An instant, in milliseconds since the epoch.
abbrev pub Instant : Type 0
Instant = ℕ

pub data MonitorType : Type 0 where
  http tcp ping dns keyword ssl port heartbeat grpc domain : MonitorType

pub data MonitorHealth : Type 0 where
  up down degraded pending paused maintenance recovering : MonitorHealth

pub data CheckStatus : Type 0 where
  up down degraded timeout error : CheckStatus

pub data ProbeRegion : Type 0 where
  na_east na_west eu_west eu_central ap_southeast ap_northeast sa_east af_south : ProbeRegion

pub data IncidentStatus : Type 0 where
  opened acknowledged resolved : IncidentStatus

pub data AssertionSource : Type 0 where
  status_code response_time header body_text body_json ssl_expiry_days dns_record
        domain_expiry_days :
      AssertionSource

pub data AssertionComparator : Type 0 where
  equals not_equals contains not_contains greater_than less_than matches_regex exists :
      AssertionComparator

abbrev pub is_heartbeat : MonitorType → Bool
is_heartbeat MonitorType.heartbeat = true
is_heartbeat _ = false

abbrev pub is_resolved : IncidentStatus → Bool
is_resolved IncidentStatus.resolved = true
is_resolved _ = false

abbrev pub is_open : IncidentStatus → Bool
is_open IncidentStatus.opened = true
is_open _ = false
