-- ===== src/Lib.antt =====
-- Uptimeflow: the core of an uptime monitoring service, from the signal of a probe to the people
-- who are told of an outage.
--
-- A check job loads a monitor and runs its probe with retries (packages/monitoring/src/processor.ts,
-- execute.ts, assertions.ts). The outcome goes through the result pipeline (pipeline.ts), which asks
-- the state machine (state-machine.ts) for the next state, writes the check result and the monitor,
-- opens or resolves the monitor's incident, and sets off alerts (alerting/dispatcher.ts), the
-- escalation of the incident (escalation/engine.ts) and the integrations. Alert jobs are delivered by
-- alerting/processor.ts; escalation jobs page people, among them who is on call
-- (oncall/resolve.ts). People acknowledge and resolve incidents through the API
-- (apps/api/src/services/incident.service.ts), within the permissions of packages/shared/src/roles.ts.
--
-- The files:
--   Common, with Tests, Lists, Int, Text and Tables: shared notation and lemmas over the native
--     numbers; a text is the list of its code units, a table the list of its rows.
--   Enums, Store: enumerations and tables of packages/db/prisma/schema.prisma, and all tables and
--     queues as one record; Store/Consistency: the invariant of the incident table.
--   StateMachine: state-machine.ts; Streaks, Confirmation and Incidents: whole histories of checks.
--   Runtime, Snapshot, Checks: types.ts, assertions.ts and execute.ts. A probe, and what JavaScript
--     itself provides (numbers, regular expressions, JSON), are parameters.
--   Alerting/Dispatch, Alerting/Delivery: the dispatcher and the processor of alerts. A transport is a
--     parameter that accepts a message or throws.
--   OnCall: oncall/resolve.ts. The timezone offset, which Intl computes, is a parameter.
--   Escalation/Policy, Paging, Engine: the starter, one step, and one job; Firing, Positions, Rounds,
--     Choices, Guards: the chain of jobs of an incident, and whom a step reaches.
--   Pipeline/Snapshots, Incidents, Process with Steps: pipeline.ts and flapping.ts; Lifecycle, Outages,
--     Alerts, Effects, Tenancy: the incidents, the messages and the other tenants; Processor: processor.ts;
--     Results: the rows that a job adds.
--   IncidentService, with Listing: incident.service.ts; Scope, Handling: isolation, and escalation.
--   Pagination/Pages, Views: packages/shared/src/pagination.ts and apps/api/src/services/cursor.ts. The
--     text of a cursor is a parameter with laws; Order, Cut, Walk: the rows that a client sees.
--   CustomDomains/Hostnames, Service: packages/shared/src/domains.ts and
--     apps/api/src/services/custom-domain.service.ts, with a resolver as a parameter; Normal, Serving:
--     normal forms, which hostnames are served, and who holds a domain.
--   StatusPages/PublicPage, Subscribers: apps/api/src/services/status-page.service.ts, the public view
--     and its subscribers; Overall, Confirmation, Lifecycle: the overall status, and who is subscribed.
--   Roles: roles.ts; Delegation, Scopes.
--   PlanLimits: apps/api/src/services/plan-limits.service.ts; Caps: the creations that it guards.
--   Scheduler/Maps, Desired, Sync: packages/monitoring/src/scheduler.ts. The job queue of a region is an
--     interface with laws; Converge, Stable: what one run and a second one do.
--   Billing/Values, Tables, Effects, Webhook: apps/api/src/services/billing-webhook.service.ts, with its
--     transaction; Replay: repeated deliveries.
--   Ssrf/V4, V6, Guard: packages/notifications/src/security/ssrf.ts. The URL parser, isIP and the
--     resolver of Node.js are parameters; Quads, Hex, Ranges, Mapped, Safety: addresses as texts and as
--     numbers, and what the guard lets through.
--   Samples and the modules named Tests: concrete data, runs and instances.
--
-- Conventions. Identifiers and instants (milliseconds) are natural numbers; days to an expiry and
-- minutes of delay are integers. A query is a search of the table, an update rewrites the rows that its
-- `where` selects, and an insert appends, with the next identifier of the store. A handler is a
-- function from the store to a result and a store: one handler runs at a time. The fingerprint
-- `${monitorId}:down` stands as the monitor's identifier.
--
-- Bounds. The retry loop recurses on the retries left. `Escalation.Rounds.drain` takes fuel, one unit
-- for each job; as many units as the policy has steps in all of its rounds are enough.
-- `Pagination.Walk.walk` takes fuel, one unit for each page; more units than there are rows are enough.
--
-- Not modelled: logging, the metadata of audit entries (of an escalation event, the identifiers are
-- kept), timers and back-off, failures of the database, the queue library, network access, what
-- operators do with status pages, and the web application.
pub mod Common
pub mod Enums
pub mod Ssrf
pub mod StateMachine
pub mod Runtime
pub mod Snapshot
pub mod Checks
pub mod Store
pub mod Alerting
pub mod OnCall
pub mod Escalation
pub mod Pipeline
pub mod IncidentService
pub mod Roles
pub mod PlanLimits
pub mod Billing
pub mod Scheduler
pub mod Pagination
pub mod CustomDomains
pub mod StatusPages
pub mod Samples
