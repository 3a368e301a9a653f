-- ===== src/StatusPages/PublicPage.antt =====
-- apps/api/src/services/status-page.service.ts: the view of a page by its slug. A page row stands
-- with the related rows that PAGE_SELECT reads, in the order of that query; the branding is its JSON
-- text.
use mathlib.Core.Option
use uptimeflow.Common.{
  ℕ, Bool, true, false, ◌&&◌, Option, none, some, List, [], ◌∷◌, ltb, and_then, find, select, map,
  or_else, if◌then◌else◌,
}
use uptimeflow.Common.Text.{Text, text_eq}
use uptimeflow.Enums.{RecordId, Instant, MonitorHealth}
use uptimeflow.Store.{is_live}

pub data ComponentStatus : Type 0 where
  operational degraded_performance partial_outage major_outage under_maintenance : ComponentStatus

pub data StatusPageVisibility : Type 0 where
  public unlisted private : StatusPageVisibility

pub data IncidentStatus : Type 0 where
  investigating identified monitoring resolved : IncidentStatus

pub data IncidentImpact : Type 0 where
  no_impact minor major critical maintenance_impact : IncidentImpact

-- `monitor` is the health of the monitor that drives the component.
pub record ComponentRow : Type 0 where
  pub id : RecordId
  pub name : Text
  pub description : Option Text
  pub group_name : Option Text
  pub status : ComponentStatus
  pub show_uptime : Bool
  pub monitor : Option MonitorHealth

pub record IncidentUpdate : Type 0 where
  pub status : IncidentStatus
  pub body : Text
  pub created_at : Instant

pub record IncidentRow : Type 0 where
  pub id : RecordId
  pub title : Text
  pub status : IncidentStatus
  pub impact : IncidentImpact
  pub started_at : Instant
  pub resolved_at : Option Instant
  pub created_at : Instant
  pub updates : List IncidentUpdate

pub record PageRow : Type 0 where
  pub id : RecordId
  pub slug : Text
  pub name : Text
  pub description : Option Text
  pub visibility : StatusPageVisibility
  pub branding : Option Text
  pub updated_at : Instant
  pub deleted_at : Option Instant
  pub components : List ComponentRow
  pub incidents : List IncidentRow

pub record PublicComponent : Type 0 where
  pub id : RecordId
  pub name : Text
  pub description : Option Text
  pub group_name : Option Text
  pub status : ComponentStatus
  pub show_uptime : Bool

-- The view of an incident has the fields of its row.
pub record PublicPage : Type 0 where
  pub name : Text
  pub slug : Text
  pub description : Option Text
  pub branding : Option Text
  pub overall_status : ComponentStatus
  pub components : List PublicComponent
  pub active_incidents : List IncidentRow
  pub updated_at : Instant

unfoldable pub status_severity : ComponentStatus → ℕ
status_severity ComponentStatus.operational = 0
status_severity ComponentStatus.under_maintenance = 1
status_severity ComponentStatus.degraded_performance = 2
status_severity ComponentStatus.partial_outage = 3
status_severity ComponentStatus.major_outage = 4

unfoldable pub health_to_status : MonitorHealth → Option ComponentStatus
health_to_status MonitorHealth.up = some ComponentStatus.operational
health_to_status MonitorHealth.down = some ComponentStatus.major_outage
health_to_status MonitorHealth.degraded = some ComponentStatus.degraded_performance
health_to_status MonitorHealth.recovering = some ComponentStatus.degraded_performance
health_to_status MonitorHealth.maintenance = some ComponentStatus.under_maintenance
health_to_status MonitorHealth.pending = none
health_to_status MonitorHealth.paused = none

unfoldable pub component_status : ComponentRow → ComponentStatus
unfolding health_to_status
component_status row = or_else (and_then row.monitor health_to_status) row.status

unfoldable pub to_public_component : ComponentRow → PublicComponent
unfolding component_status
to_public_component c = record {
  id = c.id;
  name = c.name;
  description = c.description;
  group_name = c.group_name;
  status = component_status c;
  show_uptime = c.show_uptime;
}

-- The fold over the components
unfoldable pub worst_of : ComponentStatus → List PublicComponent → ComponentStatus
unfolding status_severity
worst_of worst [] = worst
worst_of worst (c ∷ cs) =
    worst_of (if ltb (status_severity worst) (status_severity c.status) then c.status else worst) cs

abbrev pub is_unresolved : IncidentRow → Bool
is_unresolved i = is_live i.resolved_at

unfoldable pub to_public_page : PageRow → PublicPage
unfolding to_public_component worst_of
to_public_page row = record {
  name = row.name;
  slug = row.slug;
  description = row.description;
  branding = row.branding;
  overall_status = worst_of ComponentStatus.operational (map to_public_component row.components);
  components = map to_public_component row.components;
  active_incidents = select is_unresolved row.incidents;
  updated_at = row.updated_at;
}

abbrev pub is_reachable : StatusPageVisibility → Bool
is_reachable StatusPageVisibility.public = true
is_reachable StatusPageVisibility.unlisted = true
is_reachable StatusPageVisibility.private = false

-- `{ slug, deletedAt: null, visibility: { in: ["PUBLIC", "UNLISTED"] } }`
abbrev pub is_public_at : Text → PageRow → Bool
is_public_at slug p = text_eq p.slug slug && (is_live p.deleted_at && is_reachable p.visibility)

unfoldable pub public_page_by_slug : List PageRow → Text → Option PageRow
unfolding text_eq
public_page_by_slug pages slug = find (is_public_at slug) pages

unfoldable pub get_public_page : List PageRow → Text → Option PublicPage
unfolding public_page_by_slug to_public_page
get_public_page pages slug = Option.map to_public_page (public_page_by_slug pages slug)
