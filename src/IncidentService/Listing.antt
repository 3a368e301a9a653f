-- ===== src/IncidentService/Listing.antt =====
-- list of apps/api/src/services/incident.service.ts: the incidents of an organization, in pages.
use mathlib.Core.Option
use mathlib.Core.Path.{fun_ext}
use uptimeflow.Common.{
  ℕ, suc, ◌<◌, ◌≡◌, refl, ap, ◌∙◌, Bool, true, false, ◌&&◌, Option, none, some, map, ◌==◌, length,
  select,
}
use uptimeflow.Common.Text.{Text}
use uptimeflow.Enums.{RecordId, IncidentStatus, is_open, is_resolved}
use uptimeflow.Store.{Store, Incident, is_id}
use uptimeflow.Pagination.Pages.{
  Cursor, Codec, Page, Parsed, first_page, bad_request, after, parse_cursor, after_cursor_desc,
  build_page, sort_desc, find_page, page_at, list_page,
}
use uptimeflow.Pagination.Order.{HasDistinctIds}
use uptimeflow.Pagination.Walk.{walk, walk-listing}
use uptimeflow.Pagination.Views.{map_page, build_page-map, walk-map}
use uptimeflow.IncidentService.{IncidentListItem, to_list_item}

pub record IncidentListQuery : Type 0 where
  pub status : Option IncidentStatus
  pub monitor_id : Option RecordId
  pub limit : ℕ
  pub cursor : Option Text

abbrev same_status : IncidentStatus → IncidentStatus → Bool
same_status IncidentStatus.opened s = is_open s
same_status IncidentStatus.resolved s = is_resolved s
same_status IncidentStatus.acknowledged IncidentStatus.acknowledged = true
same_status IncidentStatus.acknowledged _ = false

abbrev has_status : Option IncidentStatus → Incident → Bool
has_status none i = true
has_status (some s) i = same_status s i.status

abbrev is_of_monitor : Option RecordId → Incident → Bool
is_of_monitor none i = true
is_of_monitor (some m) i = is_id m i.monitor_id

abbrev pub matches : RecordId → IncidentListQuery → Incident → Bool
matches organization_id query i =
    i.organization_id == organization_id
    && has_status query.status i
    && is_of_monitor query.monitor_id i

abbrev pub incident_key : Incident → Cursor
incident_key i = record { id = i.id; created_at = i.created_at }

abbrev item_key : IncidentListItem → Cursor
item_key i = record { id = i.id; created_at = i.created_at }

module _ (codec : Codec) (s : Store) (organization_id : RecordId) where
  abbrev found_by : ℕ → (Incident → Bool) → Page IncidentListItem
  found_by limit where_ =
      build_page codec item_key
        (map (to_list_item s.monitors) (find_page incident_key where_ limit s.incidents)) limit

  abbrev list_at : IncidentListQuery → Parsed → Option (Page IncidentListItem)
  list_at query bad_request = none
  list_at query first_page = some (found_by query.limit (matches organization_id query))
  list_at query (after c) = some (
      found_by query.limit
        (λ i. matches organization_id query i && after_cursor_desc c (incident_key i)))

  -- `none` is the error of a bad cursor.
  unfoldable pub list : IncidentListQuery → Option (Page IncidentListItem)
  unfolding parse_cursor build_page find_page
  list query = list_at query (parse_cursor codec query.cursor)

  module _ (query : IncidentListQuery) where
    abbrev at_cursor : Option Text → IncidentListQuery
    at_cursor c = record query { cursor = c }

    view_lem :
        (p : Parsed)
        → list_at query p
          ≡ Option.map
              (map_page (to_list_item s.monitors))
              (page_at incident_key codec (matches organization_id query) query.limit s.incidents p)
    unfolding find_page
    view_lem bad_request = refl
    view_lem first_page = ap some (
        build_page-map (to_list_item s.monitors) codec incident_key item_key (λ i. refl) _
          query.limit)
    view_lem (after c) = ap some (
        build_page-map (to_list_item s.monitors) codec incident_key item_key (λ i. refl) _
          query.limit)

    list_lem :
        (c : Option Text)
        → list (at_cursor c)
          ≡ Option.map (map_page (to_list_item s.monitors)) (
              list_page incident_key codec
                (matches organization_id query)
                query.limit
                s.incidents
                c)
    unfolding list list_page
    list_lem c = view_lem (parse_cursor codec c)

    -- A client that follows the cursors sees the organization's incidents that match the query, each
    -- once and newest first, and comes to an end.
    pub list-walk :
        (n fuel : ℕ)
        → query.limit ≡ suc n
        → HasDistinctIds incident_key s.incidents
        → length (select (matches organization_id query) s.incidents) < fuel
        → walk (λ c. list (at_cursor c)) fuel none
          ≡ map
              (to_list_item s.monitors)
              (sort_desc incident_key (select (matches organization_id query) s.incidents))
    list-walk n fuel e distinct h =
        ap (λ g. walk g fuel none) (fun_ext list_lem)
        ∙ walk-map (to_list_item s.monitors)
            (list_page incident_key codec (matches organization_id query) query.limit s.incidents)
            fuel none
        ∙ ap (map (to_list_item s.monitors)) (
            ap
              (λ l.
                walk (list_page incident_key codec (matches organization_id query) l s.incidents)
                  fuel none)
              e
            ∙ walk-listing codec incident_key (matches organization_id query) n s.incidents distinct
                fuel h)
