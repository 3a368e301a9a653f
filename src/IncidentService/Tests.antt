-- ===== src/IncidentService/Tests.antt =====
-- One open incident, handled by a person of its organization and by one of another.
use uptimeflow.Pagination.Pages.{sort_desc}
use uptimeflow.Pagination.Order.{HasDistinctIds}
use uptimeflow.Pagination.Walk.{walk}
use uptimeflow.IncidentService.Listing.{IncidentListQuery, incident_key, matches, list, list-walk}
use uptimeflow.Common.{map, select, ◌≡◌, refl, none, some, [], ◌∷◌, arith}
use uptimeflow.Common.Int.{ℤ, pos}
use uptimeflow.Common.Text.{Text, codes}
use uptimeflow.Enums.{Instant, IncidentStatus}
use uptimeflow.Store.{Store, Incident, EscalationJob, ActorType}
use uptimeflow.Store.Consistency.{IsConsistent}
use uptimeflow.Escalation.Policy.{PolicyTables}
use uptimeflow.Escalation.Paging.{Wiring}
use uptimeflow.Escalation.Engine.{stopped, process_job}
use uptimeflow.IncidentService.{
  to_list_item, IncidentActor, load_detail, acknowledge, resolve, comment,
}
use uptimeflow.IncidentService.Scope.{foreign_is_refused, handling-IsConsistent}
use uptimeflow.IncidentService.Handling.{handling_stops_escalation}
use uptimeflow.Samples.{plain_codec, org, other_org, incident_of, store_of}

abbrev opened_incident : Incident
opened_incident = incident_of 50 IncidentStatus.opened 1_000

abbrev outage : Store
outage = store_of (opened_incident ∷ [])

abbrev ann : IncidentActor
ann = record { user_id = some 11; actor_type = ActorType.user }

abbrev ann_says : Text
ann_says = codes "on it"

outage-IsConsistent : IsConsistent outage.incidents
outage-IsConsistent = record { keyed = (λ m. ground arith, tt); single = λ m. ground arith }

foreign_is_refused_example :
    (load_detail outage other_org 50 ≡ none)
    × (acknowledge outage other_org 50 ann 9_000 ≡ (none, outage))
    × (resolve outage other_org 50 ann 9_000 ≡ (none, outage))
    × (comment outage other_org 50 ann_says ann 9_000 ≡ (none, outage))
foreign_is_refused_example =
    foreign_is_refused outage other_org 50 ann 9_000 ann_says (λ e. ground arith, tt)

abbrev utc : Instant → Text → ℤ
utc now zone = pos 0

abbrev wired : Wiring utc
wired = record { schedules = []; users = []; responders = none }

abbrev tables : PolicyTables
tables = record { policies = []; steps = [] }

abbrev job : EscalationJob
job = record {
  incident_id = 50;
  organization_id = org;
  monitor_id = some 7;
  policy_id = 40;
  step_index = 3;
  round = 1;
}

handling_stops_escalation_example :
    (process_job utc wired tables 9_500 (acknowledge outage org 50 ann 9_000).1 job
      ≡ (stopped, (acknowledge outage org 50 ann 9_000).1))
    × (process_job utc wired tables 9_500 (resolve outage org 50 ann 9_000).1 job
        ≡ (stopped, (resolve outage org 50 ann 9_000).1))
handling_stops_escalation_example =
    handling_stops_escalation outage org 50 ann 9_000 opened_incident utc wired tables 9_500 job
      refl refl refl

abbrev outages : Store
outages = store_of (
    incident_of 50 IncidentStatus.opened 1_000
    ∷ (incident_of 51 IncidentStatus.resolved 2_000
        ∷ (incident_of 52 IncidentStatus.opened 3_000 ∷ [])))

abbrev open_ones : IncidentListQuery
open_ones = record {
  status = some IncidentStatus.opened;
  monitor_id = none;
  limit = 1;
  cursor = none;
}

outages-HasDistinctIds : HasDistinctIds incident_key outages.incidents
outages-HasDistinctIds =
    ((λ h. omega arith, (λ h. omega arith, tt)), ((λ h. omega arith, tt), (tt, tt)))

list-walk_example :
    walk (λ c. list plain_codec outages org (record open_ones { cursor = c })) 3 none
    ≡ map
        (to_list_item outages.monitors)
        (sort_desc incident_key (select (matches org open_ones) outages.incidents))
list-walk_example =
    list-walk plain_codec outages org open_ones 0 3 refl outages-HasDistinctIds (omega arith)

handling-IsConsistent_example :
    IsConsistent (acknowledge outage org 50 ann 9_000).1.incidents
    × IsConsistent (resolve outage org 50 ann 9_000).1.incidents
    × IsConsistent (comment outage org 50 ann_says ann 9_000).1.incidents
handling-IsConsistent_example =
    handling-IsConsistent outage org 50 ann 9_000 ann_says (omega arith) outage-IsConsistent
