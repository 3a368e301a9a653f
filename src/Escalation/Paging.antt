-- ===== src/Escalation/Paging.antt =====
-- `executeStep` of packages/monitoring/src/escalation/engine.ts: one step's targets, contacted.
use uptimeflow.Common.{
  ℕ, Bool, true, false, Option, none, some, List, [], ◌∷◌, ◌++◌, map, ◌==◌, ltb, any, take, find,
  length, if◌then◌else◌,
}
use uptimeflow.Common.Int.{ℤ}
use uptimeflow.Common.Text.{Text, codes, decimal}
use uptimeflow.Enums.{RecordId, Instant}
use uptimeflow.OnCall.{Source, OnCallResult, ScheduleRow, who_is_on_call}
use uptimeflow.Store.{
  Store, IncidentSeverity, IncidentEvent, IncidentEventType, paging, AuditRow, AuditAction,
  ActorType, AlertKind, add_event, write_audit,
}
use uptimeflow.Alerting.Dispatch.{dispatch_to_channels}
use uptimeflow.Escalation.Policy.{TargetType, Target, StepRow}

pub record User : Type 0 where
  pub id : RecordId
  pub email : Text
  pub name : Text

-- How a responder was chosen: "user" or "schedule:<source>".
pub data Via : Type 0 where
  direct : Via
  schedule : Source → Via

pub record ResponderRef : Type 0 where
  pub user_id : RecordId
  pub via : Via
  pub secondary : Option RecordId

-- Incident fields that a page needs.
pub record IncidentContext : Type 0 where
  pub title : Text
  pub summary : Option Text
  pub severity : IncidentSeverity
  pub monitor_name : Option Text

pub record ResponderPage : Type 0 where
  pub incident_id : RecordId
  pub organization_id : RecordId
  pub user_id : RecordId
  pub email : Text
  pub user_name : Text
  pub via : Via
  pub step : ℕ
  pub incident : IncidentContext

pub record Failure : Type 0 where
  pub user_id : RecordId
  pub reason : Text

-- What a step did: who was chosen, who was paged, who was not.
pub record Chosen : Type 0 where
  pub channel_ids : List RecordId
  pub responders : List ResponderRef

pub record Paged : Type 0 where
  pub paged : List RecordId
  pub failed : List Failure

pub record StepResult : Type 0 where
  pub responders : List RecordId
  pub responders_paged : ℕ
  pub responders_failed : ℕ
  pub channels_paged : ℕ

-- `seenUserIds` holds exactly the users of the responders chosen so far.
unfoldable pub add_responder : ResponderRef → Chosen → Chosen
add_responder ref chosen =
    if any (λ (r : ResponderRef). r.user_id == ref.user_id) chosen.responders
    then chosen
    else record chosen { responders = chosen.responders ++ ref ∷ [] }

abbrev add_channel : RecordId → Chosen → Chosen
add_channel id chosen = record chosen { channel_ids = chosen.channel_ids ++ id ∷ [] }

-- the on-call primary of a schedule, if there is one
unfoldable pub add_primary : Option RecordId → OnCallResult → Chosen → Chosen
add_primary none r chosen = chosen
add_primary (some u) r chosen =
    add_responder (record { user_id = u; via = Via.schedule r.source; secondary = r.secondary })
      chosen

unfoldable pub add_on_call : Option OnCallResult → Chosen → Chosen
unfolding add_primary
add_on_call none chosen = chosen
add_on_call (some r) chosen = add_primary r.primary r chosen

module _ (tz_offset_ms : Instant → Text → ℤ) (schedules : List (ScheduleRow tz_offset_ms))
    (now : Instant) where
  -- The three branches of the loop over the targets; a target without its identifier is skipped.
  unfoldable pub choose_as : TargetType → Option RecordId → Chosen → Chosen
  choose_as type none chosen = chosen
  choose_as TargetType.channel (some id) chosen = add_channel id chosen
  choose_as TargetType.user (some id) chosen =
      add_responder (record { user_id = id; via = direct; secondary = none }) chosen
  choose_as TargetType.schedule (some id) chosen =
      add_on_call (who_is_on_call tz_offset_ms schedules id now) chosen

  abbrev target_id : Target → Option RecordId
  target_id target = elim target.type [
    | TargetType.channel ↦ target.channel_id
    | TargetType.user ↦ target.user_id
    | TargetType.schedule ↦ target.schedule_id
  ]

  unfoldable pub choose : Target → Chosen → Chosen
  unfolding choose_as
  choose target chosen = choose_as target.type (target_id target) chosen

  unfoldable pub choose_all : List Target → Chosen → Chosen
  choose_all [] chosen = chosen
  choose_all (target ∷ rest) chosen = choose_all rest (choose target chosen)

-- The pages that a notifier is asked to deliver; `some reason` where it throws. Pages of one step are
-- independent, and are listed in the order of the responders.
module _ (page : ResponderPage → Option Text) (users : List User)
    (incident_id organization_id : RecordId) (incident : IncidentContext) (position : ℕ) where
  pub unknown_user : Text
  unknown_user = codes "user not found or has no email"

  abbrev pub page_to : ResponderRef → User → ResponderPage
  page_to ref user = record {
    incident_id = incident_id;
    organization_id = organization_id;
    user_id = user.id;
    email = user.email;
    user_name = user.name;
    via = ref.via;
    step = position;
    incident = incident;
  }

  abbrev pub fail_page : RecordId → Text → Paged → Paged
  fail_page user_id reason p = record p {
    failed = p.failed ++ record { user_id = user_id; reason = reason } ∷ [];
  }

  abbrev pub has_email : User → Bool
  has_email user = elim user.email [ [] ↦ false | _ ∷ _ ↦ true ]

  abbrev pub reach : ResponderRef → User → Paged → Paged
  reach ref user p =
      if has_email user
      then elim (page (page_to ref user)) [
        | none ↦ record p { paged = p.paged ++ user.id ∷ [] }
        | some reason ↦ fail_page ref.user_id (take 200 reason) p
      ]
      else fail_page ref.user_id unknown_user p

  unfoldable pub page_one : ResponderRef → Paged → Paged
  page_one ref p = elim (find (λ (u : User). u.id == ref.user_id) users) [
    | none ↦ fail_page ref.user_id unknown_user p
    | some user ↦ reach ref user p
  ]

  unfoldable pub page_all : List ResponderRef → Paged → Paged
  page_all [] p = p
  page_all (ref ∷ rest) p = page_all rest (page_one ref p)

abbrev pub no_one : Paged
no_one = record { paged = []; failed = [] }

pub no_notifier : Text
no_notifier = codes "no responder notifier configured"

-- With no notifier wired every responder counts as failed.
abbrev pub all_failed : List ResponderRef → Paged
all_failed responders = record {
  paged = [];
  failed =
      map
        (λ (r : ResponderRef).
          let f : Failure = record { user_id = r.user_id; reason = no_notifier } in f)
        responders;
}

pub escalated_message : ℕ → ℕ → ℕ → ℕ → Text
escalated_message position paged channels failed =
    codes "Escalation step "
    ++ (decimal position
        ++ (codes ": paged "
            ++ (decimal paged
                ++ (codes " responder(s) and "
                    ++ (decimal channels
                        ++ (codes " channel(s)"
                            ++ ((if ltb 0 failed
                                  then codes ", " ++ (decimal failed ++ codes " page(s) failed")
                                  else [])
                                ++ codes ".")))))))

-- What the engine is wired to.
pub record Wiring (tz_offset_ms : Instant → Text → ℤ) : Type 0 where
  pub schedules : List (ScheduleRow tz_offset_ms)
  pub users : List User
  pub responders : Option (ResponderPage → Option Text)

module _ (tz_offset_ms : Instant → Text → ℤ) (w : Wiring tz_offset_ms)
    (incident_id organization_id : RecordId) (incident : IncidentContext) (now : Instant) where
  unfoldable pub chosen_for : StepRow → Chosen
  unfolding choose_all
  chosen_for step =
      choose_all tz_offset_ms w.schedules now step.targets
        (record { channel_ids = []; responders = [] })

  unfoldable pub paged_for : StepRow → List ResponderRef → Paged
  unfolding page_all
  paged_for step responders = elim w.responders [
    | none ↦ all_failed responders
    | some page ↦
        page_all page w.users incident_id organization_id incident step.position responders no_one
  ]

  abbrev escalated_event : StepRow → Chosen → Paged → ℕ → IncidentEvent
  escalated_event step chosen p channels_paged = record {
    incident_id = incident_id;
    type = IncidentEventType.escalated;
    message =
        some (escalated_message step.position (length p.paged) channels_paged (length p.failed));
    actor_id = none;
    metadata =
        paging step.position (map (λ (r : ResponderRef). r.user_id) chosen.responders)
          chosen.channel_ids p.paged (map (λ (f : Failure). f.user_id) p.failed);
    created_at = now;
  }

  abbrev escalated_audit : AuditRow
  escalated_audit = record {
    organization_id = organization_id;
    actor_id = none;
    actor_type = ActorType.system;
    action = AuditAction.incident_escalated;
    resource_id = incident_id;
  }

  -- Channels are paged through the alert dispatcher; then the timeline and the audit log are written.
  unfoldable pub execute_step : StepRow → Store → StepResult × Store
  execute_step step s =
      let chosen = chosen_for step in
      let p = paged_for step chosen.responders in
      let (channels_paged, dispatched) =
        dispatch_to_channels s
          (record {
            incident_id = incident_id;
            organization_id = organization_id;
            kind = AlertKind.opened;
          })
          chosen.channel_ids in
      (
        record {
          responders = map (λ (r : ResponderRef). r.user_id) chosen.responders;
          responders_paged = length p.paged;
          responders_failed = length p.failed;
          channels_paged = channels_paged;
        },
        write_audit (add_event dispatched (escalated_event step chosen p channels_paged))
            escalated_audit,
      )
