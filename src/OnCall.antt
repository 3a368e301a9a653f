-- ===== src/OnCall.antt =====
-- packages/monitoring/src/oncall/resolve.ts: who is on call for a schedule at an instant. The
-- offset of a timezone comes from Intl and is a parameter.
pub mod Rotation
pub mod Backup
mod Tests
use uptimeflow.Common.{
  ℕ, ◌+◌, ◌*◌, ◌%◌, Bool, ◌&&◌, Option, none, some, List, [], ◌∷◌, ◌==◌, leb, ltb, length,
  get_elem?, find, if◌then◌else◌,
}
use uptimeflow.Common.Int.{ℤ, pos, negsuc, ◌+ℤ◌, ◌-ℤ◌, floor_div, rem}
use uptimeflow.Common.Text.{Text}
use uptimeflow.Enums.{RecordId, Instant}
use uptimeflow.Store.{is_live}
use mathlib.Core.Option

pub data RotationType : Type 0 where
  daily weekly biweekly custom : RotationType

abbrev pub period_days : RotationType → ℕ
period_days daily = 1
period_days weekly = 7
period_days biweekly = 14
period_days custom = 7

abbrev pub day_ms : ℕ
day_ms = 86_400_000

pub record ParticipantRef : Type 0 where
  pub user_id : RecordId
  pub position : ℕ

pub record OverrideRef : Type 0 where
  pub user_id : RecordId
  pub starts_at : Instant
  pub ends_at : Instant

pub record Schedule : Type 0 where
  pub timezone : Text
  pub rotation_type : RotationType
  pub handoff_minute : ℕ
  pub participants : List ParticipantRef
  pub overrides : List OverrideRef

pub data Source : Type 0 where
  override rotation empty : Source

pub record OnCallResult : Type 0 where
  pub primary : Option RecordId
  pub secondary : Option RecordId
  pub source : Source

-- A stable sort by position, ascending.
unfoldable pub insert_by_position : ParticipantRef → List ParticipantRef → List ParticipantRef
insert_by_position p [] = p ∷ []
insert_by_position p (q ∷ qs) =
    let later = q ∷ insert_by_position p qs in
    if leb p.position q.position then p ∷ (q ∷ qs) else later

unfoldable pub sort_by_position : List ParticipantRef → List ParticipantRef
unfolding insert_by_position
sort_by_position [] = []
sort_by_position (p ∷ ps) = insert_by_position p (sort_by_position ps)

-- `((periods % n) + n) % n`
unfoldable pub wrap_index : ℤ → ℕ → ℤ
unfolding rem ◌+ℤ◌
wrap_index periods n = rem (rem periods n +ℤ pos n) n

abbrev pub is_active : Instant → OverrideRef → Bool
is_active now o = leb o.starts_at now && leb now o.ends_at

abbrev at_index : List ParticipantRef → ℤ → Option RecordId
at_index ps (pos i) = Option.map (λ (p : ParticipantRef). p.user_id) (get_elem? ps i)
at_index ps (negsuc i) = none

-- `sorted[(idx + 1) % sorted.length]`, where there are two participants or more
abbrev at_next : List ParticipantRef → ℤ → Option RecordId
at_next ps (pos i) =
    if ltb 1 (length ps)
    then Option.map (λ (p : ParticipantRef). p.user_id) (get_elem? ps ((i + 1) % length ps))
    else none
at_next ps (negsuc i) = none

-- the secondary of an override: the rotation's primary, unless that is the same person
abbrev backup_for : RecordId → Option RecordId → Option RecordId → Option RecordId
backup_for user none rotation_secondary = rotation_secondary
backup_for user (some u) rotation_secondary = if u == user then rotation_secondary else some u

-- The three `return`s of resolveOnCall.
unfoldable pub answer : Option OverrideRef → Bool → Option RecordId → Option RecordId → OnCallResult
answer (some o) nobody rotation_primary rotation_secondary = record {
  primary = some o.user_id;
  secondary = backup_for o.user_id rotation_primary rotation_secondary;
  source = override;
}
answer none nobody rotation_primary rotation_secondary =
    if nobody
    then record { primary = none; secondary = none; source = empty }
    else record { primary = rotation_primary; secondary = rotation_secondary; source = rotation }

module _ (tz_offset_ms : Instant → Text → ℤ) where
  -- Milliseconds of local time since the handoff of day 0.
  abbrev pub shifted_ms : Schedule → Instant → ℤ
  shifted_ms schedule now =
      pos now +ℤ tz_offset_ms now schedule.timezone -ℤ pos (schedule.handoff_minute * 60_000)

  abbrev pub period_ms : Schedule → ℕ
  period_ms schedule = period_days schedule.rotation_type * day_ms

  unfoldable pub rotation_index : Schedule → Instant → ℤ
  rotation_index schedule now =
      if length schedule.participants == 0
      then negsuc 0
      else wrap_index (floor_div (shifted_ms schedule now) (period_ms schedule))
          (length schedule.participants)

  unfoldable pub resolve_on_call : Schedule → Instant → OnCallResult
  unfolding sort_by_position rotation_index answer
  resolve_on_call schedule now =
      let sorted = sort_by_position schedule.participants in
      let idx = rotation_index (record schedule { participants = sorted }) now in
      let rotation_primary = at_index sorted idx in
      let rotation_secondary = at_next sorted idx in
      answer (find (is_active now) schedule.overrides) (length sorted == 0) rotation_primary
        rotation_secondary

  -- A row of the schedule table.
  pub record ScheduleRow : Type 0 where
    pub id : RecordId
    pub deleted_at : Option Instant
    pub schedule : Schedule

  unfoldable pub who_is_on_call : List ScheduleRow → RecordId → Instant → Option OnCallResult
  who_is_on_call rows schedule_id now =
      Option.map (λ (r : ScheduleRow). resolve_on_call r.schedule now)
        (find (λ (r : ScheduleRow). r.id == schedule_id && is_live r.deleted_at) rows)
