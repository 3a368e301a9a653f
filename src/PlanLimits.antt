-- ===== src/PlanLimits.antt =====
-- apps/api/src/services/plan-limits.service.ts: what an organization's plan lets it create. The
-- wording of an error is left out; its details are kept.
pub mod Caps
mod Tests
use mathlib.Core.Option
use uptimeflow.Common.{
  ℕ, ◌+◌, ◌-◌, Bool, false, ◌&&◌, Option, none, some, List, [], ◌∷◌, ◌==◌, ltb, leb, find, count,
  or_option, if◌then◌else◌,
}
use uptimeflow.Common.Text.{Text, codes}
use uptimeflow.Enums.{RecordId, Instant}
use uptimeflow.Store.{is_live}

pub data PlanTier : Type 0 where
  free starter growth business enterprise : PlanTier

pub data LimitedResource : Type 0 where
  monitor seat status_page : LimitedResource

pub data Capability : Type 0 where
  sms voice sso advanced_analytics custom_domains : Capability

pub record EffectiveLimits : Type 0 where
  pub tier : PlanTier
  pub plan_name : Text
  -- `none` for unlimited
  pub monitor_limit : Option ℕ
  pub seat_limit : Option ℕ
  pub status_page_limit : Option ℕ
  pub sms_enabled : Bool
  pub voice_enabled : Bool
  pub sso_enabled : Bool
  pub advanced_analytics : Bool
  pub custom_domains_enabled : Bool
  pub metered_allowances : List (Text × ℕ)

-- A row of the plan catalog: its identifier and what it grants.
pub record BillingPlan : Type 0 where
  pub id : RecordId
  pub limits : EffectiveLimits

pub record Subscription : Type 0 where
  pub organization_id : RecordId
  pub plan : PlanTier
  pub billing_plan_id : Option RecordId
  pub monitor_limit : Option ℕ

-- A row that belongs to an organization, and may be deleted.
pub record Owned : Type 0 where
  pub organization_id : RecordId
  pub deleted_at : Option Instant

pub record Invitation : Type 0 where
  pub organization_id : RecordId
  -- `status: "pending"`
  pub is_pending : Bool
  pub expires_at : Instant

pub record PlanStore : Type 0 where
  pub plans : List BillingPlan
  pub subscriptions : List Subscription
  pub monitors : List Owned
  pub status_pages : List Owned
  -- the organization of each member
  pub members : List RecordId
  pub invitations : List Invitation

abbrev pub free_fallback : EffectiveLimits
free_fallback = record {
  tier = PlanTier.free;
  plan_name = codes "Free";
  monitor_limit = some 10;
  seat_limit = some 1;
  status_page_limit = some 1;
  sms_enabled = false;
  voice_enabled = false;
  sso_enabled = false;
  advanced_analytics = false;
  custom_domains_enabled = false;
  metered_allowances = (codes "sms", 0) ∷ ((codes "voice_minutes", 0) ∷ []);
}

abbrev rank : PlanTier → ℕ
rank PlanTier.free = 0
rank PlanTier.starter = 1
rank PlanTier.growth = 2
rank PlanTier.business = 3
rank PlanTier.enterprise = 4

abbrev pub plan_of_tier : PlanStore → PlanTier → Option BillingPlan
plan_of_tier s tier = find (λ (p : BillingPlan). rank p.limits.tier == rank tier) s.plans

abbrev pub plan_by_id : PlanStore → Option RecordId → Option BillingPlan
plan_by_id s none = none
plan_by_id s (some id) = find (λ (p : BillingPlan). p.id == id) s.plans

-- The plan of a subscription: the row that it names, else the catalog's row of its tier.
abbrev pub plan_for : PlanStore → Option Subscription → Option BillingPlan
plan_for s none = plan_of_tier s PlanTier.free
plan_for s (some sub) = or_option (plan_by_id s sub.billing_plan_id) (plan_of_tier s sub.plan)

abbrev pub monitor_override : Option Subscription → Option ℕ
monitor_override none = none
monitor_override (some sub) = sub.monitor_limit

abbrev pub limits_of : Option BillingPlan → Option Subscription → EffectiveLimits
limits_of none sub = free_fallback
limits_of (some plan) sub =
    let granted = plan.limits in
    record granted { monitor_limit = or_option (monitor_override sub) granted.monitor_limit }

unfoldable pub get_effective_limits : PlanStore → RecordId → EffectiveLimits
get_effective_limits s org =
    let sub = find (λ (x : Subscription). x.organization_id == org) s.subscriptions in
    limits_of (plan_for s sub) sub

abbrev pub is_owned : RecordId → Owned → Bool
is_owned org x = x.organization_id == org && is_live x.deleted_at

unfoldable pub count_usage : PlanStore → RecordId → LimitedResource → ℕ
count_usage s org monitor = count (is_owned org) s.monitors
count_usage s org seat = count (λ m. m == org) s.members
count_usage s org status_page = count (is_owned org) s.status_pages

abbrev pub holds_seat : RecordId → Instant → Invitation → Bool
holds_seat org now i = i.organization_id == org && (i.is_pending && ltb now i.expires_at)

unfoldable pub count_pending_invitations : PlanStore → RecordId → Instant → ℕ
count_pending_invitations s org now = count (holds_seat org now) s.invitations

abbrev pub limit_for : EffectiveLimits → LimitedResource → Option ℕ
limit_for limits monitor = limits.monitor_limit
limit_for limits seat = limits.seat_limit
limit_for limits status_page = limits.status_page_limit

-- An assertion passes, or throws `payment_required` with these details.
pub data Verdict : Type 0 where
  allowed : Verdict
  over_limit : LimitedResource → ℕ → ℕ → PlanTier → Verdict
  not_included : Capability → PlanTier → Verdict

abbrev pub check_limit : LimitedResource → PlanTier → ℕ → Option ℕ → Verdict
check_limit resource tier used none = allowed
check_limit resource tier used (some limit) =
    if leb limit used then over_limit resource limit used tier else allowed

unfoldable pub assert_within_limit : PlanStore → RecordId → LimitedResource → Verdict
assert_within_limit s org resource =
    let limits = get_effective_limits s org in
    check_limit resource limits.tier (count_usage s org resource) (limit_for limits resource)

unfoldable pub assert_seat_available_for_invite : PlanStore → RecordId → Instant → Verdict
assert_seat_available_for_invite s org now =
    let limits = get_effective_limits s org in
    check_limit seat limits.tier (count_usage s org seat + count_pending_invitations s org now)
      limits.seat_limit

abbrev pub is_enabled : EffectiveLimits → Capability → Bool
is_enabled limits sms = limits.sms_enabled
is_enabled limits voice = limits.voice_enabled
is_enabled limits sso = limits.sso_enabled
is_enabled limits custom_domains = limits.custom_domains_enabled
is_enabled limits advanced_analytics = limits.advanced_analytics

unfoldable pub assert_capability : PlanStore → RecordId → Capability → Verdict
assert_capability s org capability =
    let limits = get_effective_limits s org in
    if is_enabled limits capability then allowed else not_included capability limits.tier

pub record ResourceUsage : Type 0 where
  pub limit : Option ℕ
  pub used : ℕ
  pub remaining : Option ℕ

-- `toUsage`
unfoldable pub to_usage : Option ℕ → ℕ → ResourceUsage
to_usage none used = record { limit = none; used = used; remaining = none }
to_usage (some limit) used = record {
  limit = some limit;
  used = used;
  remaining = some (limit - used);
}
