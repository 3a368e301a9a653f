-- ===== src/PlanLimits/Tests.antt =====
-- A free organization: ten monitors, one seat, one status page.
use uptimeflow.Common.{◌≤◌, ◌≡◌, refl, [], ◌∷◌, arith}
use uptimeflow.PlanLimits.{
  PlanTier, seat, PlanStore, over_limit, get_effective_limits, count_usage,
  count_pending_invitations, assert_within_limit, assert_seat_available_for_invite,
}
use uptimeflow.PlanLimits.Caps.{invited, claims, invitation_within_limit}

-- An organization with no member yet, and one with its single seat taken.
abbrev empty_org : PlanStore
empty_org = record {
  plans = [];
  subscriptions = [];
  monitors = [];
  status_pages = [];
  members = [];
  invitations = [];
}

abbrev staffed_org : PlanStore
staffed_org = record empty_org { members = 1 ∷ [] }

second_seat_refused : assert_within_limit staffed_org 1 seat ≡ over_limit seat 1 1 PlanTier.free
unfolding assert_within_limit get_effective_limits count_usage
second_seat_refused = refl

invitation_within_limit_example : claims (invited 1 9_000 empty_org) 1 6_000 ≤ 1
unfolding assert_seat_available_for_invite get_effective_limits count_usage
    count_pending_invitations
invitation_within_limit_example =
    invitation_within_limit empty_org 1 5_000 6_000 9_000 1 refl refl (omega arith)
