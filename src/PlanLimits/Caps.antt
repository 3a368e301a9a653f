-- ===== src/PlanLimits/Caps.antt =====
-- The caps of plan-limits.service.ts against the creations that they guard.
use uptimeflow.Common.{
  ℕ, ◌+◌, ◌≤◌, ◌≡◌, refl, sym, subst, ◌∙◌, Bool, true, false, Option, none, some, List, [], ◌∷◌,
  ◌++◌, ◌==◌, ltb, count, arith, ==_refl,
}
use uptimeflow.Common.Tables.{count-append}
use uptimeflow.Enums.{RecordId, Instant}
use uptimeflow.PlanLimits.{
  PlanTier, LimitedResource, monitor, seat, status_page, Owned, Invitation, PlanStore, Verdict,
  allowed, get_effective_limits, is_owned, count_usage, holds_seat, count_pending_invitations,
  limit_for, check_limit, assert_within_limit, assert_seat_available_for_invite, to_usage,
  ResourceUsage,
}

-- A new live row of an organization.
abbrev fresh_row : RecordId → Owned
fresh_row org = record { organization_id = org; deleted_at = none }

-- The creation that an assertion guards.
abbrev pub created : LimitedResource → RecordId → PlanStore → PlanStore
created monitor org s = record s { monitors = s.monitors ++ fresh_row org ∷ [] }
created seat org s = record s { members = s.members ++ org ∷ [] }
created status_page org s = record s { status_pages = s.status_pages ++ fresh_row org ∷ [] }

created-usage :
    (resource : LimitedResource) (org : RecordId) (s : PlanStore)
    → count_usage (created resource org s) org resource ≡ count_usage s org resource + 1
unfolding count_usage
created-usage monitor org s =
    count-append (is_owned org) s.monitors (fresh_row org ∷ []) ∙ ground (arith, ==_refl org)
created-usage seat org s =
    count-append (λ m. m == org) s.members (org ∷ []) ∙ ground (arith, ==_refl org)
created-usage status_page org s =
    count-append (is_owned org) s.status_pages (fresh_row org ∷ []) ∙ ground (arith, ==_refl org)

below_limit :
    (resource : LimitedResource) (tier : PlanTier) (used n : ℕ) (o : Option ℕ)
    → o ≡ some n
    → check_limit resource tier used o ≡ allowed
    → used + 1 ≤ n
below_limit resource tier used n none e h = cc
below_limit resource tier used n (some limit) e h = ground (arith, e)

-- Where an assertion allows one more resource of a limited plan, its creation leaves the organization
-- within the limit, for monitors, seats and status pages alike.
pub creation_within_limit :
    (s : PlanStore) (org : RecordId) (resource : LimitedResource) (n : ℕ)
    → limit_for (get_effective_limits s org) resource ≡ some n
    → assert_within_limit s org resource ≡ allowed
    → count_usage (created resource org s) org resource ≤ n
unfolding assert_within_limit
creation_within_limit s org resource n e h =
    subst (λ k. k ≤ n) (sym (created-usage resource org s))
      (below_limit resource _ (count_usage s org resource) n _ e h)

-- The seats that an organization has given out or promised.
abbrev pub claims : PlanStore → RecordId → Instant → ℕ
claims s org now = count_usage s org seat + count_pending_invitations s org now

abbrev pub invited : RecordId → Instant → PlanStore → PlanStore
invited org expires s = record s {
  invitations =
      s.invitations
      ++ record { organization_id = org; is_pending = true; expires_at = expires } ∷ [];
}

-- Invitations only expire as time goes on.
pending_expires :
    (org : RecordId) (now later : Instant) (is : List Invitation)
    → now ≤ later
    → count (holds_seat org later) is ≤ count (holds_seat org now) is
pending_expires org now later [] h = omega arith
pending_expires org now later (i ∷ is) h = ground (arith, pending_expires org now later is)

at_most_one {ℓ} : {A : Type ℓ} (p : A → Bool) (x : A) → count p (x ∷ []) ≤ 1
at_most_one p x = ground arith

-- Where the invitation gate of a limited plan passes, the invitation that follows leaves the members
-- and the pending invitations together within the seat limit, then and at any later time.
pub invitation_within_limit :
    (s : PlanStore) (org : RecordId) (now later expires : Instant) (n : ℕ)
    → (get_effective_limits s org).seat_limit ≡ some n
    → assert_seat_available_for_invite s org now ≡ allowed
    → now ≤ later
    → claims (invited org expires s) org later ≤ n
unfolding assert_seat_available_for_invite count_usage count_pending_invitations
invitation_within_limit s org now later expires n e h t =
    let room = below_limit seat _ (claims s org now) n _ e h in
    let kept = pending_expires org now later s.invitations t in
    let i : Invitation = record {
      organization_id = org;
      is_pending = true;
      expires_at = expires;
    } in
    let added = count-append (holds_seat org later) s.invitations (i ∷ []) in
    omega (arith, room, kept, added, at_most_one (holds_seat org later) i)

abbrev pub is_allowed : Verdict → Bool
is_allowed allowed = true
is_allowed _ = false

-- What a summary shows as room for one more.
abbrev pub has_room : ResourceUsage → Bool
has_room usage = elim usage.remaining [ none ↦ true | some k ↦ ltb 0 k ]

room_agrees :
    (resource : LimitedResource) (tier : PlanTier) (used : ℕ) (o : Option ℕ)
    → is_allowed (check_limit resource tier used o) ≡ has_room (to_usage o used)
unfolding to_usage
room_agrees resource tier used none = refl
room_agrees resource tier used (some limit) = ground arith

-- The gate allows one more of a resource exactly where the plan summary shows room for it.
pub summary_agrees :
    (s : PlanStore) (org : RecordId) (resource : LimitedResource)
    → is_allowed (assert_within_limit s org resource)
      ≡ has_room
          (to_usage (limit_for (get_effective_limits s org) resource) (count_usage s org resource))
unfolding assert_within_limit
summary_agrees s org resource = room_agrees resource _ (count_usage s org resource) _
