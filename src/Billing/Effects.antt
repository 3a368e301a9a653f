-- ===== src/Billing/Effects.antt =====
-- What an event does to the subscription of its organization, in
-- apps/api/src/services/billing-webhook.service.ts.
use uptimeflow.Common.{
  Bool, true, false, ◌||◌, Option, none, some, List, [], ◌∷◌, find, or_else, or_option,
  if◌then◌else◌,
}
use uptimeflow.Common.Text.{Text, codes, text_eq}
use uptimeflow.Common.Tables.{update_where}
use uptimeflow.Enums.{RecordId}
use uptimeflow.PlanLimits.{PlanTier}
use uptimeflow.Billing.Values.{Value, member, str, unix_to_date, is_true, meta_org, first_item}
use uptimeflow.Billing.Tables.{
  SubscriptionStatus, InvoiceEventType, CatalogPlan, SubscriptionRow, BillingStore, Tx, committed,
  is_sub_of, has_customer, same_text, upsert,
}
use mathlib.Core.Option

-- The handled types are the keys of EVENT_TYPE_MAP.
abbrev pub event_type_map : List (Text × InvoiceEventType)
event_type_map =
    (codes "checkout.session.completed", InvoiceEventType.checkout_completed)
    ∷ ((codes "customer.subscription.created", InvoiceEventType.subscription_created)
        ∷ ((codes "customer.subscription.updated", InvoiceEventType.subscription_updated)
            ∷ ((codes "customer.subscription.deleted", InvoiceEventType.subscription_deleted)
                ∷ ((codes "invoice.payment_succeeded", InvoiceEventType.payment_succeeded)
                    ∷ ((codes "invoice.payment_failed", InvoiceEventType.payment_failed) ∷ [])))))

unfoldable pub handled_type : Text → Option InvoiceEventType
unfolding text_eq
handled_type name =
    Option.map (λ (r : Text × InvoiceEventType). r.1)
      (find (λ (r : Text × InvoiceEventType). text_eq r.0 name) event_type_map)

unfoldable pub map_status : Option Text → SubscriptionStatus
unfolding text_eq
map_status none = SubscriptionStatus.incomplete
map_status (some s) =
    if text_eq s (codes "trialing")
    then SubscriptionStatus.trialing
    else if text_eq s (codes "active")
    then SubscriptionStatus.active
    else if text_eq s (codes "past_due") || text_eq s (codes "paused")
    then SubscriptionStatus.past_due
    else if text_eq s (codes "canceled")
    then SubscriptionStatus.canceled
    else if text_eq s (codes "unpaid")
    then SubscriptionStatus.unpaid
    else SubscriptionStatus.incomplete

-- The metadata of the event, then the customer's subscription.
abbrev pub customer_org : List SubscriptionRow → Option Text → Option Text
customer_org rows none = none
customer_org rows (some customer_id) =
    Option.map (λ (r : SubscriptionRow). r.organization_id) (find (has_customer customer_id) rows)

unfoldable pub resolve_org_id : Value → BillingStore → Option Text
unfolding member text_eq
resolve_org_id o s =
    or_option (meta_org o) (customer_org s.subscriptions (str (member (codes "customer") o)))

abbrev pub priced_at : Text → CatalogPlan → Bool
priced_at price_id p = same_text p.stripe_price_id (some price_id)

abbrev pub plan_of_price : List CatalogPlan → Option Text → Option CatalogPlan
plan_of_price plans none = none
plan_of_price plans (some price_id) = find (priced_at price_id) plans

abbrev pub id_of_plan : Option CatalogPlan → Option RecordId
id_of_plan = Option.map (λ (p : CatalogPlan). p.id)

abbrev pub tier_of_plan : Option CatalogPlan → Option PlanTier
tier_of_plan = Option.map (λ (p : CatalogPlan). p.tier)

-- The fields that an event sets; what it does not carry stays.
unfoldable pub merge : Value → Option CatalogPlan → SubscriptionRow → SubscriptionRow
unfolding map_status member
merge sub plan row = record row {
  status = map_status (str (member (codes "status") sub));
  cancel_at_period_end = is_true (member (codes "cancel_at_period_end") sub);
  canceled_at = unix_to_date (member (codes "canceled_at") sub);
  stripe_customer_id = or_option (str (member (codes "customer") sub)) row.stripe_customer_id;
  stripe_subscription_id = or_option (str (member (codes "id") sub)) row.stripe_subscription_id;
  stripe_price_id = or_option (first_item sub).price_id row.stripe_price_id;
  plan_id = or_option (id_of_plan plan) row.plan_id;
  plan = or_else (tier_of_plan plan) row.plan;
  seats = or_else (first_item sub).quantity row.seats;
  current_period_end =
      or_option (unix_to_date (member (codes "current_period_end") sub))
        (or_option (first_item sub).period_end row.current_period_end);
}

-- A new row with the defaults of the schema, but for the plan and the status.
abbrev pub new_row : Text → SubscriptionStatus → BillingStore → SubscriptionRow
new_row organization_id status s = record {
  id = s.next_id;
  organization_id = organization_id;
  plan_id = none;
  plan = PlanTier.free;
  status = status;
  stripe_customer_id = none;
  stripe_subscription_id = none;
  stripe_price_id = none;
  seats = 1;
  monitor_limit = none;
  current_period_end = none;
  cancel_at_period_end = false;
  canceled_at = none;
}

unfoldable pub apply_subscription : Text → Value → BillingStore → Tx
unfolding merge upsert
apply_subscription organization_id sub s =
    let plan = plan_of_price s.plans (first_item sub).price_id in
    upsert organization_id (merge sub plan)
      (merge sub plan (new_row organization_id SubscriptionStatus.trialing s)) s

abbrev pub is_free_tier : PlanTier → Bool
is_free_tier PlanTier.free = true
is_free_tier _ = false

abbrev pub is_free : CatalogPlan → Bool
is_free p = is_free_tier p.tier

-- Back to the free plan.
abbrev pub cancel_row : BillingStore → SubscriptionRow → SubscriptionRow
cancel_row s row = record row {
  status = SubscriptionStatus.canceled;
  plan = PlanTier.free;
  plan_id = id_of_plan (find is_free s.plans);
  stripe_subscription_id = none;
  stripe_price_id = none;
  cancel_at_period_end = false;
  canceled_at = some s.now;
}

unfoldable pub apply_cancellation : Text → BillingStore → Tx
unfolding text_eq
apply_cancellation organization_id s = committed (record s {
  subscriptions = update_where (is_sub_of organization_id) (cancel_row s) s.subscriptions;
})

abbrev pub with_status : SubscriptionStatus → SubscriptionRow → SubscriptionRow
with_status status row = record row { status = status }

unfoldable pub set_status : Text → SubscriptionStatus → BillingStore → Tx
unfolding text_eq
set_status organization_id status s = committed (record s {
  subscriptions = update_where (is_sub_of organization_id) (with_status status) s.subscriptions;
})

-- Checkout links the customer and the subscription to the organization.
abbrev pub link : Value → SubscriptionRow → SubscriptionRow
link o row = record row {
  stripe_customer_id = or_option (str (member (codes "customer") o)) row.stripe_customer_id;
  stripe_subscription_id =
      or_option (str (member (codes "subscription") o)) row.stripe_subscription_id;
}

unfoldable pub apply_effect : InvoiceEventType → Text → Value → BillingStore → Tx
unfolding apply_subscription apply_cancellation set_status upsert member
apply_effect InvoiceEventType.checkout_completed organization_id o s =
    upsert organization_id (link o)
      (link o (new_row organization_id SubscriptionStatus.incomplete s)) s
apply_effect InvoiceEventType.subscription_created organization_id o s =
    apply_subscription organization_id o s
apply_effect InvoiceEventType.subscription_updated organization_id o s =
    apply_subscription organization_id o s
apply_effect InvoiceEventType.subscription_deleted organization_id o s =
    apply_cancellation organization_id s
apply_effect InvoiceEventType.payment_succeeded organization_id o s =
    set_status organization_id SubscriptionStatus.active s
apply_effect InvoiceEventType.payment_failed organization_id o s =
    set_status organization_id SubscriptionStatus.past_due s
