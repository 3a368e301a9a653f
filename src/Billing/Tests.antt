-- ===== src/Billing/Tests.antt =====
-- One organization that buys a plan, as in apps/api/tests/billing-webhook.test.ts.
use uptimeflow.Common.{◌+◌, ◌≤◌, ◌≡◌, refl, inr, [], ◌∷◌, count, arith}
use uptimeflow.Common.Text.{Text, codes, text_eq, starts_with}
use uptimeflow.Billing.Values.{Value, Fields, member, lookup}
use uptimeflow.Billing.Tables.{
  StripeEvent, BillingStore, is_event, create_event, upsert, upsert_at, write_subscription,
}
use uptimeflow.Billing.Webhook.{
  Outcome, handle_event, handle_typed, handle_resolved, conclude, transact, event_row,
}
use uptimeflow.Billing.Effects.{
  handled_type, resolve_org_id, apply_effect, apply_subscription, merge, map_status,
}
use uptimeflow.Billing.Replay.{run, times_applied, applied_once, handle_event_rolls_back}

abbrev acme : Text
acme = codes "acme"

abbrev globex : Text
globex = codes "globex"

-- The object of a subscription: its customer, price and seats, and the organization as metadata.
abbrev subscription_of : Text → Value
subscription_of organization_id = Value.object (
    Fields.field (codes "id") (Value.text (codes "sub_1")) (
      Fields.field (codes "customer") (Value.text (codes "cus_1")) (
        Fields.field (codes "status") (Value.text (codes "active")) (
          Fields.field (codes "metadata")
            (Value.object
              (Fields.field (codes "organizationId") (Value.text organization_id) Fields.done))
            Fields.done))))

abbrev updated : Text → Text → StripeEvent
updated id organization_id = record {
  id = id;
  event_type = codes "customer.subscription.updated";
  payload = subscription_of organization_id;
}

abbrev before : BillingStore
before = record {
  organizations = acme ∷ (globex ∷ []);
  plans = [];
  subscriptions = [];
  invoice_events = [];
  audits = [];
  next_id = 1;
  now = 1_000;
}

abbrev evt_1 : StripeEvent
evt_1 = updated (codes "evt_1") acme

abbrev after : BillingStore
after = (handle_event evt_1 before).1

first_is_applied : (handle_event evt_1 before).0 ≡ Outcome.applied
unfolding handle_event handle_typed handled_type handle_resolved resolve_org_id conclude transact
    event_row create_event apply_effect apply_subscription upsert upsert_at write_subscription merge
    map_status member lookup text_eq starts_with
first_is_applied = refl

second_is_duplicate : (handle_event evt_1 after).0 ≡ Outcome.duplicate
unfolding handle_event handle_typed handled_type handle_resolved resolve_org_id conclude transact
    event_row create_event apply_effect apply_subscription upsert upsert_at write_subscription merge
    map_status member lookup text_eq starts_with
second_is_duplicate = refl

-- A first delivery whose customer is linked to another organization is answered "duplicate" too,
-- and no record of it is kept.
first_is_lost :
    ((handle_event (updated (codes "evt_2") globex) after).0 ≡ Outcome.duplicate)
    × (count
          (is_event (codes "evt_2"))
          (handle_event (updated (codes "evt_2") globex) after).1.invoice_events
        ≡ 0)
unfolding handle_event handle_typed handled_type handle_resolved resolve_org_id conclude transact
    event_row create_event apply_effect apply_subscription upsert upsert_at write_subscription merge
    map_status member lookup text_eq starts_with
first_is_lost = (refl, refl)

applied_once_example :
    (count (is_event (codes "evt_1")) (run (evt_1 ∷ (evt_1 ∷ [])) before).invoice_events
      ≡ 0 + times_applied (codes "evt_1") (evt_1 ∷ (evt_1 ∷ [])) before)
    × (count (is_event (codes "evt_1")) (run (evt_1 ∷ (evt_1 ∷ [])) before).invoice_events ≤ 1)
applied_once_example = applied_once (evt_1 ∷ (evt_1 ∷ [])) before (codes "evt_1") (omega arith)

is_recorded : count (is_event (codes "evt_1")) after.invoice_events ≡ 1
unfolding handle_event handle_typed handled_type handle_resolved resolve_org_id conclude transact
    event_row create_event apply_effect apply_subscription upsert upsert_at write_subscription merge
    map_status member lookup text_eq starts_with
is_recorded = refl

handle_event_rolls_back_example : (handle_event evt_1 after).1 ≡ after
unfolding handle_event handle_typed handled_type handle_resolved resolve_org_id conclude transact
    event_row create_event apply_effect apply_subscription upsert upsert_at write_subscription merge
    map_status member lookup text_eq starts_with
handle_event_rolls_back_example = handle_event_rolls_back evt_1 after (inr refl)
