-- ===== src/Billing/Webhook.antt =====
-- handleEvent of apps/api/src/services/billing-webhook.service.ts. The transaction is a chain of
-- statements: where one fails, the store is as before.
use uptimeflow.Common.{Bool, Option, none, some, [], ◌∷◌, ◌++◌, find, or_option, if◌then◌else◌}
use uptimeflow.Common.Text.{Text, codes, starts_with}
use uptimeflow.Billing.Values.{member, str, num, unix_to_date}
use uptimeflow.Billing.Tables.{
  InvoiceEventType, StripeEvent, SubscriptionRow, InvoiceEvent, BillingStore, Tx, committed,
  unique_violation, missing_reference, is_sub_of, create_event,
}
use uptimeflow.Billing.Effects.{handled_type, resolve_org_id, apply_effect}
use mathlib.Core.Option

-- A field that only an invoice has.
abbrev for_invoice {ℓ} : {A : Type ℓ} → Bool → Option A → Option A
for_invoice is_invoice a = if is_invoice then a else none

unfoldable pub event_row : StripeEvent → InvoiceEventType → Text → BillingStore → InvoiceEvent
unfolding member starts_with
event_row event kind organization_id s =
    let is_invoice = starts_with event.event_type (codes "invoice.") in
    let o = event.payload in
    record {
      organization_id = organization_id;
      subscription_id =
          Option.map (λ (r : SubscriptionRow). r.id)
            (find (is_sub_of organization_id) s.subscriptions);
      stripe_event_id = event.id;
      event_type = kind;
      stripe_invoice_id = for_invoice is_invoice (str (member (codes "id") o));
      amount_cents =
          for_invoice is_invoice (
            or_option (num (member (codes "amount_paid") o)) (num (member (codes "amount_due") o)));
      currency = for_invoice is_invoice (str (member (codes "currency") o));
      status = str (member (codes "status") o);
      hosted_invoice_url = for_invoice is_invoice (str (member (codes "hosted_invoice_url") o));
      invoice_pdf_url = for_invoice is_invoice (str (member (codes "invoice_pdf") o));
      period_start = for_invoice is_invoice (unix_to_date (member (codes "period_start") o));
      period_end = for_invoice is_invoice (unix_to_date (member (codes "period_end") o));
      payload = event;
    }

-- The next statement of a transaction.
abbrev pub then_tx : Tx → (BillingStore → Tx) → Tx
then_tx (committed s) f = f s
then_tx unique_violation f = unique_violation
then_tx missing_reference f = missing_reference

unfoldable pub transact : StripeEvent → InvoiceEventType → Text → BillingStore → Tx
unfolding event_row create_event apply_effect
transact event kind organization_id s =
    then_tx (create_event (event_row event kind organization_id s) s)
      (apply_effect kind organization_id event.payload)

pub data Outcome : Type 0 where
  applied duplicate ignored thrown : Outcome

abbrev audited : Text → InvoiceEventType → StripeEvent → BillingStore → BillingStore
audited organization_id kind event s = record s {
  audits =
      s.audits
      ++ (record { organization_id = organization_id; action = kind; resource_id = event.id } ∷ []);
}

-- What handleEvent answers to the end of its transaction, and the store that it leaves.
unfoldable pub conclude :
    StripeEvent → InvoiceEventType → Text → BillingStore → Tx → Outcome × BillingStore
conclude event kind organization_id s (committed t) =
    (applied, audited organization_id kind event t)
conclude event kind organization_id s unique_violation = (duplicate, s)
conclude event kind organization_id s missing_reference = (thrown, s)

unfoldable pub handle_resolved :
    StripeEvent → InvoiceEventType → Option Text → BillingStore → Outcome × BillingStore
unfolding conclude transact
handle_resolved event kind none s = (ignored, s)
handle_resolved event kind (some organization_id) s =
    conclude event kind organization_id s (transact event kind organization_id s)

unfoldable pub handle_typed :
    StripeEvent → Option InvoiceEventType → BillingStore → Outcome × BillingStore
unfolding handle_resolved resolve_org_id
handle_typed event none s = (ignored, s)
handle_typed event (some kind) s = handle_resolved event kind (resolve_org_id event.payload s) s

unfoldable pub handle_event : StripeEvent → BillingStore → Outcome × BillingStore
unfolding handle_typed handled_type
handle_event event s = handle_typed event (handled_type event.event_type) s
