-- ===== src/Billing/Tables.antt =====
-- The tables of packages/db/prisma/schema.prisma that the webhook reads and writes, with their
-- unique constraints. An organization's identifier arrives in a payload, so it is a text here.
use uptimeflow.Common.{
  ℕ, ◌+◌, Bool, false, not, ◌&&◌, ◌||◌, Option, none, some, List, [], ◌∷◌, ◌++◌, any, find,
  if◌then◌else◌,
}
use uptimeflow.Common.Text.{Text, text_eq}
use uptimeflow.Common.Tables.{update_where}
use uptimeflow.Enums.{RecordId, Instant}
use uptimeflow.PlanLimits.{PlanTier}
use uptimeflow.Billing.Values.{Value}

pub data SubscriptionStatus : Type 0 where
  trialing active past_due canceled unpaid incomplete : SubscriptionStatus

pub data InvoiceEventType : Type 0 where
  checkout_completed subscription_created subscription_updated subscription_deleted
        payment_succeeded payment_failed :
      InvoiceEventType

pub record StripeEvent : Type 0 where
  pub id : Text
  pub event_type : Text
  -- `event.data.object`
  pub payload : Value

pub record CatalogPlan : Type 0 where
  pub id : RecordId
  pub tier : PlanTier
  pub stripe_price_id : Option Text

pub record SubscriptionRow : Type 0 where
  pub id : RecordId
  pub organization_id : Text
  pub plan_id : Option RecordId
  pub plan : PlanTier
  pub status : SubscriptionStatus
  pub stripe_customer_id : Option Text
  pub stripe_subscription_id : Option Text
  pub stripe_price_id : Option Text
  pub seats : ℕ
  pub monitor_limit : Option ℕ
  pub current_period_end : Option Instant
  pub cancel_at_period_end : Bool
  pub canceled_at : Option Instant

pub record InvoiceEvent : Type 0 where
  pub organization_id : Text
  pub subscription_id : Option RecordId
  pub stripe_event_id : Text
  pub event_type : InvoiceEventType
  pub stripe_invoice_id : Option Text
  pub amount_cents : Option ℕ
  pub currency : Option Text
  pub status : Option Text
  pub hosted_invoice_url : Option Text
  pub invoice_pdf_url : Option Text
  pub period_start : Option Instant
  pub period_end : Option Instant
  pub payload : StripeEvent

-- `billing.${type.toLowerCase()}` of an organization
pub record BillingAudit : Type 0 where
  pub organization_id : Text
  pub action : InvoiceEventType
  pub resource_id : Text

pub record BillingStore : Type 0 where
  pub organizations : List Text
  pub plans : List CatalogPlan
  pub subscriptions : List SubscriptionRow
  pub invoice_events : List InvoiceEvent
  pub audits : List BillingAudit
  pub next_id : RecordId
  pub now : Instant

-- What a statement of a transaction may end in: P2002 is a unique violation, P2003 a missing row
-- that a foreign key names.
pub data Tx : Type 0 where
  committed : BillingStore → Tx
  unique_violation : Tx
  missing_reference : Tx

abbrev pub same_text : Option Text → Option Text → Bool
same_text (some s) (some t) = text_eq s t
same_text _ _ = false

abbrev pub is_event : Text → InvoiceEvent → Bool
is_event id e = text_eq e.stripe_event_id id

abbrev pub is_sub_of : Text → SubscriptionRow → Bool
is_sub_of organization_id s = text_eq s.organization_id organization_id

abbrev pub has_customer : Text → SubscriptionRow → Bool
has_customer customer_id s = same_text s.stripe_customer_id (some customer_id)

abbrev pub has_subscription : Text → SubscriptionRow → Bool
has_subscription subscription_id s = same_text s.stripe_subscription_id (some subscription_id)

-- Another organization's row holds the customer or the subscription of `row`.
abbrev pub clashes : SubscriptionRow → SubscriptionRow → Bool
clashes row s =
    not (is_sub_of row.organization_id s)
    && (same_text s.stripe_customer_id row.stripe_customer_id
        || same_text s.stripe_subscription_id row.stripe_subscription_id)

unfoldable pub create_event : InvoiceEvent → BillingStore → Tx
unfolding text_eq
create_event e s =
    if any (is_event e.stripe_event_id) s.invoice_events
    then unique_violation
    else if any (text_eq e.organization_id) s.organizations
    then committed (record s { invoice_events = s.invoice_events ++ (e ∷ []) })
    else missing_reference

-- `subscription.upsert({ where: { organizationId }, update, create })`
abbrev pub put_row : SubscriptionRow → SubscriptionRow → SubscriptionRow
put_row new old = new

unfoldable pub write_subscription : SubscriptionRow → List SubscriptionRow → BillingStore → Tx
unfolding text_eq
write_subscription row rows s =
    if any (clashes row) s.subscriptions
    then unique_violation
    else committed (record s { subscriptions = rows })

-- The row that an organization has is updated; without one, a row is created.
unfoldable pub upsert_at :
    Option SubscriptionRow
    → (SubscriptionRow → SubscriptionRow)
    → SubscriptionRow
    → BillingStore
    → Tx
unfolding write_subscription
upsert_at none update create s =
    write_subscription create (s.subscriptions ++ (create ∷ []))
      (record s { next_id = s.next_id + 1 })
upsert_at (some old) update create s =
    write_subscription (update old)
      (update_where (is_sub_of old.organization_id) (put_row (update old)) s.subscriptions) s

unfoldable pub upsert :
    Text → (SubscriptionRow → SubscriptionRow) → SubscriptionRow → BillingStore → Tx
unfolding upsert_at
upsert organization_id update create s =
    upsert_at (find (is_sub_of organization_id) s.subscriptions) update create s
