-- ===== src/Billing/Replay.antt =====
-- Deliveries of events to apps/api/src/services/billing-webhook.service.ts, repeated and in any
-- order: each event takes effect at most once.
use uptimeflow.Common.{
  ℕ, ◌+◌, ◌≤◌, ◌≡◌, ◌≢◌, refl, ap, subst, ◌∙◌, Bool, true, false, ◌&&◌, Option, none, some, List,
  [], ◌∷◌, ◌++◌, any, count, if◌then◌else◌, Bool-cases, inl, inr, ◌⊎◌, arith,
}
use uptimeflow.Common.Text.{Text, text_eq, text_eq→eq}
use uptimeflow.Common.Tables.{count-append}
use uptimeflow.Billing.Values.{Value}
use uptimeflow.Billing.Tables.{
  InvoiceEventType, StripeEvent, InvoiceEvent, SubscriptionRow, BillingStore, Tx, committed,
  unique_violation, missing_reference, is_event, clashes, create_event, upsert, upsert_at,
  write_subscription,
}
use uptimeflow.Billing.Webhook.{
  Outcome, applied, duplicate, ignored, thrown, event_row, transact, conclude, handle_resolved,
  handle_typed, handle_event, then_tx,
}
use uptimeflow.Billing.Effects.{
  handled_type, apply_subscription, apply_cancellation, set_status, apply_effect, resolve_org_id,
}

write_subscription-keeps :
    (row : SubscriptionRow) (rows : List SubscriptionRow) (s t : BillingStore)
    → write_subscription row rows s ≡ committed t
    → t.invoice_events ≡ s.invoice_events
unfolding write_subscription
write_subscription-keeps row rows s t h = elim (Bool-cases (any (clashes row) s.subscriptions)) [
  | inl e ↦ ground (arith, e, h)
  | inr e ↦ ground (arith, e, h)
]

upsert_at-keeps :
    (o : Option SubscriptionRow) (f : SubscriptionRow → SubscriptionRow) (row : SubscriptionRow)
    (s t : BillingStore)
    → upsert_at o f row s ≡ committed t
    → t.invoice_events ≡ s.invoice_events
unfolding upsert_at
upsert_at-keeps none f row s t h = write_subscription-keeps row _ _ t h
upsert_at-keeps (some old) f row s t h = write_subscription-keeps (f old) _ s t h

apply_effect-keeps :
    (kind : InvoiceEventType) (organization_id : Text) (o : Value) (s t : BillingStore)
    → apply_effect kind organization_id o s ≡ committed t
    → t.invoice_events ≡ s.invoice_events
unfolding apply_effect apply_subscription apply_cancellation set_status upsert
apply_effect-keeps InvoiceEventType.checkout_completed organization_id o s t h =
    upsert_at-keeps _ _ _ s t h
apply_effect-keeps InvoiceEventType.subscription_created organization_id o s t h =
    upsert_at-keeps _ _ _ s t h
apply_effect-keeps InvoiceEventType.subscription_updated organization_id o s t h =
    upsert_at-keeps _ _ _ s t h
apply_effect-keeps InvoiceEventType.subscription_deleted organization_id o s t h = ground (arith, h)
apply_effect-keeps InvoiceEventType.payment_succeeded organization_id o s t h = ground (arith, h)
apply_effect-keeps InvoiceEventType.payment_failed organization_id o s t h = ground (arith, h)

-- A transaction commits where each of its statements does.
pub then_tx-committed :
    (x : Tx) (f : BillingStore → Tx) (t : BillingStore)
    → then_tx x f ≡ committed t
    → (u : BillingStore) × (x ≡ committed u) × (f u ≡ committed t)
then_tx-committed (committed u) f t h = (u, refl, h)
then_tx-committed unique_violation f t h = cc
then_tx-committed missing_reference f t h = cc

pub create_event-adds :
    (e : InvoiceEvent) (s t : BillingStore)
    → create_event e s ≡ committed t
    → (any (is_event e.stripe_event_id) s.invoice_events ≡ false)
      × (t ≡ record s { invoice_events = s.invoice_events ++ (e ∷ []) })
unfolding create_event
create_event-adds e s t h = ground (arith, h)

-- What a delivery may come to: nothing is written, or one new event is recorded.
pub data Delivery (event : StripeEvent) (s : BillingStore) : Outcome × BillingStore → Type 0 where
  skipped : (o : Outcome) → o ≢ applied → Delivery event s (o, s)
  recorded :
      (t : BillingStore) (row : InvoiceEvent)
      → any (is_event event.id) s.invoice_events ≡ false
      → row.stripe_event_id ≡ event.id
      → t.invoice_events ≡ s.invoice_events ++ (row ∷ [])
      → Delivery event s (applied, t)

conclude-Delivery :
    (event : StripeEvent) (kind : InvoiceEventType) (organization_id : Text) (s : BillingStore)
    (x : Tx)
    → transact event kind organization_id s ≡ x
    → Delivery event s (conclude event kind organization_id s x)
unfolding conclude transact
conclude-Delivery event kind organization_id s unique_violation h = skipped duplicate (λ e. cc)
conclude-Delivery event kind organization_id s missing_reference h = skipped thrown (λ e. cc)
conclude-Delivery event kind organization_id s (committed t) h =
    let row = event_row event kind organization_id s in
    let (u, made, rest) =
      then_tx-committed (create_event row s) (apply_effect kind organization_id event.payload) t
        h in
    let (fresh, added) = create_event-adds row s u made in
    recorded _ row fresh refl (
      apply_effect-keeps kind organization_id event.payload u t rest
      ∙ ap (λ (v : BillingStore). v.invoice_events) added)

handle_resolved-Delivery :
    (event : StripeEvent) (kind : InvoiceEventType) (o : Option Text) (s : BillingStore)
    → Delivery event s (handle_resolved event kind o s)
unfolding handle_resolved
handle_resolved-Delivery event kind none s = skipped ignored (λ e. cc)
handle_resolved-Delivery event kind (some organization_id) s =
    conclude-Delivery event kind organization_id s (transact event kind organization_id s) refl

handle_typed-Delivery :
    (event : StripeEvent) (o : Option InvoiceEventType) (s : BillingStore)
    → Delivery event s (handle_typed event o s)
unfolding handle_typed
handle_typed-Delivery event none s = skipped ignored (λ e. cc)
handle_typed-Delivery event (some kind) s =
    handle_resolved-Delivery event kind (resolve_org_id event.payload s) s

pub handle_event-Delivery :
    (event : StripeEvent) (s : BillingStore) → Delivery event s (handle_event event s)
unfolding handle_event
handle_event-Delivery event s = handle_typed-Delivery event (handled_type event.event_type) s

-- Deliveries one after the other.
unfoldable pub run : List StripeEvent → BillingStore → BillingStore
unfolding handle_event
run [] s = s
run (e ∷ es) s = run es (handle_event e s).1

abbrev pub is_applied : Outcome → Bool
is_applied applied = true
is_applied _ = false

-- How many of the deliveries of an event are answered with "applied".
unfoldable pub times_applied : Text → List StripeEvent → BillingStore → ℕ
unfolding handle_event text_eq
times_applied id [] s = 0
times_applied id (e ∷ es) s =
    (if text_eq e.id id && is_applied (handle_event e s).0 then 1 else 0)
    + times_applied id es (handle_event e s).1

not_any-count :
    (id : Text) (es : List InvoiceEvent) → any (is_event id) es ≡ false → count (is_event id) es ≡ 0
not_any-count id [] h = refl
not_any-count id (e ∷ es) h = ground (arith, not_any-count id es)

not_applied : (o : Outcome) → o ≢ applied → is_applied o ≡ false
not_applied applied n = absurd (n refl)
not_applied duplicate n = refl
not_applied ignored n = refl
not_applied thrown n = refl

-- One delivery adds as many records of an event as it answers "applied" for it.
Delivery-counts :
    (id : Text) (e : StripeEvent) (s : BillingStore) (r : Outcome × BillingStore)
    → Delivery e s r
    → (count (is_event id) r.1.invoice_events
        ≡ count (is_event id) s.invoice_events
          + (if text_eq e.id id && is_applied r.0 then 1 else 0))
      × (count (is_event id) s.invoice_events ≤ 1 → count (is_event id) r.1.invoice_events ≤ 1)
Delivery-counts id e s _ (skipped o n) = (ground (arith, not_applied o n), λ h. h)
Delivery-counts id e s _ (recorded t row fresh same added) = elim (Bool-cases (text_eq e.id id)) [
  | inl x ↦
      let none_yet : count (is_event id) s.invoice_events ≡ 0 =
        not_any-count id s.invoice_events
          (subst (λ i. any (is_event i) s.invoice_events ≡ false) (text_eq→eq e.id id x) fresh) in
      ground (arith, x, one_more, none_yet)
  | inr x ↦ ground (arith, x, one_more)
]
  where
    one_more :
        count (is_event id) t.invoice_events
        ≡ count (is_event id) s.invoice_events + (if text_eq e.id id then 1 else 0)
    one_more =
        ap (count (is_event id)) added
        ∙ count-append (is_event id) s.invoice_events (row ∷ [])
        ∙ ap (λ i. count (is_event id) s.invoice_events + (if text_eq i id then 1 else 0)) same

-- However often and in whatever order events arrive, an event has as many records more as it was
-- answered "applied" for, and never two.
pub applied_once :
    (es : List StripeEvent) (s : BillingStore) (id : Text)
    → count (is_event id) s.invoice_events ≤ 1
    → (count (is_event id) (run es s).invoice_events
        ≡ count (is_event id) s.invoice_events + times_applied id es s)
      × (count (is_event id) (run es s).invoice_events ≤ 1)
unfolding run times_applied
applied_once [] s id h = (omega arith, h)
applied_once (e ∷ es) s id h =
    let (more, one) = Delivery-counts id e s (handle_event e s) (handle_event-Delivery e s) in
    let (all_more, all_one) = applied_once es (handle_event e s).1 id (one h) in
    (omega (arith, more, all_more), all_one)

Delivery-rolls_back :
    (e : StripeEvent) (s : BillingStore) (r : Outcome × BillingStore)
    → Delivery e s r
    → (r.0 ≢ applied) ⊎ (any (is_event e.id) s.invoice_events ≡ true)
    → r.1 ≡ s
Delivery-rolls_back e s _ (skipped o n) h = refl
Delivery-rolls_back e s _ (recorded t row fresh same added) (inl n) = absurd (n refl)
Delivery-rolls_back e s _ (recorded t row fresh same added) (inr known) = cc

-- A delivery that is not answered "applied" leaves the store as it was, and so does every delivery of
-- a recorded event.
pub handle_event_rolls_back :
    (event : StripeEvent) (s : BillingStore)
    → ((handle_event event s).0 ≢ applied) ⊎ (any (is_event event.id) s.invoice_events ≡ true)
    → (handle_event event s).1 ≡ s
handle_event_rolls_back event s h =
    Delivery-rolls_back event s (handle_event event s) (handle_event-Delivery event s) h
