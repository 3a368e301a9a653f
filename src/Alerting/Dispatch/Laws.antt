-- ===== src/Alerting/Dispatch/Laws.antt =====
-- The loops of dispatcher.ts in closed form.
use mathlib.Core.List.{append-nil, append_assoc}
use native.Mathlib.Nat.{add-zero}
use uptimeflow.Common.{
  ℕ, ◌+◌, ◌≡◌, refl, sym, ◌∙◌, List, [], ◌∷◌, any, select, length, Bool-cases, inl, inr, arith,
}
use uptimeflow.Enums.{RecordId}
use uptimeflow.Store.{Store, AlertJob, NotificationDelivery}
use uptimeflow.Alerting.Dispatch.{
  AlertContext, live_bindings, enqueue, enqueue_each, dispatch, is_own_channel, dispatch_each,
  dispatch_to_channels, fanned_out,
}

store_eq :
    (s : Store) {d e : List NotificationDelivery} {j k : List AlertJob} {m n : ℕ}
    → d ≡ e
    → j ≡ k
    → m ≡ n
    → record s { deliveries = d; alert_jobs = j; next_id = m }
      ≡ record s { deliveries = e; alert_jobs = k; next_id = n }
store_eq s p q r = λ i. record s { deliveries = p i; alert_jobs = q i; next_id = r i }

fanned_out_nil : (ctx : AlertContext) (s : Store) → fanned_out ctx [] s ≡ s
fanned_out_nil ctx s =
    store_eq s (append-nil s.deliveries) (append-nil s.alert_jobs) (add-zero s.next_id)

fanned_out_cons :
    (ctx : AlertContext) (c : RecordId) (cs : List RecordId) (s : Store)
    → fanned_out ctx cs (enqueue ctx c s) ≡ fanned_out ctx (c ∷ cs) s
fanned_out_cons ctx c cs s =
    store_eq s (append_assoc s.deliveries _ _) (append_assoc s.alert_jobs _ _) (omega arith)

pair_eq : {m n : ℕ} {s t : Store} → m ≡ n → s ≡ t → ◌≡◌ {A = ℕ × Store} (m, s) (n, t)
pair_eq p q = λ i. (p i, q i)

enqueue_each_lem :
    (ctx : AlertContext) (cs : List RecordId) (s : Store) (n : ℕ)
    → enqueue_each ctx cs s n ≡ (n + length cs, fanned_out ctx cs s)
unfolding enqueue_each
enqueue_each_lem ctx [] s n = pair_eq (omega arith) (sym (fanned_out_nil ctx s))
enqueue_each_lem ctx (c ∷ cs) s n =
    enqueue_each_lem ctx cs (enqueue ctx c s) (n + 1)
    ∙ pair_eq (omega arith) (fanned_out_cons ctx c cs s)

-- Dispatching to a monitor adds, for each live channel bound to it and in that order, one PENDING
-- delivery and one job that names it, returns how many, and changes nothing else.
pub dispatch_lem :
    (s : Store) (ctx : AlertContext) (monitor_id : RecordId)
    → dispatch s ctx monitor_id
      ≡ (length (live_bindings s monitor_id), fanned_out ctx (live_bindings s monitor_id) s)
unfolding dispatch
dispatch_lem s ctx monitor_id =
    enqueue_each_lem ctx (live_bindings s monitor_id) s 0 ∙ pair_eq (omega arith) refl

-- The channels of a list that exist in the tenant, enabled and not deleted.
abbrev pub own_channels : Store → AlertContext → List RecordId → List RecordId
own_channels s ctx = select (λ c. any (is_own_channel ctx c) s.channels)

dispatch_each_lem :
    (ctx : AlertContext) (cs : List RecordId) (s : Store) (n : ℕ)
    → dispatch_each ctx cs s n
      ≡ (n + length (own_channels s ctx cs), fanned_out ctx (own_channels s ctx cs) s)
unfolding dispatch_each
dispatch_each_lem ctx [] s n = pair_eq (omega arith) (sym (fanned_out_nil ctx s))
dispatch_each_lem ctx (c ∷ cs) s n = elim (Bool-cases (any (is_own_channel ctx c) s.channels)) [
  | inl e ↦ rw e (
      dispatch_each_lem ctx cs (enqueue ctx c s) (n + 1)
      ∙ pair_eq (omega arith) (fanned_out_cons ctx c (own_channels s ctx cs) s))
  | inr e ↦ rw e (dispatch_each_lem ctx cs s n)
]

-- Dispatching to named channels adds, in order, one PENDING delivery and one job for each that
-- belongs to the tenant and is enabled and not deleted, returns how many, and changes nothing
-- else.
pub dispatch_to_channels_lem :
    (s : Store) (ctx : AlertContext) (channel_ids : List RecordId)
    → dispatch_to_channels s ctx channel_ids
      ≡ (length (own_channels s ctx channel_ids), fanned_out ctx (own_channels s ctx channel_ids) s)
unfolding dispatch_to_channels
dispatch_to_channels_lem s ctx channel_ids =
    dispatch_each_lem ctx channel_ids s 0 ∙ pair_eq (omega arith) refl
