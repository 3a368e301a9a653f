-- ===== src/StatusPages/Confirmation.antt =====
-- Who becomes an active subscriber, from apps/api/src/services/status-page.service.ts.
use uptimeflow.Common.{
  ℕ, ◌≤◌, ◌≡◌, ap, Bool, false, ◌&&◌, Option, none, some, List, [], ◌∷◌, ◌==◌, any, count, find,
  Bool-cases, inl, inr, arith,
}
use uptimeflow.Common.Tables.{count-append, count-update_mono, find-count-none, any-count_zero}
use uptimeflow.Common.Text.{Text}
use uptimeflow.Enums.{RecordId, Instant}
use uptimeflow.StatusPages.PublicPage.{PageRow}
use uptimeflow.StatusPages.Subscribers.{
  Subscriber, SubscriberStore, is_active, is_subscriber, is_already_active, same_token, on_page,
  resubscribed, confirmed, ended, upsert_subscriber, subscribe_to, subscribe, change_found,
  verify_subscriber, unsubscribe, new_subscriber,
}

abbrev pub is_active_subscriber : RecordId → Text → Subscriber → Bool
is_active_subscriber page_id email r = is_subscriber page_id email r && is_active r.status

module _ (page_id : RecordId) (email : Text) where
  abbrev pub active_rows : List Subscriber → ℕ
  active_rows = count (is_active_subscriber page_id email)

  upsert_subscriber-active :
      (id : RecordId) (mail t u : Text) (now : Instant) (next : RecordId) (rows : List Subscriber)
      → active_rows (upsert_subscriber id mail t u now next rows) ≤ active_rows rows
  unfolding upsert_subscriber
  upsert_subscriber-active id mail t u now next rows =
      elim (Bool-cases (any (is_subscriber id mail) rows)) [
        | inl e ↦ rw e (
            count-update_mono (is_active_subscriber page_id email) (is_subscriber id mail)
              (resubscribed t) (λ x k h. ground (arith, h)) rows)
        | inr e ↦ rw e (
            ground (
              arith,
              count-append (is_active_subscriber page_id email) rows
                  (new_subscriber id mail t u now next ∷ []),
            ))
      ]

  subscribe_to-active :
      (notifier : Bool) (web_url : Option Text) (s : SubscriberStore) (o : Option PageRow)
      (mail t u : Text) (now : Instant)
      → active_rows (subscribe_to notifier web_url s o mail t u now).1.subscribers
        ≤ active_rows s.subscribers
  unfolding subscribe_to
  subscribe_to-active notifier web_url s none mail t u now = omega arith
  subscribe_to-active notifier web_url s (some page) mail t u now =
      elim (Bool-cases (is_already_active (find (is_subscriber page.id mail) s.subscribers))) [
        | inl e ↦ rw e (omega arith)
        | inr e ↦ rw e (upsert_subscriber-active page.id mail t u now s.next_id s.subscribers)
      ]

  ended-active :
      (now : Instant) (s : SubscriberStore) (o : Option Subscriber)
      → active_rows (change_found (ended now) s o).1.subscribers ≤ active_rows s.subscribers
  unfolding change_found
  ended-active now s none = omega arith
  ended-active now s (some r) =
      count-update_mono (is_active_subscriber page_id email) (λ (q : Subscriber). q.id == r.id)
        (ended now) (λ x k h. ground (arith, h)) s.subscribers

  -- For every page and address, neither a subscription
  -- nor the end of one adds an active row, and neither does a confirmation with a token that no row
  -- holds.
  pub active_needs_token :
      (notifier : Bool) (web_url : Option Text) (s : SubscriberStore) (slug mail t u : Text)
      (now : Instant)
      → any (λ (r : Subscriber). same_token u r.verification_token) s.subscribers ≡ false
      → (active_rows (subscribe notifier web_url s slug mail t u now).1.subscribers
          ≤ active_rows s.subscribers)
        × (active_rows (unsubscribe s slug t now).1.subscribers ≤ active_rows s.subscribers)
        × (verify_subscriber s slug u t now ≡ (false, s))
  unfolding subscribe unsubscribe verify_subscriber change_found
  active_needs_token notifier web_url s slug mail t u now unknown = (
    subscribe_to-active notifier web_url s _ _ t u now,
    ended-active now s _,
    ap (change_found (confirmed now t) s) (
        find-count-none (λ (r : Subscriber). same_token u r.verification_token)
          (λ (r : Subscriber). on_page s.pages slug r.status_page_id) s.subscribers
          (any-count_zero _ s.subscribers unknown)),
  )
