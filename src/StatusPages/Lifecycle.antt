-- ===== src/StatusPages/Lifecycle.antt =====
-- A subscription that is confirmed with its token, from apps/api/src/services/status-page.service.ts.
use uptimeflow.Common.{
  ◌≡◌, refl, ap, ◌∙◌, Bool, true, false, Option, some, List, [], ◌∷◌, ◌++◌, ◌==◌, any, find,
  Bool-cases, ==_refl, inl, inr, arith,
}
use uptimeflow.Common.Tables.{update_where, find-holds, any-found, any_mono}
use uptimeflow.Common.Text.{Text, text_eq_refl}
use uptimeflow.Enums.{RecordId, Instant}
use uptimeflow.StatusPages.PublicPage.{PageRow, is_public_at, public_page_by_slug}
use uptimeflow.StatusPages.Subscribers.{
  Subscriber, SubscriberStore, is_subscriber, is_already_active, same_token, on_page, resubscribed,
  confirmed, upsert_subscriber, subscribe_to, subscribe, holds_verification, change_found,
  verify_subscriber, normalize_email, new_subscriber,
}
use uptimeflow.StatusPages.Confirmation.{is_active_subscriber}

-- A row to which a test newly applies is the first that an update makes.
find-new :
    (p q : Subscriber → Bool) (f : Subscriber → Subscriber)
    → ((x : Subscriber) → q x ≡ true → p (f x) ≡ true)
    → (xs : List Subscriber) → any p xs ≡ false
    → any q xs ≡ true
    → (r : Subscriber) × (find p (update_where q f xs) ≡ some (f r)) × (q r ≡ true)
find-new p q f h [] n e = cc
find-new p q f h (x ∷ xs) n e = elim (Bool-cases (q x)) [
  | inl t ↦ (x, ground (arith, t, h x t), t)
  | inr t ↦
      let rest = find-new p q f h xs (ground (arith, n)) (ground (arith, t, e)) in
      (rest.0, ground (arith, t, n, rest.1), rest.2)
]

find-appended :
    (p : Subscriber → Bool) (xs : List Subscriber) (x : Subscriber)
    → any p xs ≡ false
    → p x ≡ true
    → find p (xs ++ (x ∷ [])) ≡ some x
find-appended p [] x n e = ground (arith, e)
find-appended p (y ∷ xs) x n e = ground (arith, n, find-appended p xs x)

any-updated :
    (p q g : Subscriber → Bool) (f : Subscriber → Subscriber) (xs : List Subscriber)
    (r : Subscriber)
    → find g xs ≡ some r
    → q r ≡ true
    → p (f r) ≡ true
    → any p (update_where q f xs) ≡ true
any-updated p q g f [] r h t k = cc
any-updated p q g f (x ∷ xs) r h t k = elim (Bool-cases (g x)) [
  | inl e ↦
      let same : x ≡ r = ground (arith, e, h) in
      let here : q x ≡ true = ap q same ∙ t in
      let new : p (f x) ≡ true = ap (λ y. p (f y)) same ∙ k in ground (arith, here, new)
  | inr e ↦ ground (arith, e, h, any-updated p q g f xs r)
]

abbrev AwaitsToken : List PageRow → Text → Text → RecordId → Text → List Subscriber → Type 0
AwaitsToken pages slug v page_id email rows =
    (r : Subscriber) × (find (holds_verification pages slug v) rows ≡ some r)
    × (is_subscriber page_id email r ≡ true)

module _ (pages : List PageRow) (slug v : Text) (page_id : RecordId) (email : Text)
    (reached : on_page pages slug page_id ≡ true) where
  resubscribed-holds :
      (x : Subscriber)
      → is_subscriber page_id email x ≡ true
      → holds_verification pages slug v (resubscribed v x) ≡ true
  resubscribed-holds x t =
      let same : x.status_page_id ≡ page_id = ground (arith, t) in
      let there : on_page pages slug x.status_page_id ≡ true =
        ap (on_page pages slug) same ∙ reached in
      ground (arith, text_eq_refl v, there)

  upsert_subscriber-AwaitsToken :
      (u : Text) (now : Instant) (next : RecordId) (rows : List Subscriber)
      → any (holds_verification pages slug v) rows ≡ false
      → AwaitsToken pages slug v page_id email (upsert_subscriber page_id email v u now next rows)
  unfolding upsert_subscriber
  upsert_subscriber-AwaitsToken u now next rows fresh =
      elim (Bool-cases (any (is_subscriber page_id email) rows)) [
        | inl e ↦
            let (r, found, t) =
              find-new (holds_verification pages slug v) (is_subscriber page_id email)
                (resubscribed v) resubscribed-holds rows fresh e in
            rw e (resubscribed v r, found, t)
        | inr e ↦ rw e (
          new_subscriber page_id email v u now next,
          find-appended (holds_verification pages slug v) rows
              (new_subscriber page_id email v u now next) fresh
              (ground (arith, text_eq_refl v, reached)),
          ground (arith, ==_refl page_id, text_eq_refl email),
        )
      ]

  found-activates :
      (fresh : Text) (now : Instant) (s : SubscriberStore)
      → AwaitsToken pages slug v page_id email s.subscribers
      → s.pages ≡ pages
      → ((verify_subscriber s slug v fresh now).0 ≡ true)
        × (any
              (is_active_subscriber page_id email)
              (verify_subscriber s slug v fresh now).1.subscribers
            ≡ true)
  unfolding verify_subscriber change_found
  found-activates fresh now s (r, found, t) e =
      rw (e, found)
        (
          refl,
          any-updated (is_active_subscriber page_id email) (λ (q : Subscriber). q.id == r.id)
              (holds_verification pages slug v) (confirmed now fresh) s.subscribers r found
              (==_refl r.id) (ground (arith, t)),
        )

public_on_page :
    (pages : List PageRow) (slug : Text) (page : PageRow)
    → find (is_public_at slug) pages ≡ some page
    → on_page pages slug page.id ≡ true
public_on_page pages slug page h =
    let t = find-holds (is_public_at slug) pages h in
    any-found _ (is_public_at slug) pages page h (ground (arith, t, ==_refl page.id))

-- Where the page is reachable, the address is not active yet, and no row holds the new token, the
-- token that a subscription sends confirms it: the confirmation succeeds, and the address, trimmed and
-- in lower case, is an active subscriber of the page.
pub subscribe_then_verify :
    (notifier : Bool) (web_url : Option Text) (s : SubscriberStore) (slug mail v u fresh : Text)
    (now later : Instant) (page : PageRow)
    → public_page_by_slug s.pages slug ≡ some page
    → is_already_active (find (is_subscriber page.id (normalize_email mail)) s.subscribers) ≡ false
    → any (λ (r : Subscriber). same_token v r.verification_token) s.subscribers ≡ false
    → ((verify_subscriber (subscribe notifier web_url s slug mail v u now).1 slug v fresh later).0
        ≡ true)
      × (any
            (is_active_subscriber page.id (normalize_email mail))
            (verify_subscriber
              (subscribe notifier web_url s slug mail v u now).1
              slug
              v
              fresh
              later).1.subscribers
          ≡ true)
unfolding subscribe subscribe_to public_page_by_slug
subscribe_then_verify notifier web_url s slug mail v u fresh now later page h idle unused =
    let reached = public_on_page s.pages slug page h in
    let nobody =
      any_mono (holds_verification s.pages slug v) _ (λ x t. ground (arith, t)) s.subscribers
        unused in
    rw (h, idle)
      (found-activates s.pages slug v page.id (normalize_email mail) reached fresh later _
        (upsert_subscriber-AwaitsToken s.pages slug v page.id (normalize_email mail) reached u now
          s.next_id s.subscribers nobody)
        refl)
