-- ===== src/StatusPages/Subscribers.antt =====
-- apps/api/src/services/status-page.service.ts: subscribe, verifySubscriber and unsubscribe. The random
-- tokens are arguments; a text has no letters beyond ASCII.
use uptimeflow.Common.{
  suc, Bool, true, false, ◌&&◌, Option, none, some, List, [], ◌∷◌, ◌++◌, ◌==◌, any, find, or_else,
  if◌then◌else◌,
}
use uptimeflow.Common.Tables.{update_where}
use uptimeflow.Common.Text.{Text, codes, text_eq, lower, without_last}
use uptimeflow.Enums.{RecordId, Instant}
use uptimeflow.Store.{is_live}
use uptimeflow.CustomDomains.Hostnames.{trim_start, trim_end}
use uptimeflow.StatusPages.PublicPage.{PageRow, public_page_by_slug}

pub data SubscriberStatus : Type 0 where
  pending active unsubscribed : SubscriberStatus

-- The columns that these flows read or write.
pub record Subscriber : Type 0 where
  pub id : RecordId
  pub status_page_id : RecordId
  pub email : Text
  pub status : SubscriberStatus
  pub verification_token : Option Text
  pub unsubscribe_token : Option Text
  pub verified_at : Option Instant
  pub unsubscribed_at : Option Instant
  pub created_at : Instant

-- What the notifier is given to send.
pub record Verification : Type 0 where
  pub page_name : Text
  pub email : Text
  pub confirm_url : Text

pub record SubscriberStore : Type 0 where
  pub pages : List PageRow
  pub subscribers : List Subscriber
  pub verifications : List Verification
  pub next_id : RecordId

-- `{ status, verificationToken, email }`
pub data SubscribeResult : Type 0 where
  pending_with : Text → Text → SubscribeResult
  already_active : Text → SubscribeResult

abbrev pub is_active : SubscriberStatus → Bool
is_active SubscriberStatus.active = true
is_active _ = false

-- `email.trim().toLowerCase()`
unfoldable pub normalize_email : Text → Text
unfolding trim_start trim_end
normalize_email email = lower (trim_end (trim_start email))

-- `statusPageId_email`
abbrev pub is_subscriber : RecordId → Text → Subscriber → Bool
is_subscriber page_id email r = r.status_page_id == page_id && text_eq r.email email

-- `existing?.status === "ACTIVE"`
abbrev pub is_already_active : Option Subscriber → Bool
is_already_active none = false
is_already_active (some r) = is_active r.status

abbrev pub same_token : Text → Option Text → Bool
same_token t none = false
same_token t (some u) = text_eq u t

-- `statusPage: { slug, deletedAt: null }`
abbrev pub on_page : List PageRow → Text → RecordId → Bool
on_page pages slug page_id =
    any (λ (p : PageRow). p.id == page_id && (text_eq p.slug slug && is_live p.deleted_at)) pages

abbrev pub new_subscriber : RecordId → Text → Text → Text → Instant → RecordId → Subscriber
new_subscriber page_id email verification_token unsubscribe_token now id = record {
  id = id;
  status_page_id = page_id;
  email = email;
  status = SubscriberStatus.pending;
  verification_token = some verification_token;
  unsubscribe_token = some unsubscribe_token;
  verified_at = none;
  unsubscribed_at = none;
  created_at = now;
}

abbrev pub resubscribed : Text → Subscriber → Subscriber
resubscribed verification_token r = record r {
  status = SubscriberStatus.pending;
  verification_token = some verification_token;
  unsubscribed_at = none;
}

unfoldable pub upsert_subscriber :
    RecordId → Text → Text → Text → Instant → RecordId → List Subscriber → List Subscriber
unfolding text_eq
upsert_subscriber page_id email verification_token unsubscribe_token now id rows =
    if any (is_subscriber page_id email) rows
    then update_where (is_subscriber page_id email) (resubscribed verification_token) rows
    else rows ++ (new_subscriber page_id email verification_token unsubscribe_token now id ∷ [])

abbrev pub confirmed : Instant → Text → Subscriber → Subscriber
confirmed now fresh r = record r {
  status = SubscriberStatus.active;
  verified_at = some now;
  verification_token = none;
  unsubscribe_token = some (or_else r.unsubscribe_token fresh);
}

abbrev pub ended : Instant → Subscriber → Subscriber
ended now r = record r { status = SubscriberStatus.unsubscribed; unsubscribed_at = some now }

abbrev pub default_web_url : Text
default_web_url = codes "http://localhost:3000"

module _ (notifier : Bool) (web_url : Option Text) where
  abbrev pub confirm_url : Text → Text → Text
  unfolding without_last
  confirm_url slug t =
      without_last b'/' (or_else web_url default_web_url)
      ++ (codes "/status/" ++ (slug ++ (codes "/verify?token=" ++ t)))

  abbrev pub send_verification : PageRow → Text → Text → List Verification → List Verification
  send_verification page email t sent =
      if notifier
      then sent
        ++ (record { page_name = page.name; email = email; confirm_url = confirm_url page.slug t }
            ∷ [])
      else sent

  unfoldable pub subscribe_to :
      SubscriberStore
      → Option PageRow
      → Text
      → Text
      → Text
      → Instant
      → Option SubscribeResult × SubscriberStore
  unfolding upsert_subscriber text_eq
  subscribe_to s none email verification_token unsubscribe_token now = (none, s)
  subscribe_to s (some page) email verification_token unsubscribe_token now =
      if is_already_active (find (is_subscriber page.id email) s.subscribers)
      then (some (already_active email), s)
      else (
        some (pending_with verification_token email),
        record s {
          subscribers =
              upsert_subscriber page.id email verification_token unsubscribe_token now s.next_id
                s.subscribers;
          verifications = send_verification page email verification_token s.verifications;
          next_id = suc s.next_id;
        },
      )

  unfoldable pub subscribe :
      SubscriberStore
      → Text
      → Text
      → Text
      → Text
      → Instant
      → Option SubscribeResult × SubscriberStore
  unfolding subscribe_to normalize_email public_page_by_slug
  subscribe s slug email verification_token unsubscribe_token now =
      subscribe_to s (public_page_by_slug s.pages slug) (normalize_email email) verification_token
        unsubscribe_token now

abbrev pub holds_verification : List PageRow → Text → Text → Subscriber → Bool
holds_verification pages slug t r =
    same_token t r.verification_token && on_page pages slug r.status_page_id

abbrev pub holds_unsubscribe : List PageRow → Text → Text → Subscriber → Bool
holds_unsubscribe pages slug t r =
    same_token t r.unsubscribe_token && on_page pages slug r.status_page_id

-- A found row is changed by its identifier.
unfoldable pub change_found :
    (Subscriber → Subscriber) → SubscriberStore → Option Subscriber → Bool × SubscriberStore
change_found f s none = (false, s)
change_found f s (some r) = (
  true,
  record s { subscribers = update_where (λ (q : Subscriber). q.id == r.id) f s.subscribers },
)

unfoldable pub verify_subscriber :
    SubscriberStore → Text → Text → Text → Instant → Bool × SubscriberStore
unfolding change_found text_eq
verify_subscriber s slug t fresh now =
    change_found (confirmed now fresh) s (find (holds_verification s.pages slug t) s.subscribers)

unfoldable pub unsubscribe : SubscriberStore → Text → Text → Instant → Bool × SubscriberStore
unfolding change_found text_eq
unsubscribe s slug t now =
    change_found (ended now) s (find (holds_unsubscribe s.pages slug t) s.subscribers)
