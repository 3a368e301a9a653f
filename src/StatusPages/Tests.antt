-- ===== src/StatusPages/Tests.antt =====
-- A page with a component that follows a monitor, as in apps/api/tests/status-pages.test.ts.
use uptimeflow.Common.{◌≤◌, ◌≡◌, refl, true, false, ◌||◌, none, some, [], ◌∷◌, ◌==◌, any}
use uptimeflow.Common.Text.{Text, codes}
use uptimeflow.Enums.{MonitorHealth}
use uptimeflow.StatusPages.PublicPage.{
  ComponentRow, ComponentStatus, PageRow, StatusPageVisibility, status_severity, to_public_page,
  public_page_by_slug,
}
use uptimeflow.StatusPages.Subscribers.{
  Subscriber, SubscriberStatus, SubscriberStore, subscribe, verify_subscriber, unsubscribe,
  normalize_email,
}
use uptimeflow.StatusPages.Overall.{IsBound, is_as_severe, overall_is_worst}
use uptimeflow.StatusPages.Confirmation.{is_active_subscriber, active_rows, active_needs_token}
use uptimeflow.StatusPages.Lifecycle.{subscribe_then_verify}

abbrev api_component : ComponentRow
api_component = record {
  id = 1;
  name = codes "API";
  description = none;
  group_name = none;
  status = ComponentStatus.operational;
  show_uptime = true;
  monitor = some MonitorHealth.recovering;
}

abbrev page : PageRow
page = record {
  id = 3;
  slug = codes "acme";
  name = codes "Acme";
  description = none;
  visibility = StatusPageVisibility.unlisted;
  branding = none;
  updated_at = 10;
  deleted_at = none;
  components = api_component ∷ [];
  incidents = [];
}

recovering_is_degraded : (to_public_page page).overall_status ≡ ComponentStatus.degraded_performance
unfolding to_public_page
recovering_is_degraded = refl

overall_is_worst_example :
    IsBound (to_public_page page).components (to_public_page page).overall_status
    × (status_severity (to_public_page page).overall_status == 0
        || any (is_as_severe (to_public_page page).overall_status) (to_public_page page).components)
      ≡ true
overall_is_worst_example = overall_is_worst page

-- An address that has left.
abbrev left_row : Subscriber
left_row = record {
  id = 1;
  status_page_id = 3;
  email = codes "ann@acme.com";
  status = SubscriberStatus.unsubscribed;
  verification_token = none;
  unsubscribe_token = some (codes "u1");
  verified_at = some 20;
  unsubscribed_at = some 30;
  created_at = 15;
}

abbrev store : SubscriberStore
store = record { pages = page ∷ []; subscribers = left_row ∷ []; verifications = []; next_id = 2 }

abbrev typed : Text
typed = codes " Ann@Acme.com"

typed_address : normalize_email typed ≡ codes "ann@acme.com"
unfolding normalize_email
typed_address = refl

subscribe_then_verify_example :
    ((verify_subscriber
        (subscribe true none store (codes "acme") typed (codes "v2") (codes "u2") 40).1
        (codes "acme")
        (codes "v2")
        (codes "u3")
        50).0
      ≡ true)
    × (any
          (is_active_subscriber 3 (normalize_email typed))
          (verify_subscriber
            (subscribe true none store (codes "acme") typed (codes "v2") (codes "u2") 40).1
            (codes "acme")
            (codes "v2")
            (codes "u3")
            50).1.subscribers
        ≡ true)
unfolding public_page_by_slug normalize_email
subscribe_then_verify_example =
    subscribe_then_verify true none store (codes "acme") typed (codes "v2") (codes "u2")
      (codes "u3") 40 50 page refl refl refl

active_needs_token_example :
    (active_rows 3
        (codes "ann@acme.com")
        (subscribe true none store (codes "acme") typed (codes "u1") (codes "v2") 40).1.subscribers
      ≤ active_rows 3 (codes "ann@acme.com") store.subscribers)
    × (active_rows 3
          (codes "ann@acme.com")
          (unsubscribe store (codes "acme") (codes "u1") 40).1.subscribers
        ≤ active_rows 3 (codes "ann@acme.com") store.subscribers)
    × (verify_subscriber store (codes "acme") (codes "v2") (codes "u1") 40 ≡ (false, store))
active_needs_token_example =
    active_needs_token 3 (codes "ann@acme.com") true none store (codes "acme") typed (codes "u1")
      (codes "v2") 40 refl
