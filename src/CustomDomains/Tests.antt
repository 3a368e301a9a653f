-- ===== src/CustomDomains/Tests.antt =====
-- A status page under status.acme.com, as in apps/api/tests/custom-domains.test.ts.
use uptimeflow.Common.{◌≡◌, refl, Bool, true, none, some, [], ◌∷◌, arith, if◌then◌else◌}
use uptimeflow.Common.Text.{Text, codes}
use uptimeflow.Enums.{RecordId}
use uptimeflow.CustomDomains.Hostnames.{normalize_domain, challenge_hostname}
use uptimeflow.CustomDomains.Service.{
  DomainRow, PageRef, DomainStore, DomainVerificationStatus, DomainSslStatus, TxtAnswer, txt_failed,
  to_resolved, resolve, verify, create, remove, conflict,
}
use uptimeflow.CustomDomains.Normal.{normalize_domain_idem}
use uptimeflow.CustomDomains.Serving.{shows, verify_decides, removed_stays_taken}

abbrev acme : Text
acme = codes "status.acme.com"

pasted_url : normalize_domain (codes " HTTPS://Status.Acme.com:8080/path ") ≡ some acme
unfolding normalize_domain
pasted_url = refl

no_address : normalize_domain (codes "10.0.0.1") ≡ none
unfolding normalize_domain
no_address = refl

normalize_domain_idem_example : normalize_domain acme ≡ some acme
unfolding normalize_domain
normalize_domain_idem_example = normalize_domain_idem (codes "Status.ACME.com.") acme refl

abbrev domain_row : DomainRow
domain_row = record {
  id = 1;
  organization_id = 8;
  status_page_id = 3;
  domain = acme;
  verification_status = DomainVerificationStatus.verified;
  verification_token = codes "t0k3n";
  ssl_status = DomainSslStatus.ssl_active;
  verified_at = some 500;
  last_checked_at = some 500;
  last_check_error = none;
  created_by_id = none;
  deleted_by_id = none;
  created_at = 100;
  deleted_at = none;
}

abbrev page : PageRef
page = record { id = 3; organization_id = 8; slug = codes "acme"; deleted_at = none }

abbrev store : DomainStore
store = record { domains = domain_row ∷ []; pages = page ∷ []; audits = []; next_id = 2 }

-- The resolver is out of order.
abbrev servfail : Text → TxtAnswer
servfail name = txt_failed (some (codes "ESERVFAIL"))

served_before : resolve store (codes "status.acme.com") ≡ to_resolved store.pages domain_row
unfolding resolve normalize_domain
served_before = refl

verify_decides_example :
    resolve (verify (codes "cname.uptimeflow.app") none servfail store 8 1 900).1 acme ≡ (
      if shows domain_row.verification_token (servfail (challenge_hostname acme none))
      then to_resolved store.pages domain_row
      else none)
unfolding normalize_domain
verify_decides_example =
    verify_decides (codes "cname.uptimeflow.app") none servfail store 8 1 900 domain_row refl acme
      refl (omega arith) (omega arith)

abbrev anybody : RecordId → Bool
anybody organization_id = true

removed_stays_taken_example :
    create
      (codes "cname.uptimeflow.app")
      none
      anybody
      (remove store 8 1 none 900).1
      8
      3
      acme
      (codes "fresh")
      none
      950
    ≡ conflict
unfolding normalize_domain
removed_stays_taken_example =
    removed_stays_taken store 8 1 none 900 domain_row refl (codes "cname.uptimeflow.app") none
      anybody 8 3 acme (codes "fresh") none 950 refl refl refl
