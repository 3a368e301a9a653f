-- ===== src/CustomDomains/Service.antt =====
-- apps/api/src/services/custom-domain.service.ts. The resolver of TXT records, the random token and
-- the plan's gate are parameters; the wording of an error is left out.
use mathlib.Core.Option
use uptimeflow.Common.{
  ℕ, suc, Bool, true, false, not, ◌&&◌, ◌||◌, Option, none, some, List, [], ◌∷◌, ◌++◌, ◌==◌, any,
  find, map, or_option, if◌then◌else◌,
}
use uptimeflow.Common.Tables.{update_where}
use uptimeflow.Common.Text.{Text, codes, text_eq}
use uptimeflow.Enums.{RecordId, Instant}
use uptimeflow.Store.{is_live}
use uptimeflow.Pagination.Pages.{Cursor, Codec, Page, list_page}
use uptimeflow.Pagination.Views.{map_page}
use uptimeflow.CustomDomains.Hostnames.{
  DnsInstructions, normalize_domain, challenge_hostname, build_dns_instructions,
}

pub data DomainVerificationStatus : Type 0 where
  pending verified failed : DomainVerificationStatus

pub data DomainSslStatus : Type 0 where
  ssl_pending ssl_active ssl_failed : DomainSslStatus

-- `lastCheckError`
pub data CheckError : Type 0 where
  mismatch not_propagated : CheckError
  lookup_failed : Option Text → CheckError

pub record DomainRow : Type 0 where
  pub id : RecordId
  pub organization_id : RecordId
  pub status_page_id : RecordId
  pub domain : Text
  pub verification_status : DomainVerificationStatus
  pub verification_token : Text
  pub ssl_status : DomainSslStatus
  pub verified_at : Option Instant
  pub last_checked_at : Option Instant
  pub last_check_error : Option CheckError
  pub created_by_id : Option RecordId
  pub deleted_by_id : Option RecordId
  pub created_at : Instant
  pub deleted_at : Option Instant

-- The columns of a status page that are read here.
pub record PageRef : Type 0 where
  pub id : RecordId
  pub organization_id : RecordId
  pub slug : Text
  pub deleted_at : Option Instant

pub data DomainAction : Type 0 where
  domain_created domain_verified domain_deleted : DomainAction

pub record DomainAudit : Type 0 where
  pub organization_id : RecordId
  pub actor_id : Option RecordId
  pub action : DomainAction
  pub resource_id : RecordId

pub record DomainStore : Type 0 where
  pub domains : List DomainRow
  pub pages : List PageRef
  pub audits : List DomainAudit
  pub next_id : RecordId

pub record CustomDomainSummary : Type 0 where
  pub row : DomainRow
  pub dns : DnsInstructions

pub record ResolvedDomain : Type 0 where
  pub organization_id : RecordId
  pub status_page_id : RecordId
  pub domain : Text
  pub slug : Text

abbrev pub is_verified : DomainVerificationStatus → Bool
is_verified DomainVerificationStatus.verified = true
is_verified _ = false

-- `{ id, organizationId, deletedAt: null }`
abbrev pub is_domain_of : RecordId → RecordId → DomainRow → Bool
is_domain_of organization_id id r =
    r.id == id && (r.organization_id == organization_id && is_live r.deleted_at)

abbrev pub is_page_of : RecordId → RecordId → PageRef → Bool
is_page_of organization_id id p =
    p.id == id && (p.organization_id == organization_id && is_live p.deleted_at)

abbrev pub has_domain : Text → DomainRow → Bool
has_domain domain r = text_eq r.domain domain

-- `{ domain, verificationStatus: "VERIFIED", deletedAt: null }`
abbrev pub is_served : Text → DomainRow → Bool
is_served domain r =
    has_domain domain r && (is_verified r.verification_status && is_live r.deleted_at)

abbrev pub log_domain :
    RecordId → Option RecordId → DomainAction → RecordId → DomainStore → DomainStore
log_domain organization_id actor_id action id s = record s {
  audits =
      s.audits
      ++ (record {
        organization_id = organization_id;
        actor_id = actor_id;
        action = action;
        resource_id = id;
      }
          ∷ []);
}

abbrev pub to_resolved : List PageRef → DomainRow → Option ResolvedDomain
to_resolved pages r =
    Option.map
      (λ (p : PageRef). record {
        organization_id = r.organization_id;
        status_page_id = r.status_page_id;
        domain = r.domain;
        slug = p.slug;
      })
      (find (λ (p : PageRef). p.id == r.status_page_id) pages)

abbrev pub serve : List PageRef → Option DomainRow → Option ResolvedDomain
serve pages none = none
serve pages (some r) = to_resolved pages r

abbrev pub resolve_normal : DomainStore → Option Text → Option ResolvedDomain
resolve_normal s none = none
resolve_normal s (some domain) = serve s.pages (find (is_served domain) s.domains)

unfoldable pub resolve : DomainStore → Text → Option ResolvedDomain
unfolding normalize_domain text_eq
resolve s host = resolve_normal s (normalize_domain host)

pub data TxtAnswer : Type 0 where
  -- each record is a list of chunks
  records : List (List Text) → TxtAnswer
  -- the error's code, where it has one
  txt_failed : Option Text → TxtAnswer

-- `chunks.join("")`
abbrev pub join : List Text → Text
join [] = []
join (c ∷ cs) = c ++ join cs

abbrev pub verdict_of : Text → List Text → DomainVerificationStatus × Option CheckError
verdict_of token [] = (DomainVerificationStatus.pending, some CheckError.not_propagated)
verdict_of token (v ∷ vs) =
    if any (text_eq token) (v ∷ vs)
    then (DomainVerificationStatus.verified, none)
    else (DomainVerificationStatus.failed, some CheckError.mismatch)

abbrev error_of : Option Text → CheckError
error_of none = lookup_failed none
error_of (some code) =
    if text_eq code (codes "ENOTFOUND") || text_eq code (codes "ENODATA")
    then CheckError.not_propagated
    else lookup_failed (some code)

unfoldable pub judge : Text → TxtAnswer → DomainVerificationStatus × Option CheckError
unfolding text_eq
judge token (records chunks) = verdict_of token (map join chunks)
judge token (txt_failed code) = (DomainVerificationStatus.pending, some (error_of code))

abbrev pub checked : Instant → DomainVerificationStatus × Option CheckError → DomainRow → DomainRow
checked now (status, error) r = record r {
  verification_status = status;
  last_checked_at = some now;
  last_check_error = error;
  verified_at = if is_verified status then or_option r.verified_at (some now) else r.verified_at;
}

abbrev pub removed : Instant → Option RecordId → DomainRow → DomainRow
removed now actor_id r = record r { deleted_at = some now; deleted_by_id = actor_id }

pub data Created : Type 0 where
  created : CustomDomainSummary → DomainStore → Created
  forbidden validation_failed page_not_found conflict : Created

module _ (cname_target : Text) (challenge_prefix : Option Text) where
  abbrev to_summary : DomainRow → CustomDomainSummary
  to_summary r = record {
    row = r;
    dns = build_dns_instructions r.domain r.verification_token cname_target challenge_prefix;
  }

  abbrev pub domain_key : DomainRow → Cursor
  domain_key r = record { id = r.id; created_at = r.created_at }

  unfoldable pub list_domains :
      Codec → DomainStore → RecordId → ℕ → Option Text → Option (Page CustomDomainSummary)
  unfolding list_page
  list_domains codec s organization_id limit cursor = Option.map (map_page to_summary) (
      list_page domain_key codec (λ r. r.organization_id == organization_id && is_live r.deleted_at)
        limit s.domains cursor)

  unfoldable pub get : DomainStore → RecordId → RecordId → Option CustomDomainSummary
  get s organization_id id =
      Option.map to_summary (find (is_domain_of organization_id id) s.domains)

  abbrev new_domain :
      RecordId → RecordId → Text → Text → Option RecordId → Instant → RecordId → DomainRow
  new_domain organization_id page_id domain token actor_id now id = record {
    id = id;
    organization_id = organization_id;
    status_page_id = page_id;
    domain = domain;
    verification_status = DomainVerificationStatus.pending;
    verification_token = token;
    ssl_status = DomainSslStatus.ssl_pending;
    verified_at = none;
    last_checked_at = none;
    last_check_error = none;
    created_by_id = actor_id;
    deleted_by_id = none;
    created_at = now;
    deleted_at = none;
  }

  -- The unique column `domain` covers deleted rows too.
  unfoldable pub insert_domain :
      DomainStore → RecordId → RecordId → Text → Text → Option RecordId → Instant → Created
  unfolding text_eq
  insert_domain s organization_id page_id domain token actor_id now =
      let row = new_domain organization_id page_id domain token actor_id now s.next_id in
      if any (has_domain domain) s.domains
      then conflict
      else created (to_summary row) (
          log_domain organization_id actor_id domain_created s.next_id
            (record s { domains = s.domains ++ (row ∷ []); next_id = suc s.next_id }))

  unfoldable pub create_normal :
      DomainStore → RecordId → RecordId → Option Text → Text → Option RecordId → Instant → Created
  unfolding insert_domain
  create_normal s organization_id page_id none token actor_id now = validation_failed
  create_normal s organization_id page_id (some domain) token actor_id now =
      if any (is_page_of organization_id page_id) s.pages
      then insert_domain s organization_id page_id domain token actor_id now
      else page_not_found

  -- `can_use` is the capability gate.
  unfoldable pub create :
      (RecordId → Bool)
      → DomainStore
      → RecordId
      → RecordId
      → Text
      → Text
      → Option RecordId
      → Instant
      → Created
  unfolding create_normal normalize_domain
  create can_use s organization_id page_id domain token actor_id now =
      if can_use organization_id
      then create_normal s organization_id page_id (normalize_domain domain) token actor_id now
      else forbidden

  -- The first success of a domain is logged.
  abbrev pub log_verified :
      RecordId → DomainVerificationStatus → DomainRow → DomainStore → DomainStore
  log_verified organization_id status r s =
      if is_verified status && not (is_verified r.verification_status)
      then log_domain organization_id none domain_verified r.id s
      else s

  unfoldable pub verify_row :
      (Text → TxtAnswer)
      → DomainStore
      → RecordId
      → Instant
      → Option DomainRow
      → Option CustomDomainSummary × DomainStore
  unfolding judge
  verify_row resolve_txt s organization_id now none = (none, s)
  verify_row resolve_txt s organization_id now (some r) =
      let outcome =
        judge r.verification_token (resolve_txt (challenge_hostname r.domain challenge_prefix)) in
      (
        some (to_summary (checked now outcome r)),
        log_verified organization_id outcome.0 r (record s {
          domains = update_where (λ (q : DomainRow). q.id == r.id) (checked now outcome) s.domains;
        }),
      )

  unfoldable pub verify :
      (Text → TxtAnswer)
      → DomainStore
      → RecordId
      → RecordId
      → Instant
      → Option CustomDomainSummary × DomainStore
  unfolding verify_row
  verify resolve_txt s organization_id id now =
      verify_row resolve_txt s organization_id now
        (find (is_domain_of organization_id id) s.domains)

unfoldable pub remove_row :
    DomainStore
    → RecordId
    → RecordId
    → Option RecordId
    → Instant
    → Option DomainRow
    → Bool × DomainStore
remove_row s organization_id id actor_id now none = (false, s)
remove_row s organization_id id actor_id now (some r) = (
  true,
  log_domain organization_id actor_id domain_deleted id (record s {
    domains = update_where (λ (q : DomainRow). q.id == id) (removed now actor_id) s.domains;
  }),
)

unfoldable pub remove :
    DomainStore → RecordId → RecordId → Option RecordId → Instant → Bool × DomainStore
unfolding remove_row
remove s organization_id id actor_id now =
    remove_row s organization_id id actor_id now (find (is_domain_of organization_id id) s.domains)
