-- ===== src/CustomDomains/Serving.antt =====
-- Which hostnames apps/api/src/services/custom-domain.service.ts serves, and who holds a domain.
use uptimeflow.Common.{
  ◌≤◌, ◌≡◌, refl, ap, subst, ◌∙◌, Bool, true, false, not, ◌&&◌, Option, none, some, List, [], ◌∷◌,
  ◌==◌, any, count, find, map, Bool-cases, inl, inr, if◌then◌else◌, arith,
}
use uptimeflow.Common.Tables.{
  update_where, find-holds, find-first, find-update_one, any-update_where, any-found,
}
use uptimeflow.Common.Text.{Text, text_eq, text_eq_refl}
use uptimeflow.Enums.{RecordId, Instant}
use uptimeflow.Store.{is_live}
use uptimeflow.CustomDomains.Hostnames.{normalize_domain, challenge_hostname}
use uptimeflow.CustomDomains.Service.{
  DomainRow, DomainAction, log_domain, forbidden, page_not_found, DomainStore,
  DomainVerificationStatus, CheckError, is_verified, is_domain_of, is_page_of, has_domain,
  to_resolved, serve, resolve_normal, log_verified, resolve, TxtAnswer, records, txt_failed, join,
  verdict_of, judge, checked, removed, conflict, insert_domain, create_normal, create, verify_row,
  verify, remove_row, remove,
}

-- The resolver shows the token of a row at its challenge name.
abbrev pub shows : Text → TxtAnswer → Bool
shows token (records chunks) = any (text_eq token) (map join chunks)
shows token (txt_failed code) = false

verdict_verified :
    (token : Text) (vs : List Text) → is_verified (verdict_of token vs).0 ≡ any (text_eq token) vs
verdict_verified token [] = refl
verdict_verified token (v ∷ vs) = elim (Bool-cases (any (text_eq token) (v ∷ vs))) [
  | inl e ↦ rw e refl
  | inr e ↦ rw e refl
]

judge-shows :
    (token : Text) (answer : TxtAnswer) → is_verified (judge token answer).0 ≡ shows token answer
unfolding judge
judge-shows token (records chunks) = verdict_verified token (map join chunks)
judge-shows token (txt_failed code) = refl

module _ (cname_target : Text) (prefix : Option Text) (resolve_txt : Text → TxtAnswer)
    (s : DomainStore) (organization_id id : RecordId) (now : Instant) (r : DomainRow)
    (found : find (is_domain_of organization_id id) s.domains ≡ some r) where
  abbrev has_id : RecordId → DomainRow → Bool
  has_id i q = q.id == i

  is_found : is_domain_of organization_id id r ≡ true
  is_found = find-holds (is_domain_of organization_id id) s.domains found

  same_id : id ≡ r.id
  same_id = ground (arith, is_found)

  abbrev outcome : DomainVerificationStatus × Option CheckError
  outcome = judge r.verification_token (resolve_txt (challenge_hostname r.domain prefix))

  abbrev stored : DomainStore
  stored = record s { domains = update_where (has_id r.id) (checked now outcome) s.domains }

  logged :
      (d : Text)
      → resolve_normal
          (log_verified cname_target prefix organization_id outcome.0 r stored)
          (some d)
        ≡ resolve_normal stored (some d)
  logged d = elim (Bool-cases (is_verified outcome.0 && not (is_verified r.verification_status))) [
    | inl e ↦ rw e refl
    | inr e ↦ rw e refl
  ]

  found_by_id : count (has_id r.id) s.domains ≤ 1 → find (has_id r.id) s.domains ≡ some r
  found_by_id one =
      find-first (has_id r.id) (λ q. q.organization_id == organization_id && is_live q.deleted_at)
        s.domains r
        (subst (λ i. find (is_domain_of organization_id i) s.domains ≡ some r) same_id found) one

  served_or_not :
      (b : Bool)
      → serve s.pages (if b then some (checked now outcome r) else none)
        ≡ (if b then to_resolved s.pages r else none)
  served_or_not true = refl
  served_or_not false = refl

  now_served :
      (is_verified outcome.0 && is_live r.deleted_at)
      ≡ shows r.verification_token (resolve_txt (challenge_hostname r.domain prefix))
  now_served = ground (
    arith,
    is_found,
    judge-shows r.verification_token (resolve_txt (challenge_hostname r.domain prefix)),
  )

  -- After a check of a live domain, requests to it are served exactly where the resolver now shows its
  -- token; a domain that was served before is not, where the lookup fails.
  pub verify_decides :
      (host : Text)
      → normalize_domain host ≡ some r.domain
      → count (λ (q : DomainRow). q.id == r.id) s.domains ≤ 1
      → count (has_domain r.domain) s.domains ≤ 1
      → resolve (verify cname_target prefix resolve_txt s organization_id id now).1 host ≡ (
          if shows r.verification_token (resolve_txt (challenge_hostname r.domain prefix))
          then to_resolved s.pages r
          else none)
  unfolding resolve verify verify_row
  verify_decides host named one only =
      ap (resolve_normal (verify cname_target prefix resolve_txt s organization_id id now).1) named
      ∙ ap
          (λ o.
            resolve_normal (verify_row cname_target prefix resolve_txt s organization_id now o).1
              (some r.domain))
          found
      ∙ logged r.domain
      ∙ ap (serve s.pages) (
          find-update_one (has_domain r.domain) (has_id r.id)
            (λ q. is_verified q.verification_status && is_live q.deleted_at) (checked now outcome)
            s.domains r (found_by_id one) one only (text_eq_refl r.domain) (text_eq_refl r.domain))
      ∙ ap (λ b. serve s.pages (if b then some (checked now outcome r) else none)) now_served
      ∙ served_or_not
          (shows r.verification_token (resolve_txt (challenge_hostname r.domain prefix)))

module _ (s : DomainStore) (organization_id id : RecordId) (actor_id : Option RecordId)
    (now : Instant) (r : DomainRow)
    (found : find (is_domain_of organization_id id) s.domains ≡ some r) where
  abbrev gone : DomainStore
  gone = record s {
    domains = update_where (λ (q : DomainRow). q.id == id) (removed now actor_id) s.domains;
  }

  abbrev gone_and_logged : DomainStore
  gone_and_logged = log_domain organization_id actor_id DomainAction.domain_deleted id gone

  removed_found : remove s organization_id id actor_id now ≡ (true, gone_and_logged)
  unfolding remove remove_row
  removed_found = ap (remove_row s organization_id id actor_id now) found

  still_there : any (has_domain r.domain) gone.domains ≡ true
  still_there =
      any-update_where (has_domain r.domain) (λ (q : DomainRow). q.id == id) (removed now actor_id)
        (λ x. refl) s.domains
      ∙ any-found (has_domain r.domain) (is_domain_of organization_id id) s.domains r found
          (text_eq_refl r.domain)

  module _ (cname_target : Text) (prefix : Option Text) (can_use : RecordId → Bool)
      (new_org page_id : RecordId) (input token : Text) (new_actor : Option RecordId)
      (later : Instant) where
    insert_taken :
        insert_domain cname_target prefix gone_and_logged new_org page_id r.domain token new_actor
          later
        ≡ conflict
    unfolding insert_domain
    insert_taken = rw still_there refl

    -- A domain that was removed stays taken: nobody, its owner included, can connect it again.
    pub removed_stays_taken :
        normalize_domain input ≡ some r.domain
        → can_use new_org ≡ true
        → any (is_page_of new_org page_id) s.pages ≡ true
        → create cname_target prefix can_use
            (remove s organization_id id actor_id now).1
            new_org
            page_id
            input
            token
            new_actor
            later
          ≡ conflict
    unfolding create create_normal
    removed_stays_taken named can page =
        ap
          (λ (x : Bool × DomainStore).
            create cname_target prefix can_use x.1 new_org page_id input token new_actor later)
          removed_found
        ∙ ap
            (λ b.
              if b
              then create_normal cname_target prefix gone_and_logged new_org page_id
                  (normalize_domain input) token new_actor later
              else forbidden)
            can
        ∙ ap
            (λ o.
              create_normal cname_target prefix gone_and_logged new_org page_id o token new_actor
                later)
            named
        ∙ ap
            (λ b.
              if b
              then insert_domain cname_target prefix gone_and_logged new_org page_id r.domain token
                  new_actor later
              else page_not_found)
            page
        ∙ insert_taken
