-- ===== src/Escalation/Guards.antt =====
-- What one step of engine.ts promises about the people that it pages.
use uptimeflow.Common.{
  ℕ, ◌+◌, ◌≤◌, ◌≡◌, ◌≢◌, refl, ap, subst, ◌∙◌, Bool, true, take, count, find, Option, none, some,
  List, [], ◌∷◌, ◌++◌, ◌==◌, length, All, Bool-cases, inl, inr, arith,
}
use uptimeflow.Common.Tables.{count-append, find-holds}
use uptimeflow.Common.Int.{ℤ}
use uptimeflow.Common.Text.{Text}
use uptimeflow.Enums.{RecordId, Instant}
use uptimeflow.Store.{Store}
use uptimeflow.Escalation.Policy.{StepRow}
use uptimeflow.Escalation.Paging.{
  User, ResponderRef, Paged, Failure, IncidentContext, ResponderPage, Wiring, page_one, page_all,
  reach, has_email, page_to, unknown_user, all_failed, no_one, chosen_for, paged_for, execute_step,
}
use uptimeflow.Escalation.Choices.{NoRepeats, user_ids, choose_all-Distinct}

module _ (user : RecordId) where
  abbrev pub is_user : RecordId → Bool
  is_user v = v == user

  count-absent : (us : List RecordId) → All (λ v. v ≢ user) us → count is_user us ≡ 0
  count-absent [] h = refl
  count-absent (v ∷ us) (n, h) = ground (arith, count-absent us h)

  NoRepeats-count : (us : List RecordId) → NoRepeats us → count is_user us ≤ 1
  NoRepeats-count [] d = omega arith
  NoRepeats-count (v ∷ us) (n, d) = elim (Bool-cases (v == user)) [
    | inl e ↦
        let same : v ≡ user = ground (arith, e) in
        let gone : count is_user us ≡ 0 =
          count-absent us (subst (λ w. All (λ x. x ≢ w) us) same n) in
        ground (arith, e, gone)
    | inr e ↦ ground (arith, e, NoRepeats-count us d)
  ]

  abbrev pub is_failure : Failure → Bool
  is_failure f = f.user_id == user

  -- How often the user stands among those paged and those failed.
  abbrev pub reached : Paged → ℕ
  reached p = count is_user p.paged + count is_failure p.failed

  paged-reached :
      (p : Paged) (id : RecordId)
      → reached (record p { paged = p.paged ++ id ∷ [] }) ≡ reached p + count is_user (id ∷ [])
  paged-reached p id = omega (arith, count-append is_user p.paged (id ∷ []))

  failed-reached :
      (p : Paged) (f : Failure)
      → reached (record p { failed = p.failed ++ f ∷ [] })
        ≡ reached p + count is_user (f.user_id ∷ [])
  failed-reached p f = grind (arith, count-append is_failure p.failed (f ∷ []))

  module _ (page : ResponderPage → Option Text) (users : List User)
      (incident_id organization_id : RecordId) (incident : IncidentContext) (position : ℕ) where
    sent-reached :
        (ref : ResponderRef) (u : User) (p : Paged) (o : Option Text)
        → u.id ≡ ref.user_id
        → has_email page users incident_id organization_id incident position u ≡ true
        → page (page_to page users incident_id organization_id incident position ref u) ≡ o
        → reached (reach page users incident_id organization_id incident position ref u p)
          ≡ reached p + count is_user (ref.user_id ∷ [])
    sent-reached ref u p none e m h =
        let sent : reach page users incident_id organization_id incident position ref u p
            ≡ record p { paged = p.paged ++ u.id ∷ [] } =
          rw (m, h) refl in
        ap reached sent ∙ paged-reached p u.id ∙ ap (λ v. reached p + count is_user (v ∷ [])) e
    sent-reached ref u p (some reason) e m h =
        let f : Failure = record { user_id = ref.user_id; reason = take 200 reason } in
        let sent : reach page users incident_id organization_id incident position ref u p
            ≡ record p { failed = p.failed ++ f ∷ [] } =
          rw (m, h) refl in
        ap reached sent ∙ failed-reached p f

    reach-reached :
        (ref : ResponderRef) (u : User) (p : Paged)
        → u.id ≡ ref.user_id
        → reached (reach page users incident_id organization_id incident position ref u p)
          ≡ reached p + count is_user (ref.user_id ∷ [])
    reach-reached ref u p e =
        elim (Bool-cases (has_email page users incident_id organization_id incident position u)) [
          | inl m ↦ sent-reached ref u p _ e m refl
          | inr m ↦
              let f : Failure = record {
                user_id = ref.user_id;
                reason = unknown_user page users incident_id organization_id incident position;
              } in
              let sent : reach page users incident_id organization_id incident position ref u p
                  ≡ record p { failed = p.failed ++ f ∷ [] } =
                rw m refl in
              ap reached sent ∙ failed-reached p f
        ]

    page_found-reached :
        (ref : ResponderRef) (p : Paged) (o : Option User)
        → find (λ (u : User). u.id == ref.user_id) users ≡ o
        → reached (page_one page users incident_id organization_id incident position ref p)
          ≡ reached p + count is_user (ref.user_id ∷ [])
    unfolding page_one
    page_found-reached ref p none h =
        let f : Failure = record {
          user_id = ref.user_id;
          reason = unknown_user page users incident_id organization_id incident position;
        } in
        let missed : page_one page users incident_id organization_id incident position ref p
            ≡ record p { failed = p.failed ++ f ∷ [] } =
          rw (h, page_one) refl in
        ap reached missed ∙ failed-reached p f
    page_found-reached ref p (some u) h =
        let t = find-holds (λ (v : User). v.id == ref.user_id) users h in
        let found : page_one page users incident_id organization_id incident position ref p
            ≡ reach page users incident_id organization_id incident position ref u p =
          rw (h, page_one) refl in
        ap reached found ∙ reach-reached ref u p (ground (arith, t))

    abbrev pub among : List ResponderRef → ℕ
    among refs = count is_user (user_ids refs)

    page_all-reached :
        (refs : List ResponderRef) (p : Paged)
        → reached (page_all page users incident_id organization_id incident position refs p)
          ≡ reached p + among refs
    unfolding page_all
    page_all-reached [] p = omega arith
    page_all-reached (ref ∷ refs) p =
        page_all-reached refs
          (page_one page users incident_id organization_id incident position ref p)
        ∙ ground (arith, page_found-reached ref p _ refl)

  all_failed-reached :
      (refs : List ResponderRef) → reached (all_failed refs) ≡ count is_user (user_ids refs)
  all_failed-reached [] = refl
  all_failed-reached (ref ∷ refs) = ground (arith, all_failed-reached refs)

  module _ (tz_offset_ms : Instant → Text → ℤ) (w : Wiring tz_offset_ms)
      (incident_id organization_id : RecordId) (incident : IncidentContext) (now : Instant) where
    paged_for-reached :
        (step : StepRow) (refs : List ResponderRef) (o : Option (ResponderPage → Option Text))
        → w.responders ≡ o
        → reached (paged_for tz_offset_ms w incident_id organization_id incident now step refs)
          ≡ count is_user (user_ids refs)
    unfolding paged_for
    paged_for-reached step refs none e = rw e (all_failed-reached refs)
    paged_for-reached step refs (some page) e = rw e (
        page_all-reached page w.users incident_id organization_id incident step.position refs no_one
        ∙ omega arith)

    -- Of a step, whatever its targets, the table of users and the notifier: every user stands at most
    -- once among the responders that it reports, and exactly as often, once or not at all, among the
    -- users that it paged and those that it failed to page together; it reports how many these are.
    pub execute_step_accounts :
        (step : StepRow) (s : Store)
        → let p =
            paged_for tz_offset_ms w incident_id organization_id incident now step
              (chosen_for tz_offset_ms w incident_id organization_id incident now
                step).responders in
          let r = (execute_step tz_offset_ms w incident_id organization_id incident now step s).0 in
          (count is_user r.responders ≤ 1)
          × (count is_user p.paged + count is_failure p.failed ≡ count is_user r.responders)
          × (r.responders_paged ≡ length p.paged)
          × (r.responders_failed ≡ length p.failed)
    unfolding execute_step chosen_for
    execute_step_accounts step s = (
      NoRepeats-count _ (choose_all-Distinct tz_offset_ms w now step.targets _ tt),
      paged_for-reached step _ w.responders refl,
      refl,
      refl,
    )
