-- ===== src/IncidentService/Scope.antt =====
-- Tenant isolation of incident.service.ts, and the incident table's invariant.
use uptimeflow.Common.{
  ◌≡◌, ◌≢◌, ◌&&◌, List, [], ◌∷◌, All, refl, inl, inr, true, false, Option, none, some, ◌==◌,
  Bool-cases, arith, find, count, subst, sym, ◌≤◌,
}
use uptimeflow.Common.Text.{Text}
use uptimeflow.Common.Tables.{All-update_one, count-update_one, find-first}
use uptimeflow.Enums.{RecordId, Instant, IncidentStatus, is_open, is_resolved}
use uptimeflow.Store.{Store, Incident, add_event, write_audit, is_unresolved_of}
use uptimeflow.Store.Consistency.{IsKeyed, IsConsistent, closes-IsConsistent}
use uptimeflow.Pipeline.Incidents.{close_incident, duration_sec}
use uptimeflow.Pipeline.Outages.{close_incident-Closes}
use uptimeflow.IncidentService.{
  IncidentActor, find_scoped, load_detail, acknowledge, acknowledge_existing, resolve,
  resolve_existing, comment, comment_existing, update_incident, acknowledge_incident,
}

is_open-not_resolved : (x : IncidentStatus) → is_open x ≡ true → is_resolved x ≡ false
is_open-not_resolved IncidentStatus.opened h = refl
is_open-not_resolved IncidentStatus.acknowledged h = refl
is_open-not_resolved IncidentStatus.resolved h = cc

-- The incidents with an identifier are all of other organizations.
abbrev pub IsForeign : RecordId → RecordId → List Incident → Type 0
IsForeign org id = All (λ (i : Incident). i.id ≡ id → i.organization_id ≢ org)

find-IsForeign :
    (org id : RecordId) (rows : List Incident)
    → IsForeign org id rows
    → find (λ (i : Incident). (i.id == id) && (i.organization_id == org)) rows ≡ none
find-IsForeign org id [] f = refl
find-IsForeign org id (i ∷ rows) (n, f) = elim (Bool-cases (i.id == id)) [
  | inl e ↦
      let same : i.id ≡ id = ground (arith, e) in
      let other : i.organization_id ≢ org = n same in
      ground (arith, e, other, find-IsForeign org id rows f)
  | inr e ↦ ground (arith, e, find-IsForeign org id rows f)
]

module _ (s : Store) (org id : RecordId) (actor : IncidentActor) (now : Instant) where
  -- Where every incident with an identifier is of another organization, the incident is not shown, and
  -- acknowledging, resolving and commenting all answer with nothing and leave the store as it was.
  pub foreign_is_refused :
      (message : Text)
      → IsForeign org id s.incidents
      → (load_detail s org id ≡ none)
        × (acknowledge s org id actor now ≡ (none, s))
        × (resolve s org id actor now ≡ (none, s))
        × (comment s org id message actor now ≡ (none, s))
  unfolding acknowledge resolve comment acknowledge_existing resolve_existing comment_existing
      load_detail find_scoped
  foreign_is_refused message f =
      let h = find-IsForeign org id s.incidents f in
      (rw h refl, rw (h, h) refl, rw (h, h) refl, rw h refl)

  acknowledged_one :
      (i : Incident)
      → find (λ (i : Incident). i.id == id) s.incidents ≡ some i
      → count (λ (i : Incident). i.id == id) s.incidents ≤ 1
      → is_open i.status ≡ true
      → IsConsistent s.incidents
      → IsConsistent (update_incident id (acknowledge_incident now actor.user_id) s).incidents
  unfolding update_incident
  acknowledged_one i h one o c =
      let still : is_resolved i.status ≡ false = is_open-not_resolved i.status o in
      record {
        keyed =
            All-update_one (λ (i : Incident). i.id == id) (acknowledge_incident now actor.user_id)
              IsKeyed s.incidents i h one (λ k m. ground (arith, k m, still)) c.keyed;
        single = λ m.
            subst (λ n. n ≤ 1)
              (sym (
                count-update_one (λ (i : Incident). i.id == id)
                  (acknowledge_incident now actor.user_id) (is_unresolved_of m) s.incidents i h one
                  (simp still)))
              (c.single m);
      }

  acknowledge_existing-IsConsistent :
      (i : Option Incident)
      → find_scoped s org id ≡ i
      → count (λ (i : Incident). i.id == id) s.incidents ≤ 1
      → IsConsistent s.incidents
      → IsConsistent (acknowledge_existing s org id actor now i).incidents
  unfolding acknowledge_existing find_scoped add_event write_audit
  acknowledge_existing-IsConsistent none h one c = c
  acknowledge_existing-IsConsistent (some i) h one c = elim (Bool-cases (is_open i.status)) [
    | inl e ↦ simp e (
        acknowledged_one i
          (find-first (λ (i : Incident). i.id == id) (λ (i : Incident). i.organization_id == org)
            s.incidents i h one)
          one e c)
    | inr e ↦ simp e c
  ]

  resolve_existing-IsConsistent :
      (i : Option Incident)
      → IsConsistent s.incidents
      → IsConsistent (resolve_existing s org id actor now i).incidents
  unfolding resolve_existing add_event write_audit update_incident
  resolve_existing-IsConsistent none c = c
  resolve_existing-IsConsistent (some i) c = elim (Bool-cases (is_resolved i.status)) [
    | inl e ↦ simp e c
    | inr e ↦ simp e (
        closes-IsConsistent (close_incident now (duration_sec now i.started_at))
          (close_incident-Closes now (duration_sec now i.started_at)) id s.incidents c)
  ]

  comment_existing-same :
      (message : Text) (i : Option Incident)
      → (comment_existing s org id message actor now i).1.incidents ≡ s.incidents
  unfolding comment_existing add_event write_audit
  comment_existing-same message none = refl
  comment_existing-same message (some i) = refl

  -- On a consistent incident table in which at most one incident has the identifier,
  -- acknowledging, resolving and commenting each leave a consistent incident table.
  pub handling-IsConsistent :
      (message : Text)
      → count (λ (i : Incident). i.id == id) s.incidents ≤ 1
      → IsConsistent s.incidents
      → IsConsistent (acknowledge s org id actor now).1.incidents
        × IsConsistent (resolve s org id actor now).1.incidents
        × IsConsistent (comment s org id message actor now).1.incidents
  unfolding acknowledge resolve comment
  handling-IsConsistent message one c = (
    acknowledge_existing-IsConsistent (find_scoped s org id) refl one c,
    resolve_existing-IsConsistent (find_scoped s org id) c,
    subst IsConsistent (sym (comment_existing-same message (find_scoped s org id))) c,
  )
