-- ===== src/Escalation/Choices.antt =====
-- The responders that a step of engine.ts chooses.
use uptimeflow.Common.{
  ◌≡◌, ◌≢◌, false, Option, none, some, List, [], ◌∷◌, ◌++◌, map, ◌==◌, any, All, Bool-cases, inl,
  inr, arith,
}
use uptimeflow.Common.Int.{ℤ}
use uptimeflow.Common.Text.{Text}
use uptimeflow.Enums.{RecordId, Instant}
use uptimeflow.OnCall.{OnCallResult}
use uptimeflow.Escalation.Policy.{Target, TargetType}
use uptimeflow.Escalation.Paging.{
  ResponderRef, Chosen, Wiring, add_responder, add_primary, add_on_call, choose_as, choose,
  choose_all,
}

-- No user is listed twice.
abbrev pub NoRepeats : List RecordId → Type 0
NoRepeats [] = Unit
NoRepeats (u ∷ us) = All (λ v. v ≢ u) us × NoRepeats us

abbrev pub user_ids : List ResponderRef → List RecordId
user_ids = map (λ (r : ResponderRef). r.user_id)

unlisted :
    (u : RecordId) (rs : List ResponderRef)
    → any (λ (r : ResponderRef). r.user_id == u) rs ≡ false
    → All (λ v. u ≢ v) (user_ids rs)
unlisted u [] h = tt
unlisted u (r ∷ rs) h = (ground arith, unlisted u rs (ground arith))

All-snoc :
    (u v : RecordId) (rs : List ResponderRef) (ref : ResponderRef)
    → All (λ w. w ≢ v) (user_ids rs)
    → ref.user_id ≢ v
    → All (λ w. w ≢ v) (user_ids (rs ++ ref ∷ []))
All-snoc u v [] ref h n = (n, tt)
All-snoc u v (r ∷ rs) ref (k, h) n = (k, All-snoc u v rs ref h n)

snoc-NoRepeats :
    (rs : List ResponderRef) (ref : ResponderRef)
    → All (λ v. ref.user_id ≢ v) (user_ids rs)
    → NoRepeats (user_ids rs)
    → NoRepeats (user_ids (rs ++ ref ∷ []))
snoc-NoRepeats [] ref h d = (tt, tt)
snoc-NoRepeats (r ∷ rs) ref (n, h) (k, d) =
    (All-snoc ref.user_id r.user_id rs ref k n, snoc-NoRepeats rs ref h d)

abbrev pub Distinct : Chosen → Type 0
Distinct c = NoRepeats (user_ids c.responders)

add_responder-Distinct :
    (ref : ResponderRef) (c : Chosen) → Distinct c → Distinct (add_responder ref c)
unfolding add_responder
add_responder-Distinct ref c d =
    elim (Bool-cases (any (λ (r : ResponderRef). r.user_id == ref.user_id) c.responders)) [
      | inl e ↦ rw e d
      | inr e ↦ rw e (snoc-NoRepeats c.responders ref (unlisted ref.user_id c.responders e) d)
    ]

add_primary-Distinct :
    (o : Option RecordId) (r : OnCallResult) (c : Chosen)
    → Distinct c
    → Distinct (add_primary o r c)
unfolding add_primary
add_primary-Distinct none r c d = d
add_primary-Distinct (some u) r c d = add_responder-Distinct _ c d

add_on_call-Distinct :
    (o : Option OnCallResult) (c : Chosen) → Distinct c → Distinct (add_on_call o c)
unfolding add_on_call
add_on_call-Distinct none c d = d
add_on_call-Distinct (some r) c d = add_primary-Distinct r.primary r c d

module _ (tz_offset_ms : Instant → Text → ℤ) (w : Wiring tz_offset_ms) (now : Instant) where
  choose_as-Distinct :
      (t : TargetType) (o : Option RecordId) (c : Chosen)
      → Distinct c
      → Distinct (choose_as tz_offset_ms w.schedules now t o c)
  unfolding choose_as
  choose_as-Distinct t none c d = d
  choose_as-Distinct TargetType.channel (some id) c d = d
  choose_as-Distinct TargetType.user (some id) c d = add_responder-Distinct _ c d
  choose_as-Distinct TargetType.schedule (some id) c d = add_on_call-Distinct _ c d

  pub choose_all-Distinct :
      (ts : List Target) (c : Chosen)
      → Distinct c
      → Distinct (choose_all tz_offset_ms w.schedules now ts c)
  unfolding choose_all choose
  choose_all-Distinct [] c d = d
  choose_all-Distinct (t ∷ ts) c d =
      choose_all-Distinct ts (choose tz_offset_ms w.schedules now t c)
        (choose_as-Distinct t.type _ c d)
