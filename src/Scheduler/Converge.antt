-- ===== src/Scheduler/Converge.antt =====
-- What a run of packages/monitoring/src/scheduler.ts leaves in the queues.
use uptimeflow.Common.{
  ℕ, suc, ◌≡◌, refl, ap, sym, subst, ◌∙◌, Bool, true, false, not, ◌&&◌, ◌||◌, Option, none, some,
  List, [], ◌∷◌, is_some, Bool-cases, inl, inr, arith, if◌then◌else◌,
}
use uptimeflow.Common.Text.{Text, text_eq, text_eq→eq, text_eq_refl, starts_with}
use uptimeflow.Scheduler.Maps.{Spec, Want, IsMap, get_key, scheduler_prefix}
use uptimeflow.Scheduler.Sync.{
  Entry, existing_every, SchedulableQueue, is_every, upsert_all, is_stale, remove_all, sync_queue,
}

is_every-eq : (n : ℕ) (o : Option (Option ℕ)) → is_every n o ≡ true → o ≡ some (some n)
is_every-eq n none h = ground arith
is_every-eq n (some none) h = ground arith
is_every-eq n (some (some m)) h = ground arith

abbrev pub after_upsert : Option Spec → Option (Option ℕ) → Option (Option ℕ)
after_upsert none v = v
after_upsert (some spec) v = some (some spec.every)

-- What a queue should hold under a key: the interval that is wanted, no scheduler of a monitor that is
-- not wanted, and anything else as before.
abbrev pub reconciled : Want → Text → Option (Option ℕ) → Option (Option ℕ)
reconciled want k v =
    if is_some (get_key k want)
    then after_upsert (get_key k want) v
    else if starts_with k scheduler_prefix
    then none
    else v

still_wanted :
    (id j : Text) (spec : Spec) (want : Want)
    → is_some (get_key j want) ≡ true
    → is_some (get_key j ((id, spec) ∷ want)) ≡ true
unfolding get_key
still_wanted id j spec want w = ground (arith, w)

is_some_either :
    (later : Option (Option ℕ)) (m : Bool) (v : Option ℕ)
    → is_some (if is_some later then later else if m then some v else none) ≡ (m || is_some later)
is_some_either (some l) true v = refl
is_some_either (some l) false v = refl
is_some_either none true v = refl
is_some_either none false v = refl

-- One entry of the listing, with key `m`atching, is stale and removed, or kept.
removed_step :
    (s m l : Bool) (v w : Option (Option ℕ))
    → w ≡ (if m then none else v)
    → (m ≡ true → s ≡ true)
    → (if s && l then none else w) ≡ (if s && (m || l) then none else v)
removed_step false true l v w e h = absurd (ground (arith, h refl))
removed_step false false l v w e h = e
removed_step true true false v w e h = e
removed_step true true true v w e h = refl
removed_step true false false v w e h = e
removed_step true false true v w e h = refl

kept_step :
    (s m l : Bool) (v : Option (Option ℕ))
    → (m ≡ true → s ≡ false)
    → (if s && l then none else v) ≡ (if s && (m || l) then none else v)
kept_step false m l v h = refl
kept_step true true l v h = absurd (ground (arith, h refl))
kept_step true false l v h = refl

settle :
    (prefixed : Bool) (o : Option Spec) (v : Option (Option ℕ))
    → (if prefixed && not (is_some o) && is_some v then none else after_upsert o v)
      ≡ (if is_some o then after_upsert o v else if prefixed then none else v)
settle true none none = refl
settle true none (some e) = refl
settle false none v = refl
settle true (some spec) v = refl
settle false (some spec) v = refl

module _ (queue : SchedulableQueue) where
  open queue use {
    State, get_job_schedulers, upsert_job_scheduler, remove_job_scheduler, upsert_lem, remove_lem,
  }

  -- The interval that a queue holds under a key.
  abbrev pub every_of : State → Text → Option (Option ℕ)
  every_of q k = existing_every k (get_job_schedulers q)

  module _ (existing : List Entry) (id : Text) (spec : Spec) (want : Want)
      (fresh : get_key id want ≡ none) (q r : State)
      (moved : (k : Text)
        → every_of r k ≡ (if text_eq id k then some (some spec.every) else every_of q k)) where
    not_again : (k : Text) → is_some (get_key k want) ≡ true → text_eq id k ≡ false
    not_again k h = elim (Bool-cases (text_eq id k)) [
      | inl e ↦
          let none_there : get_key k want ≡ none =
            subst (λ t. get_key t want ≡ none) (text_eq→eq id k e) fresh in
          absurd (ground (arith, none_there, h))
      | inr e ↦ e
    ]

    others_stay : (k : Text) → is_some (get_key k want) ≡ true → every_of r k ≡ every_of q k
    others_stay k h =
        moved k ∙ ap (λ b. if b then some (some spec.every) else every_of q k) (not_again k h)

    one_more :
        (k : Text) (v : Option (Option ℕ))
        → v ≡ after_upsert (get_key k want) (every_of r k)
        → v ≡ after_upsert (get_key k ((id, spec) ∷ want)) (every_of q k)
    unfolding get_key
    one_more k v h = elim (Bool-cases (text_eq id k)) [
      | inl e ↦
          let none_there : get_key k want ≡ none =
            subst (λ t. get_key t want ≡ none) (text_eq→eq id k e) fresh in
          rw e (
            h
            ∙ ap (λ o. after_upsert o (every_of r k)) none_there
            ∙ moved k
            ∙ ap (λ b. if b then some (some spec.every) else every_of q k) e)
      | inr e ↦ rw e (
          h
          ∙ ap (after_upsert (get_key k want))
              (moved k ∙ ap (λ b. if b then some (some spec.every) else every_of q k) e))
    ]

  every_of_eq : (q : State) (id k : Text) → text_eq id k ≡ true → every_of q id ≡ every_of q k
  every_of_eq q id k e = ap (every_of q) (text_eq→eq id k e)

  upsert_all_lem :
      (existing : List Entry) (want : Want) (q : State) (n : ℕ)
      → IsMap want
      → ((k : Text) → is_some (get_key k want) ≡ true → every_of q k ≡ existing_every k existing)
      → (k : Text)
      → every_of (upsert_all queue existing want q n).0 k
        ≡ after_upsert (get_key k want) (every_of q k)
  unfolding upsert_all get_key
  upsert_all_lem existing [] q n m h k = refl
  upsert_all_lem existing ((id, spec) ∷ want) q n (fresh, m) h k =
      elim (Bool-cases (is_every spec.every (existing_every id existing))) [
        | inl e ↦
            let there : every_of q id ≡ some (some spec.every) =
              h id (rw text_eq_refl refl) ∙ is_every-eq _ _ e in
            let moved : (j : Text)
                → every_of q j ≡ (if text_eq id j then some (some spec.every) else every_of q j) =
              λ j. elim (Bool-cases (text_eq id j)) [
                | inl f ↦
                    sym (every_of_eq q id j f)
                    ∙ there
                    ∙ ap (λ b. if b then some (some spec.every) else every_of q j) (sym f)
                | inr f ↦ ap (λ b. if b then some (some spec.every) else every_of q j) (sym f)
              ] in
            rw e (
              one_more existing id spec want fresh q q moved k _
                (upsert_all_lem existing want q n m (λ j w. h j (still_wanted id j spec want w)) k))
        | inr e ↦
            let r = upsert_job_scheduler id spec.every spec.data_of q in
            let moved : (j : Text)
                → every_of r j ≡ (if text_eq id j then some (some spec.every) else every_of q j) =
              λ j. upsert_lem j id spec.every spec.data_of q in
            rw e (
              one_more existing id spec want fresh q r moved k _ (
                upsert_all_lem existing want r (suc n) m
                  (λ j w.
                    others_stay existing id spec want fresh q r moved j w
                    ∙ h j (still_wanted id j spec want w))
                  k))
      ]

  stale_as :
      (want : Want) (j k : Text)
      → text_eq j k ≡ true
      → is_stale queue want k ≡ is_stale queue want j
  stale_as want j k m = ap (is_stale queue want) (sym (text_eq→eq j k m))

  listed :
      (want : Want) (x : Entry) (existing : List Entry) (q : State) (k : Text)
      → (if is_stale queue want k && (text_eq x.key k || is_some (existing_every k existing))
          then none
          else every_of q k)
        ≡ (if is_stale queue want k && is_some (existing_every k (x ∷ existing))
            then none
            else every_of q k)
  unfolding existing_every
  listed want x existing q k =
      ap (λ b. if is_stale queue want k && b then none else every_of q k)
        (sym (is_some_either (existing_every k existing) (text_eq x.key k) x.every))

  -- A removal of the stale entries takes away their keys.
  remove_all_lem :
      (want : Want) (existing : List Entry) (q : State) (n : ℕ) (k : Text)
      → every_of (remove_all queue want existing q n).0 k ≡ (
          if is_stale queue want k && is_some (existing_every k existing)
          then none
          else every_of q k)
  unfolding remove_all existing_every
  remove_all_lem want [] q n k = elim (Bool-cases (is_stale queue want k)) [
    | inl e ↦ rw e refl
    | inr e ↦ rw e refl
  ]
  remove_all_lem want (x ∷ existing) q n k = elim (Bool-cases (is_stale queue want x.key)) [
    | inl e ↦
        let r = remove_job_scheduler x.key q in
        rw e (
          remove_all_lem want existing r (suc n) k
          ∙ removed_step (is_stale queue want k) (text_eq x.key k)
              (is_some (existing_every k existing)) (every_of q k) (every_of r k)
              (remove_lem k x.key q) (λ m. stale_as want x.key k m ∙ e)
          ∙ listed want x existing q k)
    | inr e ↦ rw e (
        remove_all_lem want existing q n k
        ∙ kept_step (is_stale queue want k) (text_eq x.key k) (is_some (existing_every k existing))
            (every_of q k) (λ m. stale_as want x.key k m ∙ e)
        ∙ listed want x existing q k)
  ]

  settled :
      (want : Want) (k : Text) (v : Option (Option ℕ))
      → (if is_stale queue want k && is_some v then none else after_upsert (get_key k want) v)
        ≡ reconciled want k v
  settled want k v = settle (starts_with k scheduler_prefix) (get_key k want) v

  -- After a run, a queue holds under each key what it should.
  pub sync_queue-reconciled :
      (want : Want) (q : State)
      → IsMap want
      → (k : Text) → every_of (sync_queue queue want q).0 k ≡ reconciled want k (every_of q k)
  unfolding sync_queue
  sync_queue-reconciled want q m k =
      let existing = get_job_schedulers q in
      let upserted = (upsert_all queue existing want q 0).0 in
      remove_all_lem want existing upserted 0 k
      ∙ ap (λ v. if is_stale queue want k && is_some (existing_every k existing) then none else v)
          (upsert_all_lem existing want q 0 m (λ j w. refl) k)
      ∙ settled want k (every_of q k)
