-- ===== src/Scheduler/Stable.antt =====
-- A second run of packages/monitoring/src/scheduler.ts on the same monitors has nothing to do.
use uptimeflow.Common.{
  ℕ, length, ◌+◌, ◌≡◌, refl, ap, sym, subst, ◌∙◌, Bool, true, false, not, ◌&&◌, Option, none, some,
  List, [], ◌∷◌, is_some, map, Bool-cases, inl, inr, arith, if◌then◌else◌, ==_refl, All,
}
use uptimeflow.Common.Text.{Text, text_eq, text_eq→eq, text_eq_refl, starts_with}
use uptimeflow.Enums.{ProbeRegion}
use uptimeflow.Scheduler.Maps.{ScheduledMonitor, Spec, Want, IsMap, get_key, scheduler_prefix}
use uptimeflow.Scheduler.Desired.{Desired, nothing_desired, add_monitors, add_monitors-IsMap}
use uptimeflow.Scheduler.Sync.{
  Entry, existing_every, SchedulableQueue, is_every, SyncSummary, upsert_all, is_stale, remove_all,
  sync_queue, sync_queues, region_of, desired_by, sync,
}
use uptimeflow.Scheduler.Converge.{every_of, reconciled, after_upsert, sync_queue-reconciled}

reconciled_wanted :
    (want : Want) (k : Text) (spec : Spec) (v : Option (Option ℕ))
    → get_key k want ≡ some spec
    → reconciled want k v ≡ some (some spec.every)
reconciled_wanted want k spec v e = rw e refl

reconcile_twice :
    (o : Option Spec) (prefixed : Bool) (v w : Option (Option ℕ))
    → w ≡ (if is_some o then after_upsert o v else if prefixed then none else v)
    → (if is_some o then after_upsert o w else if prefixed then none else w) ≡ w
reconcile_twice (some spec) prefixed v w e = sym e
reconcile_twice none true v w e = sym e
reconcile_twice none false v w e = refl

reconciled_twice :
    (want : Want) (k : Text) (v : Option (Option ℕ))
    → reconciled want k (reconciled want k v) ≡ reconciled want k v
reconciled_twice want k v =
    reconcile_twice (get_key k want) (starts_with k scheduler_prefix) v (reconciled want k v) refl

never_stale :
    (o : Option Spec) (prefixed : Bool) (v : Option (Option ℕ))
    → v ≡ (if is_some o then after_upsert o v else if prefixed then none else v)
    → is_some v ≡ true
    → (prefixed && not (is_some o)) ≡ false
never_stale (some spec) true v e l = refl
never_stale o false v e l = refl
never_stale none true v e l = absurd (ground (arith, e, l))

module _ (queue : SchedulableQueue) where
  open queue use {State, get_job_schedulers}

  -- Every wanted key is listed with its interval.
  abbrev IsListed : List Entry → Want → Type 0
  IsListed existing want =
      All (λ (w : Text × Spec). existing_every w.0 existing ≡ some (some w.1.every)) want

  upsert_all-IsListed :
      (existing : List Entry) (want : Want) (q : State) (n : ℕ)
      → IsListed existing want
      → upsert_all queue existing want q n ≡ (q, n)
  unfolding upsert_all
  upsert_all-IsListed existing [] q n h = refl
  upsert_all-IsListed existing ((id, spec) ∷ want) q n (e, h) =
      let same : is_every spec.every (existing_every id existing) ≡ true =
        ap (is_every spec.every) e ∙ ==_refl spec.every in
      rw same (upsert_all-IsListed existing want q n h)

  remove_all_none :
      (want : Want) (existing : List Entry) (q : State) (n : ℕ)
      → All (λ (x : Entry). is_stale queue want x.key ≡ false) existing
      → remove_all queue want existing q n ≡ (q, n)
  unfolding remove_all
  remove_all_none want [] q n h = refl
  remove_all_none want (x ∷ existing) q n (e, h) = rw e (remove_all_none want existing q n h)

  -- The keys of a map give back their specs.
  map-IsListed :
      (existing : List Entry) (want : Want)
      → IsMap want
      → ((k : Text) (spec : Spec)
          → get_key k want ≡ some spec
          → existing_every k existing ≡ some (some spec.every))
      → IsListed existing want
  unfolding get_key
  map-IsListed existing [] m h = tt
  map-IsListed existing ((id, spec) ∷ want) (fresh, m) h = (
    h id spec (rw text_eq_refl refl),
    map-IsListed existing want m (λ k other e. h k other (elim (Bool-cases (text_eq id k)) [
      | inl f ↦
          let gone : get_key k want ≡ none =
            subst (λ t. get_key t want ≡ none) (text_eq→eq id k f) fresh in
          absurd (ground (arith, gone, e))
      | inr f ↦ rw f e
    ])),
  )

  is_listed :
      (x : Entry) (existing : List Entry) → is_some (existing_every x.key (x ∷ existing)) ≡ true
  unfolding existing_every
  is_listed x existing = ground (arith, text_eq_refl x.key)

  stays_listed :
      (k : Text) (x : Entry) (existing : List Entry)
      → is_some (existing_every k existing) ≡ true
      → is_some (existing_every k (x ∷ existing)) ≡ true
  unfolding existing_every
  stays_listed k x existing h = ground (arith, h)

  none_stale :
      (want : Want) (existing : List Entry)
      → ((k : Text) → is_some (existing_every k existing) ≡ true → is_stale queue want k ≡ false)
      → All (λ (x : Entry). is_stale queue want x.key ≡ false) existing
  none_stale want [] h = tt
  none_stale want (x ∷ existing) h = (
    h x.key (is_listed x existing),
    none_stale want existing (λ k l. h k (stays_listed k x existing l)),
  )

  not_stale :
      (want : Want) (k : Text) (v : Option (Option ℕ))
      → v ≡ reconciled want k v
      → is_some v ≡ true
      → is_stale queue want k ≡ false
  not_stale want k = never_stale (get_key k want) (starts_with k scheduler_prefix)

  -- A queue in line with the wanted map is left alone.
  pub sync_queue_idle :
      (want : Want) (q : State)
      → IsMap want
      → ((k : Text) → every_of queue q k ≡ reconciled want k (every_of queue q k))
      → sync_queue queue want q ≡ (q, 0, 0)
  unfolding sync_queue
  sync_queue_idle want q m h =
      let existing = get_job_schedulers q in
      let listed : IsListed existing want =
        map-IsListed existing want m
          (λ k spec e. h k ∙ reconciled_wanted want k spec (every_of queue q k) e) in
      let fresh : All (λ (x : Entry). is_stale queue want x.key ≡ false) existing =
        none_stale want existing (λ k l. not_stale want k (every_of queue q k) (h k) l) in
      rw (upsert_all-IsListed existing want q 0 listed)
        (rw (remove_all_none want existing q 0 fresh) refl)

  -- Each queue, after a run, holds what its region's map says, given what it held before.
  abbrev pub AreReconciled :
      Desired → List (ProbeRegion × State) → List (ProbeRegion × State) → Type 0
  AreReconciled desired [] [] = Unit
  AreReconciled desired ((r, q) ∷ before) ((s, p) ∷ after) =
      (s ≡ r)
      × ((k : Text) → every_of queue p k ≡ reconciled (desired r) k (every_of queue q k))
      × AreReconciled desired before after
  AreReconciled desired _ _ = ⊥

  sync_queues-reconciled :
      (desired : Desired) (queues : List (ProbeRegion × State))
      → ((r : ProbeRegion) → IsMap (desired r))
      → AreReconciled desired queues (sync_queues queue desired queues).0
  unfolding sync_queues
  sync_queues-reconciled desired [] m = tt
  sync_queues-reconciled desired ((r, q) ∷ queues) m = (
    refl,
    sync_queue-reconciled queue (desired r) q (m r),
    sync_queues-reconciled desired queues m,
  )

  -- A queue that holds what its region's map says.
  abbrev InLine : Desired → ProbeRegion × State → Type 0
  InLine desired (r, q) =
      (k : Text) → every_of queue q k ≡ reconciled (desired r) k (every_of queue q k)

  sync_queues-InLine :
      (desired : Desired) (queues : List (ProbeRegion × State))
      → ((r : ProbeRegion) → IsMap (desired r))
      → All (InLine desired) (sync_queues queue desired queues).0
  unfolding sync_queues
  sync_queues-InLine desired [] m = tt
  sync_queues-InLine desired ((r, q) ∷ queues) m = (
    λ k.
        let e = sync_queue-reconciled queue (desired r) q (m r) k in
        e
        ∙ sym
            (ap (reconciled (desired r) k) e ∙ reconciled_twice (desired r) k (every_of queue q k)),
    sync_queues-InLine desired queues m,
  )

  abbrev joined :
      ProbeRegion
      → State × ℕ × ℕ
      → List (ProbeRegion × State) × ℕ × ℕ
      → List (ProbeRegion × State) × ℕ × ℕ
  joined r (q, upserts, removals) (rest, more, fewer) =
      ((r, q) ∷ rest, upserts + more, removals + fewer)

  sync_queues_idle :
      (desired : Desired) (queues : List (ProbeRegion × State))
      → ((r : ProbeRegion) → IsMap (desired r))
      → All (InLine desired) queues
      → sync_queues queue desired queues ≡ (queues, 0, 0)
  unfolding sync_queues
  sync_queues_idle desired [] m h = refl
  sync_queues_idle desired ((r, q) ∷ queues) m (h, hs) =
      ap (λ x. joined r x (sync_queues queue desired queues))
        (sync_queue_idle (desired r) q (m r) h)
      ∙ ap (joined r (q, 0, 0)) (sync_queues_idle desired queues m hs)

  sync_queues-regions :
      (desired : Desired) (queues : List (ProbeRegion × State))
      → map (region_of queue) (sync_queues queue desired queues).0 ≡ map (region_of queue) queues
  unfolding sync_queues
  sync_queues-regions desired [] = refl
  sync_queues-regions desired ((r, q) ∷ queues) =
      ap (λ rs. r ∷ rs) (sync_queues-regions desired queues)

  module _ (default_region : ProbeRegion) (monitors : List ScheduledMonitor)
      (queues : List (ProbeRegion × State)) where
    desired_by-IsMap : (r : ProbeRegion) → IsMap (desired_by queue default_region monitors queues r)
    desired_by-IsMap r =
        add_monitors-IsMap (map (region_of queue) queues) default_region r monitors nothing_desired
          tt

    -- One run brings every queue in line: under each key that the monitors want, their interval; no
    -- scheduler of a monitor that is not wanted; other schedulers untouched.
    pub sync-reconciled :
        AreReconciled
          (desired_by queue default_region monitors queues)
          queues
          (sync queue default_region monitors queues).0
    unfolding sync
    sync-reconciled = sync_queues-reconciled _ queues desired_by-IsMap

    -- A second run on the same monitors changes no queue, and makes no upsert and no removal.
    pub sync_twice :
        sync queue default_region monitors (sync queue default_region monitors queues).0 ≡ (
          (sync queue default_region monitors queues).0,
          record { monitors = length monitors; upserts = 0; removals = 0 },
        )
    unfolding sync
    sync_twice = ap summed (
        ap (λ rs. sync_queues queue (add_monitors rs default_region monitors nothing_desired) after)
          (sync_queues-regions desired queues)
        ∙ sync_queues_idle desired after desired_by-IsMap
            (sync_queues-InLine desired queues desired_by-IsMap))
      where
        desired : Desired
        desired = desired_by queue default_region monitors queues

        after : List (ProbeRegion × State)
        after = (sync_queues queue desired queues).0

        summed : List (ProbeRegion × State) × ℕ × ℕ → List (ProbeRegion × State) × SyncSummary
        summed (left, upserts, removals) =
            (left, record { monitors = length monitors; upserts = upserts; removals = removals })
