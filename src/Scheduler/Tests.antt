-- ===== src/Scheduler/Tests.antt =====
-- A queue that keeps its schedulers in a list, and one monitor.
use uptimeflow.Common.{
  ◌≡◌, refl, ap, sym, ◌∙◌, Bool, false, not, none, some, List, [], ◌∷◌, ◌++◌, select, Bool-cases,
  inl, inr, if◌then◌else◌, arith,
}
use uptimeflow.Common.Text.{Text, codes, text_eq, text_eq→eq}
use uptimeflow.Enums.{ProbeRegion, MonitorType}
use uptimeflow.Scheduler.Maps.{ScheduledMonitor}
use uptimeflow.Scheduler.Desired.{add_monitors}
use uptimeflow.Scheduler.Sync.{
  Entry, existing_every, SchedulableQueue, sync, sync_queues, sync_queue, upsert_all, remove_all,
  desired_by,
}
use uptimeflow.Scheduler.Stable.{AreReconciled, sync-reconciled, sync_twice}

abbrev with_key : Text → Entry → Bool
with_key k e = not (text_eq e.key k)

added_last :
    (k : Text) (x : Entry) (es : List Entry)
    → existing_every k (es ++ (x ∷ []))
      ≡ (if text_eq x.key k then some x.every else existing_every k es)
unfolding existing_every
added_last k x [] = refl
added_last k x (e ∷ es) = ground (arith, added_last k x es)

taken_out :
    (k j : Text) (es : List Entry)
    → existing_every k (select (with_key j) es)
      ≡ (if text_eq j k then none else existing_every k es)
unfolding existing_every
taken_out k j [] = ground arith
taken_out k j (e ∷ es) = elim (Bool-cases (text_eq e.key j)) [
  | inl f ↦
      let same : text_eq e.key k ≡ text_eq j k = ap (λ t. text_eq t k) (text_eq→eq e.key j f) in
      ground (arith, f, same, taken_out k j es)
  | inr f ↦ elim (Bool-cases (text_eq j k)) [
    | inl g ↦
        let other : text_eq e.key k ≡ false = ap (text_eq e.key) (sym (text_eq→eq j k g)) ∙ f in
        ground (arith, f, g, other, taken_out k j es)
    | inr g ↦ ground (arith, f, g, taken_out k j es)
  ]
]

abbrev list_queue : SchedulableQueue
list_queue = record {
  State = List Entry;
  get_job_schedulers = λ q. q;
  upsert_job_scheduler = λ k every d q. q ++ (record { key = k; every = some every } ∷ []);
  remove_job_scheduler = λ k q. select (with_key k) q;
  upsert_lem = λ k j every d q. added_last k (record { key = j; every = some every }) q;
  remove_lem = λ k j q. taken_out k j q;
}

abbrev homepage : ScheduledMonitor
homepage = record {
  id = codes "m1";
  organization_id = codes "acme";
  monitor_type = MonitorType.http;
  interval_seconds = 0;
  regions = ProbeRegion.eu_west ∷ [];
}

-- The queue holds a scheduler of a deleted monitor and one that is not a monitor's.
abbrev before : List (ProbeRegion × List Entry)
before =
    (
      ProbeRegion.eu_west,
      record { key = codes "monitor:m0:EU_WEST"; every = some 60_000 }
          ∷ (record { key = codes "rollup"; every = some 5_000 } ∷ []),
    )
    ∷ []

-- An interval of 0 seconds is run every second.
one_run :
    (sync list_queue ProbeRegion.na_east (homepage ∷ []) before).0
    ≡ (
      ProbeRegion.eu_west,
      record { key = codes "rollup"; every = some 5_000 }
          ∷ (record { key = codes "monitor:m1:EU_WEST"; every = some 1_000 } ∷ []),
    )
      ∷ []
unfolding sync add_monitors sync_queues sync_queue upsert_all remove_all existing_every text_eq
one_run = refl

sync-reconciled_example :
    AreReconciled list_queue
      (desired_by list_queue ProbeRegion.na_east (homepage ∷ []) before)
      before
      (sync list_queue ProbeRegion.na_east (homepage ∷ []) before).0
sync-reconciled_example = sync-reconciled list_queue ProbeRegion.na_east (homepage ∷ []) before

sync_twice_example :
    sync list_queue ProbeRegion.na_east
      (homepage ∷ [])
      (sync list_queue ProbeRegion.na_east (homepage ∷ []) before).0
    ≡ (
      (sync list_queue ProbeRegion.na_east (homepage ∷ []) before).0,
      record { monitors = 1; upserts = 0; removals = 0 },
    )
sync_twice_example = sync_twice list_queue ProbeRegion.na_east (homepage ∷ []) before
