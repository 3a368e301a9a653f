-- ===== src/Scheduler/Sync.antt =====
-- The second half of sync in packages/monitoring/src/scheduler.ts: each queue is brought in line
-- with what is desired in its region.
use uptimeflow.Common.{
  ℕ, suc, ◌+◌, ◌≡◌, Bool, false, not, ◌&&◌, Option, none, some, List, [], ◌∷◌, ◌==◌, is_some,
  length, map, if◌then◌else◌,
}
use uptimeflow.Common.Text.{Text, text_eq, starts_with}
use uptimeflow.Enums.{ProbeRegion}
use uptimeflow.Scheduler.Maps.{ScheduledMonitor, JobData, Want, get_key, scheduler_prefix}
use uptimeflow.Scheduler.Desired.{Desired, nothing_desired, add_monitors}

-- What getJobSchedulers lists; `every` is read as a number.
pub record Entry : Type 0 where
  pub key : Text
  pub every : Option ℕ

-- `new Map(existing.map(…)).get(id)`: a later entry of a key wins.
unfoldable pub existing_every : Text → List Entry → Option (Option ℕ)
unfolding text_eq
existing_every k [] = none
existing_every k (e ∷ es) =
    let later = existing_every k es in
    if is_some later then later else if text_eq e.key k then some e.every else none

-- A queue of job schedulers, with what its documentation promises: an upsert sets the interval of its
-- key, a removal takes its key away, and other keys stay.
pub record SchedulableQueue : Type 1 where
  pub State : Type 0
  pub get_job_schedulers : State → List Entry
  pub upsert_job_scheduler : Text → ℕ → JobData → State → State
  pub remove_job_scheduler : Text → State → State
  pub upsert_lem :
      (k j : Text) (every : ℕ) (d : JobData) (q : State)
      → existing_every k (get_job_schedulers (upsert_job_scheduler j every d q))
        ≡ (if text_eq j k then some (some every) else existing_every k (get_job_schedulers q))
  pub remove_lem :
      (k j : Text) (q : State)
      → existing_every k (get_job_schedulers (remove_job_scheduler j q))
        ≡ (if text_eq j k then none else existing_every k (get_job_schedulers q))

-- `existingEvery.get(id) === spec.every`
abbrev pub is_every : ℕ → Option (Option ℕ) → Bool
is_every n none = false
is_every n (some none) = false
is_every n (some (some m)) = m == n

pub record SyncSummary : Type 0 where
  pub monitors : ℕ
  pub upserts : ℕ
  pub removals : ℕ

module _ (queue : SchedulableQueue) where
  open queue use {State, get_job_schedulers, upsert_job_scheduler, remove_job_scheduler}

  -- The state of the queue, and the calls made so far.
  unfoldable pub upsert_all : List Entry → Want → State → ℕ → State × ℕ
  unfolding existing_every
  upsert_all existing [] q n = (q, n)
  upsert_all existing ((id, spec) ∷ want) q n =
      let skipped = upsert_all existing want q n in
      let upserted =
        upsert_all existing want (upsert_job_scheduler id spec.every spec.data_of q) (suc n) in
      if is_every spec.every (existing_every id existing) then skipped else upserted

  -- A scheduler that is the monitors', and that no monitor wants.
  abbrev pub is_stale : Want → Text → Bool
  is_stale want k = starts_with k scheduler_prefix && not (is_some (get_key k want))

  unfoldable pub remove_all : Want → List Entry → State → ℕ → State × ℕ
  unfolding starts_with get_key
  remove_all want [] q n = (q, n)
  remove_all want (e ∷ existing) q n =
      let kept = remove_all want existing q n in
      let removed = remove_all want existing (remove_job_scheduler e.key q) (suc n) in
      if is_stale want e.key then removed else kept

  -- One queue: the state that it is left in, its upserts and its removals.
  unfoldable pub sync_queue : Want → State → State × ℕ × ℕ
  unfolding upsert_all remove_all
  sync_queue want q =
      let existing = get_job_schedulers q in
      let (upserted, upserts) = upsert_all existing want q 0 in
      let (left, removals) = remove_all want existing upserted 0 in (left, upserts, removals)

  unfoldable pub sync_queues :
      Desired → List (ProbeRegion × State) → List (ProbeRegion × State) × ℕ × ℕ
  unfolding sync_queue
  sync_queues desired [] = ([], 0, 0)
  sync_queues desired ((region, q) ∷ queues) =
      let (left, upserts, removals) = sync_queue (desired region) q in
      let (rest, more, fewer) = sync_queues desired queues in
      ((region, left) ∷ rest, upserts + more, removals + fewer)

  abbrev pub region_of : ProbeRegion × State → ProbeRegion
  region_of (region, q) = region

  abbrev pub desired_by : ProbeRegion → List ScheduledMonitor → List (ProbeRegion × State) → Desired
  desired_by default_region monitors queues =
      add_monitors (map region_of queues) default_region monitors nothing_desired

  -- `monitors` are the active ones that are not deleted, as the query selects them.
  unfoldable pub sync :
      ProbeRegion
      → List ScheduledMonitor
      → List (ProbeRegion × State)
      → List (ProbeRegion × State) × SyncSummary
  unfolding sync_queues add_monitors
  sync default_region monitors queues =
      let (left, upserts, removals) =
        sync_queues (desired_by default_region monitors queues) queues in
      (left, record { monitors = length monitors; upserts = upserts; removals = removals })
