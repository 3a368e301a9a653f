-- ===== src/Scheduler/Desired.antt =====
-- The first half of sync in packages/monitoring/src/scheduler.ts: the schedulers that the monitor
-- table asks for, by region.
use uptimeflow.Common.{
  ◌*◌, ◌≡◌, ap, sym, ◌∙◌, Bool, true, ◌&&◌, ◌||◌, is_some, List, [], ◌∷◌, any, Bool-cases, inl, inr,
  if◌then◌else◌,
}
use uptimeflow.Common.Text.{Text, text_eq, text_eq→eq}
use uptimeflow.Enums.{ProbeRegion, is_heartbeat}
use Prim.Native.Nat.{max}
use mathlib.Core.Bool.{or-false, or_comm, or_assoc}
use uptimeflow.Scheduler.Maps.{
  ScheduledMonitor, Spec, region_name, same_region, scheduler_id, Want, set_key, get_key, IsMap,
  set_key-IsMap, is_some-get_key,
}

-- `desired`: the specs by region
abbrev pub Desired : Type 0
Desired = ProbeRegion → Want

abbrev pub nothing_desired : Desired
nothing_desired region = []

abbrev add_spec : ProbeRegion → Text → Spec → Desired → Desired
add_spec region k spec desired r =
    if same_region region r then set_key k spec (desired r) else desired r

abbrev pub spec_of : ScheduledMonitor → ProbeRegion → Spec
spec_of m region = record {
  every = max 1 m.interval_seconds * 1000;
  data_of = record { monitor_id = m.id; organization_id = m.organization_id; region = region };
}

abbrev regions_or : ProbeRegion → List ProbeRegion → List ProbeRegion
regions_or default_region [] = default_region ∷ []
regions_or default_region (r ∷ rs) = r ∷ rs

-- Heartbeats have the default region only.
abbrev pub regions_of : ProbeRegion → ScheduledMonitor → List ProbeRegion
regions_of default_region m =
    if is_heartbeat m.monitor_type then default_region ∷ [] else regions_or default_region m.regions

abbrev pub is_served : List ProbeRegion → ProbeRegion → Bool
is_served served region = any (same_region region) served

-- A region that this deployment does not serve is passed over.
abbrev add_region : List ProbeRegion → ScheduledMonitor → ProbeRegion → Desired → Desired
add_region served m r desired =
    if is_served served r then add_spec r (scheduler_id m.id r) (spec_of m r) desired else desired

unfoldable pub add_regions :
    List ProbeRegion → ScheduledMonitor → List ProbeRegion → Desired → Desired
unfolding same_region set_key
add_regions served m [] desired = desired
add_regions served m (r ∷ rs) desired = add_regions served m rs (add_region served m r desired)

unfoldable pub add_monitors :
    List ProbeRegion → ProbeRegion → List ScheduledMonitor → Desired → Desired
unfolding add_regions
add_monitors served default_region [] desired = desired
add_monitors served default_region (m ∷ ms) desired =
    add_monitors served default_region ms
      (add_regions served m (regions_of default_region m) desired)

module _ (served : List ProbeRegion) (default_region : ProbeRegion) (region : ProbeRegion) where
  add_regions-IsMap :
      (m : ScheduledMonitor) (rs : List ProbeRegion) (d : Desired)
      → IsMap (d region)
      → IsMap (add_regions served m rs d region)
  unfolding add_regions
  add_regions-IsMap m [] d h = h
  add_regions-IsMap m (r ∷ rs) d h =
      add_regions-IsMap m rs _ (elim (Bool-cases (is_served served r)) [
        | inl e ↦ rw e (elim (Bool-cases (same_region r region)) [
          | inl f ↦ rw f (set_key-IsMap (scheduler_id m.id r) (spec_of m r) (d region) h)
          | inr f ↦ rw f h
        ])
        | inr e ↦ rw e h
      ])

  pub add_monitors-IsMap :
      (ms : List ScheduledMonitor) (d : Desired)
      → IsMap (d region)
      → IsMap (add_monitors served default_region ms d region)
  unfolding add_monitors
  add_monitors-IsMap [] d h = h
  add_monitors-IsMap (m ∷ ms) d h =
      add_monitors-IsMap ms _ (add_regions-IsMap m (regions_of default_region m) d h)

  -- A monitor asks for a check in the region under the key.
  abbrev pub asks : Text → ScheduledMonitor → Bool
  asks k m =
      any (λ r. same_region r region && text_eq (scheduler_id m.id r) k)
        (regions_of default_region m)

  abbrev asks_among : Text → ScheduledMonitor → List ProbeRegion → Bool
  asks_among k m rs = any (λ r. same_region r region && text_eq (scheduler_id m.id r) k) rs

  add_region-asks :
      (k : Text) (m : ScheduledMonitor) (r : ProbeRegion) (d : Desired)
      → is_served served region ≡ true
      → is_some (get_key k (add_region served m r d region)) ≡ (
          is_some (get_key k (d region))
          || (same_region r region && text_eq (scheduler_id m.id r) k))
  unfolding same_region
  add_region-asks k m r d h = elim (Bool-cases (same_region r region)) [
    | inl e ↦
        let named : region_name r ≡ region_name region = text_eq→eq _ _ e in
        let also : is_served served r ≡ true =
          ap (λ t. any (λ q. text_eq t (region_name q)) served) named ∙ h in
        rw also (
          rw e (
            is_some-get_key k (scheduler_id m.id r) (spec_of m r) (d region)
            ∙ or_comm (text_eq (scheduler_id m.id r) k) (is_some (get_key k (d region)))))
    | inr e ↦ elim (Bool-cases (is_served served r)) [
      | inl f ↦ rw f (rw e (sym (or-false _)))
      | inr f ↦ rw f (rw e (sym (or-false _)))
    ]
  ]

  add_regions-asks :
      (k : Text) (m : ScheduledMonitor) (rs : List ProbeRegion) (d : Desired)
      → is_served served region ≡ true
      → is_some (get_key k (add_regions served m rs d region))
        ≡ (is_some (get_key k (d region)) || asks_among k m rs)
  unfolding add_regions
  add_regions-asks k m [] d h = sym (or-false _)
  add_regions-asks k m (r ∷ rs) d h =
      add_regions-asks k m rs (add_region served m r d) h
      ∙ ap (λ b. b || asks_among k m rs) (add_region-asks k m r d h)
      ∙ or_assoc (is_some (get_key k (d region)))
          (same_region r region && text_eq (scheduler_id m.id r) k) (asks_among k m rs)

  add_monitors-asks :
      (k : Text) (ms : List ScheduledMonitor) (d : Desired)
      → is_served served region ≡ true
      → is_some (get_key k (add_monitors served default_region ms d region))
        ≡ (is_some (get_key k (d region)) || any (asks k) ms)
  unfolding add_monitors
  add_monitors-asks k [] d h = sym (or-false _)
  add_monitors-asks k (m ∷ ms) d h =
      add_monitors-asks k ms _ h
      ∙ ap (λ b. b || any (asks k) ms) (add_regions-asks k m (regions_of default_region m) d h)
      ∙ or_assoc (is_some (get_key k (d region))) (asks k m) (any (asks k) ms)

  -- A key is desired in a served region exactly where a monitor asks for it.
  pub desired-asks :
      (k : Text) (ms : List ScheduledMonitor)
      → is_served served region ≡ true
      → is_some (get_key k (add_monitors served default_region ms nothing_desired region))
        ≡ any (asks k) ms
  unfolding get_key
  desired-asks k ms h = add_monitors-asks k ms nothing_desired h
