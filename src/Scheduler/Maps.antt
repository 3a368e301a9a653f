-- ===== src/Scheduler/Maps.antt =====
-- The maps of packages/monitoring/src/scheduler.ts from a scheduler's key to its interval and data.
use uptimeflow.Common.{
  ℕ, ◌≡◌, refl, ap, sym, ◌∙◌, Bool, false, ◌||◌, is_some, Option, none, some, List, [], ◌∷◌, ◌++◌,
  Bool-cases, inl, inr, if◌then◌else◌, arith,
}
use uptimeflow.Common.Text.{Text, codes, text_eq, text_eq→eq, text_eq_refl, text_eq_comm}
use uptimeflow.Enums.{ProbeRegion, MonitorType}

-- The fields of a monitor that are selected. An identifier is part of a key, so it is a text here.
pub record ScheduledMonitor : Type 0 where
  pub id : Text
  pub organization_id : Text
  pub monitor_type : MonitorType
  pub interval_seconds : ℕ
  pub regions : List ProbeRegion

-- CheckJobData
pub record JobData : Type 0 where
  pub monitor_id : Text
  pub organization_id : Text
  pub region : ProbeRegion

pub record Spec : Type 0 where
  pub every : ℕ
  pub data_of : JobData

abbrev pub region_name : ProbeRegion → Text
region_name ProbeRegion.na_east = codes "NA_EAST"
region_name ProbeRegion.na_west = codes "NA_WEST"
region_name ProbeRegion.eu_west = codes "EU_WEST"
region_name ProbeRegion.eu_central = codes "EU_CENTRAL"
region_name ProbeRegion.ap_southeast = codes "AP_SOUTHEAST"
region_name ProbeRegion.ap_northeast = codes "AP_NORTHEAST"
region_name ProbeRegion.sa_east = codes "SA_EAST"
region_name ProbeRegion.af_south = codes "AF_SOUTH"

unfoldable pub same_region : ProbeRegion → ProbeRegion → Bool
unfolding text_eq
same_region r q = text_eq (region_name r) (region_name q)

abbrev pub scheduler_prefix : Text
scheduler_prefix = codes "monitor:"

abbrev pub scheduler_id : Text → ProbeRegion → Text
scheduler_id monitor_id region = scheduler_prefix ++ (monitor_id ++ (b':' ∷ region_name region))

-- A JavaScript Map from keys to specs, in the order of first insertion.
abbrev pub Want : Type 0
Want = List (Text × Spec)

unfoldable pub set_key : Text → Spec → Want → Want
unfolding text_eq
set_key k spec [] = (k, spec) ∷ []
set_key k spec ((j, old) ∷ ws) =
    let rest = set_key k spec ws in if text_eq j k then (j, spec) ∷ ws else (j, old) ∷ rest

unfoldable pub get_key : Text → Want → Option Spec
unfolding text_eq
get_key k [] = none
get_key k ((j, spec) ∷ ws) = let rest = get_key k ws in if text_eq j k then some spec else rest

-- The keys of a map are distinct.
abbrev pub IsMap : Want → Type 0
IsMap [] = Unit
IsMap ((k, spec) ∷ ws) = (get_key k ws ≡ none) × IsMap ws

get_key-set_key_ne :
    (k j : Text) (spec : Spec) (ws : Want)
    → text_eq j k ≡ false
    → get_key k (set_key j spec ws) ≡ get_key k ws
unfolding get_key set_key
get_key-set_key_ne k j spec [] h = ground (arith, h)
get_key-set_key_ne k j spec ((i, old) ∷ ws) h = elim (Bool-cases (text_eq i j)) [
  | inl e ↦
      let ne : text_eq i k ≡ false = ap (λ t. text_eq t k) (text_eq→eq i j e) ∙ h in
      ground (arith, e, ne)
  | inr e ↦ ground (arith, e, h, get_key-set_key_ne k j spec ws)
]

pub get_key-set_key :
    (k : Text) (spec : Spec) (ws : Want) → get_key k (set_key k spec ws) ≡ some spec
unfolding get_key set_key
get_key-set_key k spec [] = ground (arith, text_eq_refl k)
get_key-set_key k spec ((i, old) ∷ ws) = ground (arith, get_key-set_key k spec ws)

pub set_key-IsMap : (k : Text) (spec : Spec) (ws : Want) → IsMap ws → IsMap (set_key k spec ws)
unfolding set_key get_key
set_key-IsMap k spec [] m = (refl, tt)
set_key-IsMap k spec ((i, old) ∷ ws) (n, m) = elim (Bool-cases (text_eq i k)) [
  | inl e ↦ rw e (n, m)
  | inr e ↦
      rw e (get_key-set_key_ne i k spec ws (text_eq_comm k i ∙ e) ∙ n, set_key-IsMap k spec ws m)
]

pub is_some-get_key :
    (k j : Text) (spec : Spec) (ws : Want)
    → is_some (get_key k (set_key j spec ws)) ≡ (text_eq j k || is_some (get_key k ws))
unfolding text_eq
is_some-get_key k j spec ws = elim (Bool-cases (text_eq j k)) [
  | inl e ↦ rw e (
      ap (λ t. is_some (get_key t (set_key j spec ws))) (sym (text_eq→eq j k e))
      ∙ ap is_some (get_key-set_key j spec ws))
  | inr e ↦ rw e (ap is_some (get_key-set_key_ne k j spec ws e))
]
