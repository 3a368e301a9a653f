-- ===== src/Store/Consistency.antt =====
-- The invariant of the incident table, and how inserts and updates keep it.
use uptimeflow.Common.{
  ℕ, ◌+◌, ◌≤◌, ◌≡◌, refl, inl, inr, true, false, Option, none, some, List, [], ◌∷◌, ◌++◌, ◌==◌, any,
  count, All, All-append, Bool-cases, leb, if◌then◌else◌, arith,
}
use uptimeflow.Common.Tables.{update_where, count-append}
use uptimeflow.Enums.{RecordId}
use uptimeflow.Store.{Incident, is_unresolved_of, holds_key}

-- How many incidents of monitor `m` are not resolved.
abbrev pub unresolved : RecordId → List Incident → ℕ
unresolved m incidents = count (is_unresolved_of m) incidents

-- An incident holds its monitor's deduplication key exactly while it is not resolved, and no
-- monitor has two unresolved incidents.
abbrev pub IsKeyed : Incident → Type 0
IsKeyed i = (m : RecordId) → holds_key m i ≡ is_unresolved_of m i

pub record IsConsistent (incidents : List Incident) : Type 0 where
  pub keyed : All IsKeyed incidents
  pub single : (m : RecordId) → unresolved m incidents ≤ 1

pub any-holds_key :
    (m : RecordId) (incidents : List Incident)
    → All IsKeyed incidents
    → any (holds_key m) incidents ≡ false
    → unresolved m incidents ≡ 0
any-holds_key m [] k h = refl
any-holds_key m (i ∷ is) (k, ks) h = ground (arith, k m, any-holds_key m is ks)

pub any-holds_key-true :
    (m : RecordId) (incidents : List Incident)
    → All IsKeyed incidents
    → any (holds_key m) incidents ≡ true
    → 1 ≤ unresolved m incidents
any-holds_key-true m [] k h = ground arith
any-holds_key-true m (i ∷ is) (k, ks) h = ground (arith, k m, any-holds_key-true m is ks)

-- The newer of two incidents by their start.
abbrev pub newer : Incident → Option Incident → Option Incident
newer i none = some i
newer i (some j) = if leb j.started_at i.started_at then some i else some j

-- `findFirst({ where: { monitorId, status: { not: "RESOLVED" } }, orderBy: { startedAt: "desc" } })`
unfoldable pub latest_unresolved : RecordId → List Incident → Option Incident
latest_unresolved m [] = none
latest_unresolved m (i ∷ is) =
    let rest = latest_unresolved m is in if is_unresolved_of m i then newer i rest else rest

pub latest_unresolved-none :
    (m : RecordId) (is : List Incident) → latest_unresolved m is ≡ none → unresolved m is ≡ 0
unfolding latest_unresolved
latest_unresolved-none m [] h = refl
latest_unresolved-none m (i ∷ is) h = ground (arith, latest_unresolved-none m is)

-- Updates of incidents that leave every monitor's tests alone, or close the incident.
abbrev pub KeepsTests : (Incident → Incident) → Type 0
KeepsTests f =
    (m : RecordId) (i : Incident)
    → (is_unresolved_of m (f i) ≡ is_unresolved_of m i) × (holds_key m (f i) ≡ holds_key m i)

abbrev pub Closes : (Incident → Incident) → Type 0
Closes f =
    (m : RecordId) (i : Incident) → (is_unresolved_of m (f i) ≡ false) × (holds_key m (f i) ≡ false)

module _ (f : Incident → Incident) (closes : Closes f) where
  closes_le :
      (m k : RecordId) (is : List Incident)
      → unresolved m (update_where (λ i. i.id == k) f is) ≤ unresolved m is
  closes_le m k [] = omega arith
  closes_le m k (i ∷ is) = ground (arith, closes_le m k is, closes m i)

  -- Closing the latest unresolved incident leaves one fewer.
  pub closes_latest :
      (m : RecordId) (is : List Incident) (r : Incident)
      → latest_unresolved m is ≡ some r
      → unresolved m (update_where (λ i. i.id == r.id) f is) + 1 ≤ unresolved m is
  unfolding latest_unresolved
  closes_latest m [] r h = ground arith
  closes_latest m (i ∷ is) r h =
      ground (arith, closes_latest m is r, closes_le m r.id is, closes m i)

  closes-IsKeyed :
      (k : RecordId) (is : List Incident)
      → All IsKeyed is
      → All IsKeyed (update_where (λ i. i.id == k) f is)
  closes-IsKeyed k [] h = tt
  closes-IsKeyed k (i ∷ is) (h, hs) = (λ m. ground (arith, h m, closes m i), closes-IsKeyed k is hs)

  pub closes-IsConsistent :
      (k : RecordId) (is : List Incident)
      → IsConsistent is
      → IsConsistent (update_where (λ i. i.id == k) f is)
  closes-IsConsistent k is c = record {
    keyed = closes-IsKeyed k is c.keyed;
    single = λ m. omega (arith, closes_le m k is, c.single m);
  }

module _ (f : Incident → Incident) (keeps : KeepsTests f) where
  pub keeps_eq :
      (m k : RecordId) (is : List Incident)
      → unresolved m (update_where (λ i. i.id == k) f is) ≡ unresolved m is
  keeps_eq m k [] = refl
  keeps_eq m k (i ∷ is) = ground (arith, keeps_eq m k is, keeps m i)

  keeps-IsKeyed :
      (k : RecordId) (is : List Incident)
      → All IsKeyed is
      → All IsKeyed (update_where (λ i. i.id == k) f is)
  keeps-IsKeyed k [] h = tt
  keeps-IsKeyed k (i ∷ is) (h, hs) = (λ m. ground (arith, h m, keeps m i), keeps-IsKeyed k is hs)

  pub keeps-IsConsistent :
      (k : RecordId) (is : List Incident)
      → IsConsistent is
      → IsConsistent (update_where (λ i. i.id == k) f is)
  keeps-IsConsistent k is c = record {
    keyed = keeps-IsKeyed k is c.keyed;
    single = λ m. omega (arith, keeps_eq m k is, c.single m);
  }

-- A new incident of monitor `k` with its key is added only where no incident holds that key.
module _ (k : RecordId) (i : Incident) (mine : (m : RecordId) → is_unresolved_of m i ≡ (k == m))
    (keyed : IsKeyed i) where
  pub add-unresolved :
      (m : RecordId) (is : List Incident)
      → unresolved m (is ++ i ∷ []) ≡ unresolved m is + (if k == m then 1 else 0)
  add-unresolved m is = ground (arith, count-append (is_unresolved_of m) is (i ∷ []), mine m)

  pub add-IsConsistent :
      (is : List Incident)
      → IsConsistent is
      → any (holds_key k) is ≡ false
      → IsConsistent (is ++ i ∷ [])
  add-IsConsistent is c h = record {
    keyed = All-append IsKeyed is (i ∷ []) c.keyed (keyed, tt);
    single = λ m. elim (Bool-cases (k == m)) [
      | inl e ↦ ground (arith, add-unresolved m is, any-holds_key k is c.keyed h, c.single m)
      | inr e ↦ ground (arith, add-unresolved m is, c.single m)
    ];
  }
