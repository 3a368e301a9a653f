-- ===== src/OnCall/Backup.antt =====
-- The responders that oncall/resolve.ts names: there is one, and the backup is somebody else.
use native.Mathlib.Nat.{mod_self, mod-eq_of_lt}
use uptimeflow.Common.{
  ℕ, zero, suc, ◌+◌, ◌%◌, ◌<◌, ◌≡◌, ◌≢◌, refl, ap, sym, ◌∙◌, Bool, true, false, Option, none, some,
  List, [], ◌∷◌, ◌==◌, ltb, leb, length, get_elem?, find, All, Bool-cases, Option-cases, inl, inr,
  arith,
}
use uptimeflow.Common.Int.{ℤ, pos, negsuc}
use uptimeflow.Common.Text.{Text}
use uptimeflow.Enums.{RecordId, Instant}
use uptimeflow.OnCall.{
  ParticipantRef, OverrideRef, Schedule, insert_by_position, sort_by_position, at_index, at_next,
  is_active, rotation_index, resolve_on_call, answer,
}
use uptimeflow.OnCall.Rotation.{rotation_index_in_range}

-- No user takes part twice.
abbrev pub IsOther : RecordId → ParticipantRef → Type 0
IsOther u q = u ≢ q.user_id

abbrev pub Distinct : List ParticipantRef → Type 0
Distinct [] = Unit
Distinct (p ∷ ps) = All (IsOther p.user_id) ps × Distinct ps

All-insert :
    (u : RecordId) (p : ParticipantRef) (ps : List ParticipantRef)
    → IsOther u p
    → All (IsOther u) ps
    → All (IsOther u) (insert_by_position p ps)
unfolding insert_by_position
All-insert u p [] n h = (n, tt)
All-insert u p (q ∷ qs) n (m, h) = elim (Bool-cases (leb p.position q.position)) [
  | inl e ↦ rw e (n, (m, h))
  | inr e ↦ rw e (m, All-insert u p qs n h)
]

insert-Distinct :
    (p : ParticipantRef) (ps : List ParticipantRef)
    → All (IsOther p.user_id) ps
    → Distinct ps
    → Distinct (insert_by_position p ps)
unfolding insert_by_position
insert-Distinct p [] n h = (tt, tt)
insert-Distinct p (q ∷ qs) (m, n) (o, h) = elim (Bool-cases (leb p.position q.position)) [
  | inl e ↦ rw e ((m, n), (o, h))
  | inr e ↦ rw e (All-insert q.user_id p qs (λ k. m (sym k)) o, insert-Distinct p qs n h)
]

All-sort :
    (u : RecordId) (ps : List ParticipantRef)
    → All (IsOther u) ps
    → All (IsOther u) (sort_by_position ps)
unfolding sort_by_position
All-sort u [] h = tt
All-sort u (p ∷ ps) (n, h) = All-insert u p (sort_by_position ps) n (All-sort u ps h)

sort-Distinct : (ps : List ParticipantRef) → Distinct ps → Distinct (sort_by_position ps)
unfolding sort_by_position
sort-Distinct [] h = tt
sort-Distinct (p ∷ ps) (n, h) =
    insert-Distinct p (sort_by_position ps) (All-sort p.user_id ps n) (sort-Distinct ps h)

length-insert :
    (p : ParticipantRef) (ps : List ParticipantRef)
    → length (insert_by_position p ps) ≡ suc (length ps)
unfolding insert_by_position
length-insert p [] = refl
length-insert p (q ∷ qs) = ground (arith, length-insert p qs)

length-sort : (ps : List ParticipantRef) → length (sort_by_position ps) ≡ length ps
unfolding sort_by_position
length-sort [] = refl
length-sort (p ∷ ps) = length-insert p (sort_by_position ps) ∙ ap suc (length-sort ps)

get-All :
    (u : RecordId) (ps : List ParticipantRef) (i : ℕ) (a : ParticipantRef)
    → All (IsOther u) ps
    → get_elem? ps i ≡ some a
    → u ≢ a.user_id
get-All u [] i a h e = cc
get-All u (p ∷ ps) zero a (n, h) e = ground arith
get-All u (p ∷ ps) (suc i) a (n, h) e = get-All u ps i a h e

get-Distinct :
    (ps : List ParticipantRef) (i j : ℕ) (a b : ParticipantRef)
    → Distinct ps
    → get_elem? ps i ≡ some a
    → get_elem? ps j ≡ some b
    → i ≢ j
    → a.user_id ≢ b.user_id
get-Distinct [] i j a b h e f n = cc
get-Distinct (p ∷ ps) zero zero a b h e f n = absurd (n refl)
get-Distinct (p ∷ ps) zero (suc j) a b (o, h) e f n = ground (arith, get-All p.user_id ps j b o f)
get-Distinct (p ∷ ps) (suc i) zero a b (o, h) e f n = ground (arith, get-All p.user_id ps i a o e)
get-Distinct (p ∷ ps) (suc i) (suc j) a b (o, h) e f n =
    get-Distinct ps i j a b h e f (λ k. n (ap suc k))

get-lt :
    (ps : List ParticipantRef) (i : ℕ) (a : ParticipantRef)
    → get_elem? ps i ≡ some a
    → i < length ps
get-lt [] i a e = ground arith
get-lt (p ∷ ps) zero a e = omega arith
get-lt (p ∷ ps) (suc i) a e = omega (arith, get-lt ps i a e)

get_total :
    (ps : List ParticipantRef) (i : ℕ)
    → i < length ps
    → (a : ParticipantRef) × (get_elem? ps i ≡ some a)
get_total [] i h = absurd (omega arith)
get_total (p ∷ ps) zero h = (p, refl)
get_total (p ∷ ps) (suc i) h = get_total ps i (omega arith)

next_ne : (i n : ℕ) → 1 < n → i < n → i ≢ (i + 1) % n
next_ne i n h k = elim (Bool-cases (i + 1 == n)) [
  | inl e ↦
      let full : (i + 1) % n ≡ 0 = ap (λ x. x % n) (ground arith) ∙ mod_self n in
      ground (arith, full)
  | inr e ↦ ground (arith, mod-eq_of_lt {n = i + 1} {m = n} (ground arith))
]

user_at :
    (ps : List ParticipantRef) (i : ℕ) (u : RecordId)
    → at_index ps (pos i) ≡ some u
    → (a : ParticipantRef) × (get_elem? ps i ≡ some a) × (a.user_id ≡ u)
user_at ps i u e = elim (Option-cases (get_elem? ps i)) [
  | inl n ↦ absurd (ground arith)
  | inr (a, q) ↦ (a, q, ground arith)
]

slots_differ :
    (ps : List ParticipantRef) (z : ℤ) (u v : RecordId)
    → Distinct ps
    → at_index ps z ≡ some u
    → at_next ps z ≡ some v
    → u ≢ v
slots_differ ps (negsuc i) u v d e f = cc
slots_differ ps (pos i) u v d e f = elim (Bool-cases (ltb 1 (length ps))) [
  | inl more ↦
      let (a, p, x) = user_at ps i u e in
      let (b, q, y) = user_at ps ((i + 1) % length ps) v (ground arith) in
      let apart = get-Distinct ps i ((i + 1) % length ps) a b d p q in
      let moved = next_ne i (length ps) (ground arith) (get-lt ps i a p) in
      λ same. apart moved (x ∙ same ∙ sym y)
  | inr single ↦ cc (the_only single f)
]
  where
    the_only : ltb 1 (length ps) ≡ false → at_next ps (pos i) ≡ some v → none ≡ some v
    the_only single f = ground arith

at_next_nobody : (ps : List ParticipantRef) (z : ℤ) → (length ps == 0) ≡ true → at_next ps z ≡ none
at_next_nobody ps (pos i) h = ground arith
at_next_nobody ps (negsuc i) h = refl

answer_staffed :
    (o : Option OverrideRef) (nobody : Bool) (p q : Option RecordId)
    → nobody ≡ false
    → ((u : RecordId) × (p ≡ some u))
    → (u : RecordId) × ((answer o nobody p q).primary ≡ some u)
unfolding answer
answer_staffed (some o) nobody p q n f = (o.user_id, refl)
answer_staffed none nobody p q n (u, e) = (u, ground arith)

answer_differs :
    (o : Option OverrideRef) (nobody : Bool) (p q : Option RecordId) (u v : RecordId)
    → ((a b : RecordId) → p ≡ some a → q ≡ some b → a ≢ b)
    → (p ≡ none → q ≡ none)
    → (answer o nobody p q).primary ≡ some u
    → (answer o nobody p q).secondary ≡ some v
    → u ≢ v
unfolding answer
answer_differs none nobody p q u v h n e f = ground (arith, h u v)
answer_differs (some o) nobody none q u v h n e f = cc (n refl)
answer_differs (some o) nobody (some a) q u v h n e f = ground (arith, h a v)

module _ (tz_offset_ms : Instant → Text → ℤ) (s : Schedule) (now : Instant) where
  abbrev sorted : List ParticipantRef
  sorted = sort_by_position s.participants

  abbrev index : ℤ
  index = rotation_index tz_offset_ms (record s { participants = sorted }) now

  slot_filled : 0 < length sorted → (u : RecordId) × (at_index sorted index ≡ some u)
  slot_filled h =
      let (k, e, below) =
        rotation_index_in_range tz_offset_ms (record s { participants = sorted }) now h in
      let (a, q) = get_total sorted k below in
      (a.user_id, ap (at_index sorted) e ∙ ground (arith, q))

  -- A schedule with participants always names a primary responder.
  pub resolve_staffed :
      0 < length s.participants
      → (u : RecordId) × ((resolve_on_call tz_offset_ms s now).primary ≡ some u)
  unfolding resolve_on_call
  resolve_staffed h =
      let n : 0 < length sorted = omega (arith, length-sort s.participants) in
      answer_staffed (find (is_active now) s.overrides) (length sorted == 0) (at_index sorted index)
        (at_next sorted index) (ground arith) (slot_filled n)

  primary_missing : at_index sorted index ≡ none → at_next sorted index ≡ none
  primary_missing e = elim (Bool-cases (length sorted == 0)) [
    | inl z ↦ at_next_nobody sorted index z
    | inr z ↦ let (u, q) = slot_filled (ground arith) in cc
  ]

  -- Where no user takes part twice, the secondary responder is never the primary one, under an
  -- override too.
  pub resolve_backup_is_other :
      (u v : RecordId)
      → Distinct s.participants
      → (resolve_on_call tz_offset_ms s now).primary ≡ some u
      → (resolve_on_call tz_offset_ms s now).secondary ≡ some v
      → u ≢ v
  unfolding resolve_on_call
  resolve_backup_is_other u v d p q =
      answer_differs (find (is_active now) s.overrides) (length sorted == 0) (at_index sorted index)
        (at_next sorted index) u v
        (λ a b. slots_differ sorted index a b (sort-Distinct s.participants d)) primary_missing p q
