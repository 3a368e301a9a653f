-- ===== src/OnCall/Rotation.antt =====
-- The rotation index of oncall/resolve.ts.
use native.Mathlib.Nat.{
  mod-lt, mod-mod, mod_self, mod-eq_of_lt, suc-mod, mod-add-mod, add-mod_right, add-div_right,
  div-eq-sub-div, div-eq_of_lt, zero-mod,
}
use uptimeflow.Common.{
  ℕ, zero, suc, ◌+◌, ◌-◌, ◌/◌, ◌%◌, ◌≤◌, ◌<◌, ◌≡◌, sym, ap, ◌∙◌, length, ◌==◌, leb, Bool-cases, inl,
  inr, leb→le, false, arith,
}
use uptimeflow.Common.Int.{ℤ, pos, negsuc, sub_ℕ, ◌+ℤ◌, floor_div, rem}
use uptimeflow.Common.Text.{Text}
use uptimeflow.Enums.{Instant}
use uptimeflow.OnCall.{Schedule, period_ms, shifted_ms, wrap_index, rotation_index}

-- The index of a period, written without the remainder of JavaScript.
abbrev pub slot : ℤ → ℕ → ℕ
slot (pos p) n = p % n
slot (negsuc p) n = n - 1 - p % n

pos-add : (a b : ℕ) → pos a +ℤ pos b ≡ pos (a + b)
unfolding ◌+ℤ◌
pos-add a b = ground arith

sub-add : (r n : ℕ) → r ≤ n → sub_ℕ 0 r +ℤ pos n ≡ pos (n - r)
unfolding ◌+ℤ◌
sub-add r n h = ground arith

negsuc-add_below : (a d : ℕ) → a < d → negsuc a +ℤ pos d ≡ pos (d - (a + 1))
unfolding ◌+ℤ◌
negsuc-add_below a d h = ground arith

negsuc-add_above : (a d : ℕ) → d ≤ a → negsuc a +ℤ pos d ≡ negsuc (a - d)
unfolding ◌+ℤ◌
negsuc-add_above a d h = ground arith

wrap_suc : (r n : ℕ) → r < n → (n - suc r % n) % n ≡ n - 1 - r
wrap_suc r n h = elim (Bool-cases (suc r == n)) [
  | inl e ↦
      let full : suc r ≡ n = ground arith in
      rw (full, mod_self n) (ap (λ k. k % n) (omega arith) ∙ mod_self n ∙ omega arith)
  | inr e ↦
      let below : suc r < n = ground arith in
      rw (mod-eq_of_lt below) (mod-eq_of_lt (omega arith) ∙ omega arith)
]

wrap_index_lem : (p : ℤ) (n : ℕ) → 0 < n → wrap_index p n ≡ pos (slot p n)
unfolding wrap_index
wrap_index_lem (pos p) n h =
    ap (λ z. rem z n) (pos-add (p % n) n) ∙ ap pos (add-mod_right (p % n) n ∙ mod-mod p n)
wrap_index_lem (negsuc p) n h =
    ap (λ z. rem z n) (sub-add (suc p % n) n (omega (arith, mod-lt (suc p) h)))
    ∙ ap pos (ap (λ r. (n - r) % n) (suc-mod p n) ∙ wrap_suc (p % n) n (mod-lt p h))

slot-lt : (p : ℤ) (n : ℕ) → 0 < n → slot p n < n
slot-lt (pos p) n h = mod-lt p h
slot-lt (negsuc p) n h = omega arith

turn_around : (n : ℕ) → 0 < n → (n - 1 - 0 + 1) % n ≡ 0
turn_around n h = ap (λ k. k % n) (omega arith) ∙ mod_self n

step_back : (r n : ℕ) → r < n → (n - 1 - suc r % n + 1) % n ≡ n - 1 - r
step_back r n h = elim (Bool-cases (suc r == n)) [
  | inl e ↦
      let full : suc r ≡ n = ground arith in
      rw (full, mod_self n) (turn_around n (omega arith) ∙ omega arith)
  | inr e ↦
      let below : suc r < n = ground arith in
      rw (mod-eq_of_lt below) (mod-eq_of_lt (omega arith) ∙ omega arith)
]

slot-suc : (p : ℤ) (n : ℕ) → 0 < n → slot (p +ℤ pos 1) n ≡ (slot p n + 1) % n
slot-suc (pos p) n h = rw pos-add (sym (mod-add-mod p n 1))
slot-suc (negsuc zero) n h =
    ap (λ z. slot z n) (negsuc-add_below 0 1 (omega arith))
    ∙ zero-mod n
    ∙ sym (ap (λ r. (n - 1 - r + 1) % n) (zero-mod n) ∙ turn_around n h)
slot-suc (negsuc (suc p)) n h =
    ap (λ z. slot z n) (negsuc-add_above (suc p) 1 (omega arith))
    ∙ ap (λ k. n - 1 - k % n) (omega arith)
    ∙ sym (ap (λ r. (n - 1 - r + 1) % n) (suc-mod p n) ∙ step_back (p % n) n (mod-lt p h))

floor_div-add : (a : ℤ) (d : ℕ) → 0 < d → floor_div (a +ℤ pos d) d ≡ floor_div a d +ℤ pos 1
unfolding floor_div
floor_div-add (pos a) d h =
    ap (λ z. floor_div z d) (pos-add a d) ∙ ap pos (add-div_right a h) ∙ sym (pos-add (a / d) 1)
floor_div-add (negsuc a) d h = elim (Bool-cases (leb d a)) [
  | inl e ↦
      let above : d ≤ a = leb→le d a e in
      let down : a / d ≡ (a - d) / d + 1 = div-eq-sub-div h above in
      ap (λ z. floor_div z d) (negsuc-add_above a d above)
      ∙ ap negsuc (omega (arith, down))
      ∙ sym (negsuc-add_above (a / d) 1 (omega (arith, down)))
  | inr e ↦
      let below : a < d = ground arith in
      ap (λ z. floor_div z d) (negsuc-add_below a d below)
      ∙ ap pos (div-eq_of_lt (omega arith))
      ∙ sym (ap (λ q. negsuc q +ℤ pos 1) (div-eq_of_lt below) ∙ negsuc-add_below 0 1 (omega arith))
]

module _ (tz_offset_ms : Instant → Text → ℤ) (s : Schedule) where
  period-pos : 0 < period_ms tz_offset_ms s
  period-pos = ground arith

  rotation_index_lem :
      (now : Instant)
      → 0 < length s.participants
      → rotation_index tz_offset_ms s now
        ≡ pos (
            slot
              (floor_div (shifted_ms tz_offset_ms s now) (period_ms tz_offset_ms s))
              (length s.participants))
  unfolding rotation_index
  rotation_index_lem now h =
      let e : (length s.participants == 0) ≡ false = ground arith in rw e (wrap_index_lem _ _ h)

  pub rotation_index_in_range :
      (now : Instant)
      → 0 < length s.participants
      → (k : ℕ) × (rotation_index tz_offset_ms s now ≡ pos k) × (k < length s.participants)
  rotation_index_in_range now h = (_, rotation_index_lem now h, slot-lt _ _ h)

  -- For a schedule with participants, the rotation index is the index of one of them at every
  -- instant, and at an instant that is one whole period of local time later it is the next one, the
  -- first one after the last: before the epoch too.
  pub rotation_index_handoff :
      (now later : Instant)
      → 0 < length s.participants
      → shifted_ms tz_offset_ms s later
        ≡ shifted_ms tz_offset_ms s now +ℤ pos (period_ms tz_offset_ms s)
      → (k : ℕ) × (rotation_index tz_offset_ms s now ≡ pos k)
        × (k < length s.participants)
        × (rotation_index tz_offset_ms s later ≡ pos ((k + 1) % length s.participants))
  rotation_index_handoff now later h e =
      let n = length s.participants in
      let q = floor_div (shifted_ms tz_offset_ms s now) (period_ms tz_offset_ms s) in
      (
        slot q n,
        rotation_index_lem now h,
        slot-lt q n h,
        rotation_index_lem later h
            ∙ ap pos (
                ap (λ z. slot (floor_div z (period_ms tz_offset_ms s)) n) e
                ∙ ap (λ z. slot z n) (floor_div-add _ _ period-pos)
                ∙ slot-suc q n h),
      )
