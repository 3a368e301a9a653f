-- ===== src/Common/Text.antt =====
-- JavaScript strings as lists of UTF-16 code units, with the methods that the source calls.
use Prim.Native.Nat.{ℕ, zero, suc, ◌+◌, ◌/◌, ◌%◌}
use Prim.Native.Char.{code}
use Prim.Native.String.{String}
use mathlib.Core.Path.{◌≡◌, refl}
use mathlib.Core.Bool.{Bool, true, false, ◌&&◌, ◌||◌}
use mathlib.Core.List.{List, [], ◌∷◌, ◌++◌, map}
use native.Mathlib.Omega.{arith}
use mathlib.Core.Path.{ap, sym, ◌∙◌}
use mathlib.Core.Logic.{inl, inr}
use mathlib.Core.List.{append-nil, append_assoc}
use uptimeflow.Common.Lists.{any, all, all-append}
use uptimeflow.Common.Tests.{◌==◌, ltb, leb, if◌then◌else◌, Bool-cases, ==_refl}

abbrev pub Text : Type 0
Text = List ℕ

-- The code units of an ASCII literal.
abbrev pub codes : String → Text
codes String.[] = []
codes (String.◌∷◌ c s) = code c ∷ codes s

-- `s === t`
unfoldable pub text_eq : Text → Text → Bool
text_eq [] [] = true
text_eq [] (d ∷ t) = false
text_eq (c ∷ s) [] = false
text_eq (c ∷ s) (d ∷ t) = c == d && text_eq s t

unfoldable pub starts_with : Text → Text → Bool
starts_with s [] = true
starts_with [] (d ∷ t) = false
starts_with (c ∷ s) (d ∷ t) = c == d && starts_with s t

-- `s.includes(t)`
unfoldable pub includes : Text → Text → Bool
unfolding starts_with
includes [] t = starts_with [] t
includes (c ∷ s) t = starts_with (c ∷ s) t || includes s t

-- `s.endsWith(t)`
unfoldable pub ends_with : Text → Text → Bool
unfolding text_eq
ends_with [] t = text_eq [] t
ends_with (c ∷ s) t = text_eq (c ∷ s) t || ends_with s t

-- Every unit but a last one that is `x`.
unfoldable pub without_last : ℕ → Text → Text
without_last x [] = []
without_last x (c ∷ []) = if c == x then [] else c ∷ []
without_last x (c ∷ (d ∷ s)) = c ∷ without_last x (d ∷ s)

-- `s.toLowerCase()` of an ASCII text
abbrev pub lower_unit : ℕ → ℕ
lower_unit c = if leb b'A' c && leb c b'Z' then c + 32 else c

abbrev pub lower : Text → Text
lower = map lower_unit

abbrev pub is_empty : Text → Bool
is_empty [] = true
is_empty (c ∷ s) = false

-- `s.split(sep)` for a separator of one unit; the result always has a first part.
split_into : ℕ → Text → Text → List Text
split_into sep cur [] = cur ∷ []
split_into sep cur (c ∷ s) =
    let cut = cur ∷ split_into sep [] s in
    let longer = split_into sep (cur ++ c ∷ []) s in if c == sep then cut else longer

unfoldable pub split : ℕ → Text → List Text
unfolding split_into
split sep s = split_into sep [] s

-- The first part ends at the first separator.
split_into-first :
    (sep : ℕ) (cur t rest : Text)
    → any (λ c. c == sep) t ≡ false
    → split_into sep cur (t ++ sep ∷ rest) ≡ (cur ++ t) ∷ split_into sep [] rest
unfolding split_into
split_into-first sep cur [] rest h = simp (==_refl, append-nil)
split_into-first sep cur (c ∷ t) rest h = elim (Bool-cases (c == sep)) [
  | inl e ↦ ground (arith, e, h)
  | inr e ↦ rw e (
      split_into-first sep (cur ++ c ∷ []) t rest (ground (arith, e, h))
      ∙ ap (λ x. x ∷ split_into sep [] rest) (append_assoc cur (c ∷ []) t))
]

pub split-first :
    (sep : ℕ) (t rest : Text)
    → any (λ c. c == sep) t ≡ false
    → split sep (t ++ sep ∷ rest) ≡ t ∷ split sep rest
unfolding split split_into
split-first sep t rest h = split_into-first sep [] t rest h

-- A text without the separator is its only part.
split_into-whole :
    (sep : ℕ) (cur t : Text)
    → any (λ c. c == sep) t ≡ false
    → split_into sep cur t ≡ (cur ++ t) ∷ []
unfolding split_into
split_into-whole sep cur [] h = rw append-nil
split_into-whole sep cur (c ∷ t) h = elim (Bool-cases (c == sep)) [
  | inl e ↦ ground (arith, e, h)
  | inr e ↦ rw e (
      split_into-whole sep (cur ++ c ∷ []) t (ground (arith, e, h))
      ∙ ap (λ x. x ∷ []) (append_assoc cur (c ∷ []) t))
]

pub split-whole : (sep : ℕ) (t : Text) → any (λ c. c == sep) t ≡ false → split sep t ≡ t ∷ []
unfolding split split_into
split-whole sep t h = split_into-whole sep [] t h

-- What holds of the units of every part holds of all units but the separator.
split_into-all :
    (sep : ℕ) (p : ℕ → Bool) (cur t : Text)
    → all (all p) (split_into sep cur t) ≡ true
    → (all p cur ≡ true) × (all (λ c. p c || c == sep) t ≡ true)
unfolding split_into
split_into-all sep p cur [] h = (ground (arith, h), refl)
split_into-all sep p cur (c ∷ t) h = elim (Bool-cases (c == sep)) [
  | inl e ↦
      let cut : all (all p) (cur ∷ split_into sep [] t) ≡ true = ground (arith, e, h) in
      let (x, y) = split_into-all sep p [] t (ground (arith, cut)) in
      (ground (arith, cut), ground (arith, e, y))
  | inr e ↦
      let (x, y) = split_into-all sep p (cur ++ c ∷ []) t (ground (arith, e, h)) in
      let both : (all p cur && all p (c ∷ [])) ≡ true = sym (all-append p cur (c ∷ [])) ∙ x in
      (ground (arith, both), ground (arith, both, y))
]

pub split-all :
    (sep : ℕ) (p : ℕ → Bool) (t : Text)
    → all (all p) (split sep t) ≡ true
    → all (λ c. p c || c == sep) t ≡ true
unfolding split split_into
split-all sep p t h = (split_into-all sep p [] t h).1

abbrev pub last_part : List Text → Text
last_part [] = []
last_part (t ∷ []) = t
last_part (t ∷ (u ∷ ts)) = last_part (u ∷ ts)

-- The last unit is `x`.
unfoldable pub ends_in : ℕ → Text → Bool
ends_in x [] = false
ends_in x (c ∷ []) = c == x
ends_in x (c ∷ (d ∷ s)) = ends_in x (d ∷ s)

split_into-cons :
    (sep : ℕ) (cur t : Text) → (u : Text) × (us : List Text) × (split_into sep cur t ≡ u ∷ us)
unfolding split_into
split_into-cons sep cur [] = (cur, [], refl)
split_into-cons sep cur (c ∷ t) = elim (Bool-cases (c == sep)) [
  | inl e ↦ (cur, split_into sep [] t, rw e refl)
  | inr e ↦ let (u, us, h) = split_into-cons sep (cur ++ c ∷ []) t in (u, us, rw e h)
]

last_part-cut :
    (sep : ℕ) (cur t : Text)
    → last_part (cur ∷ split_into sep [] t) ≡ last_part (split_into sep [] t)
last_part-cut sep cur t =
    let (u, us, h) = split_into-cons sep [] t in
    ap (λ x. last_part (cur ∷ x)) h ∙ sym (ap last_part h)

split_into-ends :
    (sep : ℕ) (cur t : Text) → ends_in sep t ≡ true → last_part (split_into sep cur t) ≡ []
unfolding split_into ends_in
split_into-ends sep cur [] h = cc
split_into-ends sep cur (c ∷ []) h = rw h refl
split_into-ends sep cur (c ∷ (d ∷ t)) h = elim (Bool-cases (c == sep)) [
  | inl e ↦ rw e (last_part-cut sep cur (d ∷ t) ∙ split_into-ends sep [] (d ∷ t) h)
  | inr e ↦ rw e (split_into-ends sep (cur ++ c ∷ []) (d ∷ t) h)
]

-- Behind a separator at the end stands an empty part.
pub split-ends : (sep : ℕ) (t : Text) → ends_in sep t ≡ true → last_part (split sep t) ≡ []
unfolding split
split-ends sep t h = split_into-ends sep [] t h

pub without_last-other : (x : ℕ) (t : Text) → ends_in x t ≡ false → without_last x t ≡ t
unfolding without_last ends_in
without_last-other x [] h = refl
without_last-other x (c ∷ []) h = ground (arith, h)
without_last-other x (c ∷ (d ∷ t)) h = ap (λ s. c ∷ s) (without_last-other x (d ∷ t) h)

pub text_eq_refl : (s : Text) → text_eq s s ≡ true
unfolding text_eq
text_eq_refl [] = refl
text_eq_refl (c ∷ s) = ground (arith, text_eq_refl s)

pub text_eq→eq : (s t : Text) → text_eq s t ≡ true → s ≡ t
unfolding text_eq
text_eq→eq [] [] h = refl
text_eq→eq [] (d ∷ t) h = ground arith
text_eq→eq (c ∷ s) [] h = ground arith
text_eq→eq (c ∷ s) (d ∷ t) h = ground (arith, text_eq→eq s t)

pub text_eq_comm : (s t : Text) → text_eq s t ≡ text_eq t s
unfolding text_eq
text_eq_comm [] [] = refl
text_eq_comm [] (d ∷ t) = refl
text_eq_comm (c ∷ s) [] = refl
text_eq_comm (c ∷ s) (d ∷ t) = ground (arith, text_eq_comm s t)

-- Decimal digits of a number, in front of a text; the number itself is fuel enough.
decimal_onto : ℕ → ℕ → Text → Text
decimal_onto zero n acc = (b'0' + n % 10) ∷ acc
decimal_onto (suc fuel) n acc =
    let higher = decimal_onto fuel (n / 10) ((b'0' + n % 10) ∷ acc) in
    if ltb n 10 then (b'0' + n) ∷ acc else higher

-- `${n}`
unfoldable pub decimal : ℕ → Text
unfolding decimal_onto
decimal n = decimal_onto n n []
