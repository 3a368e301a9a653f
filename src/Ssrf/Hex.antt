-- ===== src/Ssrf/Hex.antt =====
-- Hexadecimal groups as packages/notifications/src/security/ssrf.ts prints and parses them.
use uptimeflow.Common.{
  ℕ, ◌/◌, ◌%◌, ◌<◌, ◌≡◌, refl, ap, false, ◌&&◌, some, [], ◌∷◌, ◌++◌, ◌==◌, any, ltb, Bool-cases,
  inl, inr, arith,
}
use uptimeflow.Common.Text.{Text}
use uptimeflow.Ssrf.V6.{colon, hex_digit, hex_value, hex, hex_from, group_of, split_double}

hex_value-hex_digit : (d : ℕ) → d < 16 → hex_value (hex_digit d) ≡ some d
unfolding hex_value
hex_value-hex_digit d h = ground arith

hex_digit_colonless : (d : ℕ) → (hex_digit d == colon) ≡ false
hex_digit_colonless d = ground arith

-- A group is parsed to the number that it was printed of.
pub group_of-hex : (n : ℕ) → n < 65536 → group_of (hex n) ≡ some n
unfolding group_of hex hex_from
group_of-hex n h = elim (Bool-cases (ltb n 16)) [
  | inl e ↦ rw e (rw (hex_value-hex_digit n (ground (arith, e))) (ap some (omega arith)))
  | inr e ↦ elim (Bool-cases (ltb n 256)) [
    | inl f ↦
        rw (e, f)
          (rw
            (
              hex_value-hex_digit (n / 16) (ground (arith, f)),
              hex_value-hex_digit (n % 16) (omega arith),
            )
            (ap some (omega arith)))
    | inr f ↦ elim (Bool-cases (ltb n 4096)) [
      | inl g ↦
          rw (e, f, g)
            (rw
              (
                hex_value-hex_digit (n / 256) (ground (arith, g)),
                hex_value-hex_digit (n / 16 % 16) (omega arith),
                hex_value-hex_digit (n % 16) (omega arith),
              )
              (ap some (omega arith)))
      | inr g ↦
          rw (e, f, g)
            (rw
              (
                hex_value-hex_digit (n / 4096) (omega arith),
                hex_value-hex_digit (n / 256 % 16) (omega arith),
                hex_value-hex_digit (n / 16 % 16) (omega arith),
                hex_value-hex_digit (n % 16) (omega arith),
              )
              (ap some (omega arith)))
    ]
  ]
]

pub hex_colonless : (n : ℕ) → any (λ c. c == colon) (hex n) ≡ false
unfolding hex
hex_colonless n = elim (Bool-cases (ltb n 16)) [
  | inl e ↦ rw (e) (simp hex_digit_colonless)
  | inr e ↦ elim (Bool-cases (ltb n 256)) [
    | inl f ↦ rw (e, f) (simp hex_digit_colonless)
    | inr f ↦ elim (Bool-cases (ltb n 4096)) [
      | inl g ↦ rw (e, f, g) (simp hex_digit_colonless)
      | inr g ↦ rw (e, f, g) (simp hex_digit_colonless)
    ]
  ]
]

-- The text has no double colon.
abbrev pub IsSingle : Text → Type 0
IsSingle t = split_double t ≡ t ∷ []

pub IsSingle-cons :
    (c d : ℕ) (s : Text)
    → (c == colon && d == colon) ≡ false
    → IsSingle (d ∷ s)
    → IsSingle (c ∷ (d ∷ s))
unfolding split_double
IsSingle-cons c d s e h = rw (e, h) refl

IsSingle-colonless : (c : ℕ) (t : Text) → any (λ x. x == colon) (c ∷ t) ≡ false → IsSingle (c ∷ t)
unfolding split_double
IsSingle-colonless c [] h = refl
IsSingle-colonless c (d ∷ t) h =
    IsSingle-cons c d t (ground (arith, h)) (IsSingle-colonless d t (ground (arith, h)))

IsSingle-after_colon : (t : Text) → any (λ x. x == colon) t ≡ false → IsSingle (colon ∷ t)
unfolding split_double
IsSingle-after_colon [] h = refl
IsSingle-after_colon (d ∷ t) h =
    IsSingle-cons colon d t (ground (arith, h)) (IsSingle-colonless d t h)

-- Two texts without colons, joined by one.
pub IsSingle-joined :
    (s t : Text)
    → any (λ x. x == colon) s ≡ false
    → any (λ x. x == colon) t ≡ false
    → IsSingle (s ++ (colon ∷ t))
IsSingle-joined [] t h k = IsSingle-after_colon t k
IsSingle-joined (c ∷ []) t h k =
    IsSingle-cons c colon t (ground (arith, h)) (IsSingle-after_colon t k)
IsSingle-joined (c ∷ (d ∷ s)) t h k =
    IsSingle-cons c d (s ++ (colon ∷ t)) (ground (arith, h))
      (IsSingle-joined (d ∷ s) t (ground (arith, h)) k)

-- A colon in front of a group makes no double colon.
pub IsSingle-group :
    (s t : Text) (n : ℕ)
    → group_of s ≡ some n
    → any (λ x. x == colon) s ≡ false
    → IsSingle (s ++ t)
    → IsSingle (colon ∷ (s ++ t))
unfolding group_of
IsSingle-group [] t n e h k = absurd (ground (arith, e))
IsSingle-group (d ∷ s) t n e h k = IsSingle-cons colon d (s ++ t) (ground (arith, h)) k
