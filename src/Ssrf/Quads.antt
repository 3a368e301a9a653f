-- ===== src/Ssrf/Quads.antt =====
-- Dotted quads as packages/notifications/src/security/ssrf.ts prints and parses them.
use uptimeflow.Common.{
  ℕ, ◌+◌, ◌*◌, ◌/◌, ◌%◌, ◌<◌, ◌≡◌, refl, ap, ◌∙◌, Bool, true, false, ◌&&◌, Option, none, some, [],
  ◌∷◌, ◌++◌, ◌==◌, any, any-append, all, all_below, all_below-holds, arith,
}
use uptimeflow.Common.Text.{Text, split, split-first, split-whole, decimal}
use uptimeflow.Ssrf.V4.{dot, is_digit, octet, add_octets, ipv4_to_int}
use uptimeflow.Ssrf.V6.{groups_to_v4}

-- `a.b.c.d`
abbrev pub quad : ℕ → ℕ → ℕ → ℕ → Text
quad a b c d = decimal a ++ (dot ∷ (decimal b ++ (dot ∷ (decimal c ++ (dot ∷ decimal d)))))

abbrev is_some_of : ℕ → Option ℕ → Bool
is_some_of n none = false
is_some_of n (some m) = m == n

is_some_of-eq : (n : ℕ) (o : Option ℕ) → is_some_of n o ≡ true → o ≡ some n
is_some_of-eq n none h = ground arith
is_some_of-eq n (some m) h = ground arith

abbrev prints_well : ℕ → Bool
prints_well b = is_some_of b (octet (decimal b)) && all is_digit (decimal b)

bytes_print_well : all_below 256 prints_well ≡ true
unfolding all_below octet decimal
bytes_print_well = refl

pub octet-decimal : (b : ℕ) → b < 256 → octet (decimal b) ≡ some b
octet-decimal b h =
    is_some_of-eq b (octet (decimal b))
      (ground (arith, all_below-holds 256 prints_well b bytes_print_well h))

-- A mark that is no digit does not stand among digits.
digits_without :
    (x : ℕ) (t : Text) → is_digit x ≡ false → all is_digit t ≡ true → any (λ c. c == x) t ≡ false
digits_without x [] n h = refl
digits_without x (c ∷ t) n h = ground (arith, digits_without x t)

pub decimal_without :
    (x : ℕ) → is_digit x ≡ false → (b : ℕ) → b < 256 → any (λ c. c == x) (decimal b) ≡ false
decimal_without x n b h =
    digits_without x (decimal b) n
      (ground (arith, all_below-holds 256 prints_well b bytes_print_well h))

pub decimal_dotless : (b : ℕ) → b < 256 → any (λ c. c == dot) (decimal b) ≡ false
decimal_dotless = decimal_without dot refl

module _ (a b c d : ℕ) (ha : a < 256) (hb : b < 256) (hc : c < 256) (hd : d < 256) where
  split-quad : split dot (quad a b c d) ≡ decimal a ∷ (decimal b ∷ (decimal c ∷ (decimal d ∷ [])))
  split-quad =
      split-first dot (decimal a) _ (decimal_dotless a ha)
      ∙ ap (λ t. decimal a ∷ t)
          (split-first dot (decimal b) _ (decimal_dotless b hb)
            ∙ ap (λ t. decimal b ∷ t)
                (split-first dot (decimal c) _ (decimal_dotless c hc)
                  ∙ ap (λ t. decimal c ∷ t) (split-whole dot (decimal d) (decimal_dotless d hd))))

  -- Only digits and dots stand in a dotted quad.
  pub quad_without :
      (x : ℕ) → is_digit x ≡ false → (dot == x) ≡ false → any (λ c. c == x) (quad a b c d) ≡ false
  quad_without x n e =
      rw
        (
          any-append (λ y. y == x),
          decimal_without x n a ha,
          e,
          any-append (λ y. y == x) (decimal b),
          decimal_without x n b hb,
          any-append (λ y. y == x) (decimal c),
          decimal_without x n c hc,
          decimal_without x n d hd,
        )
        (simp e)

  pub quad_dotted : any (λ c. c == dot) (quad a b c d) ≡ true
  quad_dotted = rw (any-append (λ y. y == dot), decimal_dotless a ha) refl

  pub ipv4_to_int-quad : ipv4_to_int (quad a b c d) ≡ some (a * 16777216 + b * 65536 + c * 256 + d)
  unfolding ipv4_to_int add_octets
  ipv4_to_int-quad = rw split-quad (
      simp (octet-decimal a ha, octet-decimal b hb, octet-decimal c hc, octet-decimal d hd)
        (ap some (omega arith)))

-- The text that is printed of two 16-bit groups is parsed to the number that they make.
pub ipv4_to_int-groups_to_v4 :
    (hi lo : ℕ)
    → hi < 65536
    → lo < 65536
    → ipv4_to_int (groups_to_v4 hi lo) ≡ some (hi * 65536 + lo)
unfolding groups_to_v4
ipv4_to_int-groups_to_v4 hi lo h k =
    ipv4_to_int-quad (hi / 256 % 256) (hi % 256) (lo / 256 % 256) (lo % 256) (omega arith)
      (omega arith) (omega arith) (omega arith)
    ∙ ap some (omega arith)
