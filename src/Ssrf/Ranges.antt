-- ===== src/Ssrf/Ranges.antt =====
-- What the blocked ranges of packages/notifications/src/security/ssrf.ts say of the four octets of
-- an address.
use mathlib.Core.Bool.{or-false}
use uptimeflow.Common.{
  ℕ, ◌+◌, ◌*◌, ◌<◌, ◌≡◌, refl, ap, ◌∙◌, Bool, ◌&&◌, ◌||◌, some, ◌==◌, leb, arith,
}
use uptimeflow.Ssrf.V4.{
  masked, in_cidr4, ipv4_to_int, add_octets, octet, blocked_number, is_blocked_ipv4,
}
use uptimeflow.Ssrf.Quads.{quad, ipv4_to_int-quad}

-- The special-purpose addresses, octet by octet.
abbrev pub reserved : ℕ → ℕ → ℕ → Bool
reserved a b c =
    a == 0
    || (a == 10
        || (a == 100 && (leb 64 b && leb b 127)
            || (a == 127
                || (a == 169 && b == 254
                    || (a == 172 && (leb 16 b && leb b 31)
                        || (a == 192 && (b == 0 && c == 0)
                            || (a == 192 && (b == 0 && c == 2)
                                || (a == 192 && b == 168
                                    || (a == 198 && (leb 18 b && leb b 19)
                                        || (a == 198 && (b == 51 && c == 100)
                                            || (a == 203 && (b == 0 && c == 113)
                                                || (leb 224 a && leb a 239
                                                    || leb 240 a && leb a 255))))))))))))

module _ (a b c d : ℕ) (ha : a < 256) (hb : b < 256) (hc : c < 256) (hd : d < 256) where
  abbrev n : ℕ
  n = a * 16777216 + b * 65536 + c * 256 + d

  in_8 : (k : ℕ) → (masked n 8 == k * 16777216) ≡ (a == k)
  in_8 k = ground arith

  in_16 :
      (j k : ℕ) → j < 256 → k < 256 → (masked n 16 == j * 16777216 + k * 65536) ≡ (a == j && b == k)
  in_16 j k hj hk = ground arith

  in_24 :
      (i j k : ℕ)
      → i < 256
      → j < 256
      → k < 256
      → (masked n 24 == i * 16777216 + j * 65536 + k * 256) ≡ (a == i && (b == j && c == k))
  in_24 i j k hi hj hk = ground arith

  in_cgnat : (masked n 10 == 1681915904) ≡ (a == 100 && (leb 64 b && leb b 127))
  in_cgnat = ground arith

  in_private_b : (masked n 12 == 2886729728) ≡ (a == 172 && (leb 16 b && leb b 31))
  in_private_b = ground arith

  in_benchmark : (masked n 15 == 3323068416) ≡ (a == 198 && (leb 18 b && leb b 19))
  in_benchmark = ground arith

  in_multicast : (masked n 4 == 3758096384) ≡ (leb 224 a && leb a 239)
  in_multicast = ground arith

  in_reserved : (masked n 4 == 4026531840) ≡ (leb 240 a && leb a 255)
  in_reserved = ground arith

  blocked_number_lem : blocked_number (some n) ≡ reserved a b c
  unfolding blocked_number in_cidr4 ipv4_to_int add_octets octet
  blocked_number_lem =
      rw
        (
          in_8 0,
          in_8 10,
          in_cgnat,
          in_8 127,
          in_16 169 254 (omega arith) (omega arith),
          in_private_b,
          in_24 192 0 0 (omega arith) (omega arith) (omega arith),
          in_24 192 0 2 (omega arith) (omega arith) (omega arith),
          in_16 192 168 (omega arith) (omega arith),
          in_benchmark,
          in_24 198 51 100 (omega arith) (omega arith) (omega arith),
          in_24 203 0 113 (omega arith) (omega arith) (omega arith),
          in_multicast,
          in_reserved,
          or-false,
        )
        refl

  -- An address in dotted form is blocked exactly where its octets are those of a special-purpose range.
  pub is_blocked_ipv4-reserved : is_blocked_ipv4 (quad a b c d) ≡ reserved a b c
  unfolding is_blocked_ipv4
  is_blocked_ipv4-reserved =
      ap blocked_number (ipv4_to_int-quad a b c d ha hb hc hd) ∙ blocked_number_lem
