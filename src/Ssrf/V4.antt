-- ===== src/Ssrf/V4.antt =====
-- The IPv4 half of packages/notifications/src/security/ssrf.ts: parsing a dotted quad and the
-- blocked ranges. A 32-bit pattern is a number below 2 ^ 32.
use uptimeflow.Common.{
  ℕ, ◌+◌, ◌-◌, ◌*◌, ◌/◌, ◌%◌, ◌^◌, Bool, true, false, ◌&&◌, Option, none, some, List, [], ◌∷◌, ◌==◌,
  leb, length, any, all, and_then, if◌then◌else◌,
}
use uptimeflow.Common.Text.{Text, codes, split}

abbrev pub dot : ℕ
dot = b'.'

-- `\d`
abbrev pub is_digit : ℕ → Bool
is_digit c = leb b'0' c && leb c b'9'

-- `Number(part)` of a text of digits
abbrev pub digits_value : ℕ → Text → ℕ
digits_value n [] = n
digits_value n (c ∷ s) = digits_value (n * 10 + (c - b'0')) s

-- One to three digits, at most 255.
unfoldable pub octet : Text → Option ℕ
octet part =
    if leb 1 (length part) && leb (length part) 3 && all is_digit part
    then (if leb (digits_value 0 part) 255 then some (digits_value 0 part) else none)
    else none

-- `(n << 8) | octet`: the shift wraps at 32 bits and leaves its low eight bits free for the octet.
abbrev pub shift_in : ℕ → ℕ → ℕ
shift_in n o = n * 256 % 2 ^ 32 + o

-- The loop over the parts.
unfoldable pub add_octets : ℕ → List Text → Option ℕ
unfolding octet
add_octets n [] = some n
add_octets n (part ∷ parts) = and_then (octet part) (λ o. add_octets (shift_in n o) parts)

unfoldable pub ipv4_to_int : Text → Option ℕ
unfolding split add_octets
ipv4_to_int ip = if length (split dot ip) == 4 then add_octets 0 (split dot ip) else none

-- `n & mask` for the mask of `bits` leading ones: the low bits are cleared.
abbrev pub masked : ℕ → ℕ → ℕ
masked n bits = n / 2 ^ (32 - bits) * 2 ^ (32 - bits)

abbrev pub same_network : ℕ → ℕ → Option ℕ → Bool
same_network ip bits none = false
same_network ip bits (some base) = masked ip bits == masked base bits

unfoldable pub in_cidr4 : ℕ → Text → ℕ → Bool
unfolding ipv4_to_int
in_cidr4 ip base bits = same_network ip bits (ipv4_to_int base)

abbrev pub blocked_v4 : List (Text × ℕ)
blocked_v4 =
    (codes "0.0.0.0", 8)
    ∷ ((codes "10.0.0.0", 8)
        ∷ ((codes "100.64.0.0", 10)
            ∷ ((codes "127.0.0.0", 8)
                ∷ ((codes "169.254.0.0", 16)
                    ∷ ((codes "172.16.0.0", 12)
                        ∷ ((codes "192.0.0.0", 24)
                            ∷ ((codes "192.0.2.0", 24)
                                ∷ ((codes "192.168.0.0", 16)
                                    ∷ ((codes "198.18.0.0", 15)
                                        ∷ ((codes "198.51.100.0", 24)
                                            ∷ ((codes "203.0.113.0", 24)
                                                ∷ ((codes "224.0.0.0", 4)
                                                    ∷ ((codes "240.0.0.0", 4) ∷ [])))))))))))))

unfoldable pub blocked_number : Option ℕ → Bool
unfolding in_cidr4
blocked_number none = true
blocked_number (some n) = any (λ (r : Text × ℕ). in_cidr4 n r.0 r.1) blocked_v4

unfoldable pub is_blocked_ipv4 : Text → Bool
unfolding ipv4_to_int blocked_number
is_blocked_ipv4 ip = blocked_number (ipv4_to_int ip)
