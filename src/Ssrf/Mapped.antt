-- ===== src/Ssrf/Mapped.antt =====
-- IPv4 addresses in the notation ::ffff:a.b.c.d: is_blocked_ipv6 of
-- packages/notifications/src/security/ssrf.ts decides them as is_blocked_ipv4 does.
use uptimeflow.Common.{
  ℕ, ◌+◌, ◌*◌, ◌/◌, ◌%◌, ◌<◌, ◌≡◌, refl, sym, ap, ◌∙◌, false, some, [], ◌∷◌, ◌++◌, ◌==◌, any, arith,
}
use uptimeflow.Common.Text.{Text, codes, split, split-first, split-whole}
use uptimeflow.Ssrf.V4.{ipv4_to_int, blocked_number, is_blocked_ipv4}
use uptimeflow.Ssrf.V6.{
  colon, with_groups, before_zone, split_last, normalize_embedded_v4, split_double, group_of,
  groups_of, to_groups, groups_of_halves, parse_normal, parse_ipv6, hex, hex_from, hex_value,
  blocked_groups, is_blocked_ipv6, groups_to_v4,
}
use uptimeflow.Ssrf.Quads.{
  quad, quad_without, quad_dotted, ipv4_to_int-quad, ipv4_to_int-groups_to_v4,
}
use uptimeflow.Ssrf.Hex.{
  group_of-hex, hex_colonless, IsSingle, IsSingle-cons, IsSingle-joined, IsSingle-group,
}

before_zone-whole : (t : Text) → any (λ c. c == b'%') t ≡ false → before_zone t ≡ t
unfolding before_zone
before_zone-whole [] h = refl
before_zone-whole (c ∷ t) h = ground (arith, before_zone-whole t)

abbrev pub prefix : Text
prefix = codes "::ffff:"

split_last-prefix :
    (t : Text) → any (λ c. c == colon) t ≡ false → split_last (prefix ++ t) ≡ (prefix, t)
unfolding split_last
split_last-prefix t h = simp h

-- The groups hi and lo behind the prefix.
abbrev groups : ℕ → ℕ → Text
groups hi lo = hex hi ++ (colon ∷ hex lo)

module _ (hi lo : ℕ) (h : hi < 65536) (k : lo < 65536) where
  IsSingle-tail : IsSingle (codes "ffff:" ++ groups hi lo)
  IsSingle-tail = IsSingle-cons b'f' b'f' _ refl (
      IsSingle-cons b'f' b'f' _ refl (
        IsSingle-cons b'f' b'f' _ refl (
          IsSingle-cons b'f' colon _ refl (
            IsSingle-group (hex hi) (colon ∷ hex lo) hi (group_of-hex hi h) (hex_colonless hi)
              (IsSingle-joined (hex hi) (hex lo) (hex_colonless hi) (hex_colonless lo))))))

  split_double-groups :
      split_double (prefix ++ groups hi lo) ≡ [] ∷ ((codes "ffff:" ++ groups hi lo) ∷ [])
  unfolding split_double
  split_double-groups = ap (λ t. [] ∷ t) IsSingle-tail

  split-groups :
      split colon (codes "ffff:" ++ groups hi lo) ≡ codes "ffff" ∷ (hex hi ∷ (hex lo ∷ []))
  split-groups =
      split-first colon (codes "ffff") (groups hi lo) refl
      ∙ ap (λ t. codes "ffff" ∷ t)
          (split-first colon (hex hi) (hex lo) (hex_colonless hi)
            ∙ ap (λ t. hex hi ∷ t) (split-whole colon (hex lo) (hex_colonless lo)))

  to_groups-groups : to_groups (codes "ffff:" ++ groups hi lo) ≡ some (0xffff ∷ (hi ∷ (lo ∷ [])))
  unfolding to_groups groups_of group_of hex_from hex_value
  to_groups-groups = ap groups_of split-groups ∙ rw (group_of-hex hi h, group_of-hex lo k) refl

  parse_normal-groups :
      parse_normal (some (prefix ++ groups hi lo))
      ≡ some (0 ∷ (0 ∷ (0 ∷ (0 ∷ (0 ∷ (0xffff ∷ (hi ∷ (lo ∷ []))))))))
  unfolding parse_normal groups_of_halves to_groups
  parse_normal-groups = rw (split_double-groups, to_groups-groups) refl

  blocked-groups :
      blocked_groups (some (0 ∷ (0 ∷ (0 ∷ (0 ∷ (0 ∷ (0xffff ∷ (hi ∷ (lo ∷ [])))))))))
      ≡ is_blocked_ipv4 (groups_to_v4 hi lo)
  unfolding blocked_groups
  blocked-groups = refl

module _ (a b c d : ℕ) (ha : a < 256) (hb : b < 256) (hc : c < 256) (hd : d < 256) where
  abbrev hi : ℕ
  hi = (a * 16777216 + b * 65536 + c * 256 + d) / 65536 % 65536

  abbrev lo : ℕ
  lo = (a * 16777216 + b * 65536 + c * 256 + d) % 65536

  normalize-mapped : normalize_embedded_v4 (prefix ++ quad a b c d) ≡ some (prefix ++ groups hi lo)
  unfolding normalize_embedded_v4
  normalize-mapped = rw (quad_dotted a b c d ha hb hc hd) (
      ap (λ (p : Text × Text). with_groups p.0 (ipv4_to_int p.1))
        (split_last-prefix (quad a b c d) (quad_without a b c d ha hb hc hd colon refl refl))
      ∙ ap (with_groups prefix) (ipv4_to_int-quad a b c d ha hb hc hd))

  parse_ipv6-mapped :
      parse_ipv6 (prefix ++ quad a b c d)
      ≡ some (0 ∷ (0 ∷ (0 ∷ (0 ∷ (0 ∷ (0xffff ∷ (hi ∷ (lo ∷ []))))))))
  unfolding parse_ipv6
  parse_ipv6-mapped =
      ap (λ t. parse_normal (normalize_embedded_v4 t))
        (before_zone-whole (prefix ++ quad a b c d)
          (quad_without a b c d ha hb hc hd b'%' refl refl))
      ∙ ap parse_normal normalize-mapped
      ∙ parse_normal-groups hi lo (omega arith) (omega arith)

  same_number : ipv4_to_int (groups_to_v4 hi lo) ≡ ipv4_to_int (quad a b c d)
  same_number =
      ipv4_to_int-groups_to_v4 hi lo (omega arith) (omega arith)
      ∙ ap some (omega arith)
      ∙ sym (ipv4_to_int-quad a b c d ha hb hc hd)

  -- The IPv6 address ::ffff:a.b.c.d is blocked exactly where the IPv4 address a.b.c.d is.
  pub is_blocked_ipv6-mapped :
      is_blocked_ipv6 (prefix ++ quad a b c d) ≡ is_blocked_ipv4 (quad a b c d)
  unfolding is_blocked_ipv6 is_blocked_ipv4
  is_blocked_ipv6-mapped =
      ap blocked_groups parse_ipv6-mapped
      ∙ blocked-groups hi lo (omega arith) (omega arith)
      ∙ ap blocked_number same_number
