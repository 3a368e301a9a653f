-- ===== src/Ssrf/Tests.antt =====
-- Addresses and names as in packages/notifications/tests/ssrf.test.ts, with a resolver that knows
-- two names.
use uptimeflow.Common.{
  ℕ, ◌+◌, ◌*◌, ◌≡◌, refl, ◌↔◌, Bool, true, false, Option, none, some, List, [], ◌∷◌, ◌++◌, any,
  if◌then◌else◌, arith, ◌==◌,
}
use uptimeflow.Common.Text.{Text, codes, text_eq, ends_with, without_last}
use uptimeflow.Ssrf.V4.{is_blocked_ipv4, ipv4_to_int}
use uptimeflow.Ssrf.V6.{colon, is_blocked_ipv6, parse_ipv6, hex, groups_to_v4}
use uptimeflow.Ssrf.Quads.{quad, ipv4_to_int-groups_to_v4}
use uptimeflow.Ssrf.Ranges.{reserved, is_blocked_ipv4-reserved}
use uptimeflow.Ssrf.Mapped.{prefix, is_blocked_ipv6-mapped}
use uptimeflow.Ssrf.Guard.{
  Url, Address, LookupAnswer, failed, one, accepted, refused, SsrfCode, normalize_host,
  assert_safe_url, secure_lookup, check_url, validate_url, resolve_url, check_addresses,
  is_blocked_ip, screen,
}
use uptimeflow.Ssrf.Safety.{has_safe_shape, is_public, assert_safe_url-safe}

metadata_service : is_blocked_ipv4 (codes "169.254.169.254") ≡ true
unfolding is_blocked_ipv4
metadata_service = refl

public_address : is_blocked_ipv4 (codes "93.184.216.34") ≡ false
unfolding is_blocked_ipv4
public_address = refl

garbage : is_blocked_ipv4 (codes "999.1.1.1") ≡ true
unfolding is_blocked_ipv4
garbage = refl

embedded :
    parse_ipv6 (codes "::ffff:127.0.0.1")
    ≡ some (0 ∷ (0 ∷ (0 ∷ (0 ∷ (0 ∷ (0xffff ∷ (0x7f00 ∷ (1 ∷ []))))))))
unfolding parse_ipv6 hex
embedded = refl

mapped_private : is_blocked_ipv6 (codes "::ffff:10.0.0.1") ≡ true
unfolding is_blocked_ipv6 hex
mapped_private = refl

public_v6 : is_blocked_ipv6 (codes "2606:4700:4700::1111") ≡ false
unfolding is_blocked_ipv6
public_v6 = refl

-- Site-local addresses, and IPv4 addresses behind the translation prefix 64:ff9b::/96.
site_local : is_blocked_ipv6 (codes "fec0::1") ≡ false
unfolding is_blocked_ipv6
site_local = refl

translated_private : is_blocked_ipv6 (codes "64:ff9b::10.0.0.1") ≡ false
unfolding is_blocked_ipv6 hex
translated_private = refl

-- An isIP that knows dotted quads, and takes what has a colon for IPv6.
abbrev quad_kind : Option ℕ → ℕ
quad_kind none = 0
quad_kind (some n) = 4

abbrev is_ip : Text → ℕ
is_ip t = if any (λ c. c == colon) t then 6 else quad_kind (ipv4_to_int t)

abbrev page : Text → Url
page host = record { protocol = codes "https:"; username = []; password = []; hostname = host }

-- A parser of `https://` URLs without a path.
abbrev parse : Text → Option Url
parse raw = some (page raw)

abbrev found : List Address
found =
    record { address = codes "93.184.216.34"; family = 4 }
    ∷ (record { address = codes "2606:4700:4700::1111"; family = 6 } ∷ [])

abbrev resolver : Text → Option (List Address)
resolver host =
    if text_eq host (codes "example.com")
    then some found
    else if text_eq host (codes "rebound.test")
    then some (record { address = codes "127.0.0.1"; family = 4 } ∷ found)
    else none

public_name :
    assert_safe_url is_ip parse resolver false (codes "Example.com.")
    ≡ accepted (page (codes "Example.com."))
unfolding assert_safe_url validate_url check_url resolve_url check_addresses is_blocked_ip
    is_blocked_ipv4 is_blocked_ipv6 normalize_host ends_with text_eq without_last
public_name = refl

rebound_name :
    assert_safe_url is_ip parse resolver false (codes "rebound.test") ≡ refused SsrfCode.blocked
unfolding assert_safe_url validate_url check_url resolve_url check_addresses is_blocked_ip
    is_blocked_ipv4 is_blocked_ipv6 normalize_host ends_with text_eq without_last
rebound_name = refl

ipv4_to_int-groups_to_v4_example : ipv4_to_int (groups_to_v4 0x7f00 1) ≡ some (0x7f00 * 65536 + 1)
ipv4_to_int-groups_to_v4_example = ipv4_to_int-groups_to_v4 0x7f00 1 (omega arith) (omega arith)

is_blocked_ipv4-reserved_example : is_blocked_ipv4 (quad 172 31 255 255) ≡ reserved 172 31 255
is_blocked_ipv4-reserved_example =
    is_blocked_ipv4-reserved 172 31 255 255 (omega arith) (omega arith) (omega arith) (omega arith)

is_blocked_ipv6-mapped_example :
    is_blocked_ipv6 (prefix ++ quad 10 0 0 1) ≡ is_blocked_ipv4 (quad 10 0 0 1)
is_blocked_ipv6-mapped_example =
    is_blocked_ipv6-mapped 10 0 0 1 (omega arith) (omega arith) (omega arith) (omega arith)

assert_safe_url-safe_example :
    (assert_safe_url is_ip parse resolver false (codes "rebound.test")
      ≡ accepted (page (codes "rebound.test")))
    ↔ ((parse (codes "rebound.test") ≡ some (page (codes "rebound.test")))
        × (has_safe_shape is_ip parse resolver (page (codes "rebound.test")) ≡ true)
        × (is_public is_ip parse resolver (normalize_host (codes "rebound.test")) ≡ true))
assert_safe_url-safe_example =
    assert_safe_url-safe is_ip parse resolver (codes "rebound.test") (page (codes "rebound.test"))

abbrev plain_lookup : Text → Bool → LookupAnswer
plain_lookup hostname wants_all = failed

delivers_the_first :
    secure_lookup is_ip parse resolver plain_lookup false (codes "example.com") false
    ≡ one (codes "93.184.216.34") 4
unfolding secure_lookup screen is_blocked_ip is_blocked_ipv4 is_blocked_ipv6 text_eq
delivers_the_first = refl
