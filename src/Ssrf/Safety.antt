-- ===== src/Ssrf/Safety.antt =====
-- What the guard of packages/notifications/src/security/ssrf.ts lets through.
use uptimeflow.Common.{
  ℕ, ◌≡◌, ap, sym, subst, ◌↔◌, Bool, true, false, not, ◌&&◌, ◌||◌, Option, none, some, List, [],
  ◌∷◌, any, map, if◌then◌else◌, arith,
}
use uptimeflow.Common.Text.{Text, is_empty}
use uptimeflow.Ssrf.Guard.{
  Url, Address, SsrfCode, check_parsed, Checked, accepted, refused, LookupAnswer, failed, rejected,
  every, one, normalize_host, is_allowed_protocol, is_blocked_host, is_blocked_ip, is_literal,
  check_url, validate_url, is_blocked_address, check_addresses, resolve_url, assert_safe_url,
  screen,
}

abbrev pub address_of : Address → Text
address_of a = a.address

-- The addresses that a lookup gives to the socket.
abbrev pub delivered : LookupAnswer → List Text
delivered failed = []
delivered (rejected code) = []
delivered (every found) = map address_of found
delivered (one address family) = address ∷ []

-- The checks of a URL's shape, in their order.
gates :
    (p u w e h l : Bool) (url v : Url)
    → ((if not p
          then refused SsrfCode.protocol
          else if not u || not w
          then refused SsrfCode.credentials
          else if e
          then refused SsrfCode.invalid_url
          else if h
          then refused SsrfCode.blocked_host
          else if l
          then refused SsrfCode.blocked
          else accepted url)
        ≡ accepted v)
      ↔ ((url ≡ v) × ((p && (u && w) && (not e && not h) && not l) ≡ true))
gates false u w e h l url v = ground arith
gates true false w e h l url v = ground arith
gates true true false e h l url v = ground arith
gates true true true true h l url v = ground arith
gates true true true false true l url v = ground arith
gates true true true false false true url v = ground arith
gates true true true false false false url v = ground arith

module _ (is_ip : Text → ℕ) (parse_url : Text → Option Url)
    (lookup_all : Text → Option (List Address)) where
  abbrev reaches_public : Option (List Address) → Bool
  reaches_public none = false
  reaches_public (some []) = false
  reaches_public (some (a ∷ rest)) =
      not (any (is_blocked_address is_ip parse_url lookup_all) (a ∷ rest))

  -- A literal address is public; a name resolves, and to public addresses only.
  abbrev pub is_public : Text → Bool
  is_public host =
      if is_literal is_ip host
      then not (is_blocked_ip is_ip host)
      else reaches_public (lookup_all host)

  abbrev pub has_safe_shape : Url → Bool
  has_safe_shape url =
      is_allowed_protocol url.protocol
      && (is_empty url.username && is_empty url.password)
      && (not (is_empty (normalize_host url.hostname))
          && not (is_blocked_host (normalize_host url.hostname)))
      && not (
          is_literal is_ip (normalize_host url.hostname)
          && is_blocked_ip is_ip (normalize_host url.hostname))

  resolves :
      (l b : Bool) (url u : Url) (found : Option (List Address))
      → ((if l
            then (if b then refused SsrfCode.blocked else accepted url)
            else check_addresses is_ip parse_url lookup_all url found)
          ≡ accepted u)
        ↔ ((url ≡ u) × ((if l then not b else reaches_public found) ≡ true))
  unfolding check_addresses
  resolves true b url u found = ground arith
  resolves false b url u none = ground arith
  resolves false b url u (some []) = ground arith
  resolves false b url u (some (a ∷ rest)) = ground arith

  shape_safe :
      (url u : Url)
      → (check_url is_ip false url ≡ accepted u) ↔ ((url ≡ u) × (has_safe_shape url ≡ true))
  unfolding check_url
  shape_safe url u = gates _ _ _ _ _ _ url u

  resolve_url-accepted :
      (url u : Url)
      → (resolve_url is_ip parse_url lookup_all false (accepted url) ≡ accepted u)
        ↔ ((url ≡ u) × (is_public (normalize_host url.hostname) ≡ true))
  unfolding resolve_url
  resolve_url-accepted url u = resolves _ _ url u (lookup_all (normalize_host url.hostname))

  checked_safe :
      (c : Checked Url) (u : Url)
      → (resolve_url is_ip parse_url lookup_all false c ≡ accepted u)
        ↔ ((c ≡ accepted u) × (is_public (normalize_host u.hostname) ≡ true))
  unfolding resolve_url
  checked_safe (refused code) u = (λ h. cc, λ h. cc)
  checked_safe (accepted url) u = (
    λ h.
        let (e, p) = (resolve_url-accepted url u).0 h in
        (ap accepted e, subst (λ (v : Url). is_public (normalize_host v.hostname) ≡ true) e p),
    λ (c, p).
        let e : url ≡ u = ground (arith, c) in
        (resolve_url-accepted url u).1
          (e, subst (λ (v : Url). is_public (normalize_host v.hostname) ≡ true) (sym e) p),
  )

  parsed_safe :
      (o : Option Url) (url : Url)
      → (check_parsed is_ip parse_url lookup_all false o ≡ accepted url)
        ↔ ((o ≡ some url) × (has_safe_shape url ≡ true))
  parsed_safe none url = (λ h. cc, λ h. cc)
  parsed_safe (some v) url = (
    λ h.
        let (e, p) = (shape_safe v url).0 h in
        (ap some e, subst (λ w. has_safe_shape w ≡ true) e p),
    λ (o, p).
        let e : v ≡ url = ground (arith, o) in
        (shape_safe v url).1 (e, subst (λ w. has_safe_shape w ≡ true) (sym e) p),
  )

  -- With private networks shut, the guard accepts exactly the URLs that parse, have a safe shape, and
  -- whose host is public.
  pub assert_safe_url-safe :
      (raw : Text) (url : Url)
      → (assert_safe_url is_ip parse_url lookup_all false raw ≡ accepted url) ↔ (
          (parse_url raw ≡ some url)
          × (has_safe_shape url ≡ true)
          × (is_public (normalize_host url.hostname) ≡ true))
  unfolding assert_safe_url validate_url
  assert_safe_url-safe raw url = (
    λ h.
        let (c, p) = (checked_safe (validate_url is_ip parse_url lookup_all false raw) url).0 h in
        let (e, q) = (parsed_safe (parse_url raw) url).0 c in (e, q, p),
    λ (e, q, p).
        (checked_safe (validate_url is_ip parse_url lookup_all false raw) url).1
          ((parsed_safe (parse_url raw) url).1 (e, q), p),
  )

  abbrev screened : Bool → Option (List Address) → List Text
  screened wants_all found = delivered (screen is_ip parse_url lookup_all wants_all found)
