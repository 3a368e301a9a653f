-- ===== src/Ssrf/Guard.antt =====
-- validateUrl, assertSafeUrl and createSecureLookup of packages/notifications/src/security/ssrf.ts.
-- The URL parser, isIP and the resolver are those of Node.js, and parameters. The wording of an
-- error is left out; its code is kept.
use uptimeflow.Common.{
  ℕ, Bool, true, false, not, ◌&&◌, ◌||◌, Option, none, some, List, [], ◌∷◌, ◌==◌, any,
  if◌then◌else◌,
}
use uptimeflow.Common.Text.{Text, codes, text_eq, ends_with, without_last, lower, is_empty}
use uptimeflow.Ssrf.V4.{dot, is_blocked_ipv4}
use uptimeflow.Ssrf.V6.{is_blocked_ipv6}

-- The fields of a parsed URL that are read here.
pub record Url : Type 0 where
  pub protocol : Text
  pub username : Text
  pub password : Text
  pub hostname : Text

pub data SsrfCode : Type 0 where
  invalid_url protocol credentials blocked_host blocked dns_error no_address : SsrfCode

pub data Checked {ℓ} (A : Type ℓ) : Type ℓ where
  accepted : A → Checked A
  refused : SsrfCode → Checked A

abbrev pub holds_text : List Text → Text → Bool
holds_text ts t = any (text_eq t) ts

abbrev allowed_protocols : List Text
allowed_protocols = codes "http:" ∷ (codes "https:" ∷ [])

abbrev blocked_hostnames : List Text
blocked_hostnames =
    codes "localhost"
    ∷ (codes "metadata.google.internal"
        ∷ (codes "metadata.goog" ∷ (codes "metadata.azure.com" ∷ [])))

-- The option wins over the environment's SSRF_ALLOW_PRIVATE_NETWORKS.
unfoldable pub allow_private_networks : Option Text → Option Bool → Bool
unfolding text_eq
allow_private_networks env (some allow) = allow
allow_private_networks none none = false
allow_private_networks (some flag) none = text_eq flag (codes "true")

abbrev without_first : ℕ → Text → Text
without_first x [] = []
without_first x (c ∷ s) = if c == x then s else c ∷ s

unfoldable pub normalize_host : Text → Text
unfolding without_last
normalize_host hostname = lower (without_last dot (without_last b']' (without_first b'[' hostname)))

abbrev pub is_allowed_protocol : Text → Bool
is_allowed_protocol = holds_text allowed_protocols

abbrev pub is_blocked_host : Text → Bool
is_blocked_host host =
    holds_text blocked_hostnames host
    || (text_eq host (codes "localhost") || ends_with host (codes ".localhost"))

pub record Address : Type 0 where
  pub address : Text
  pub family : ℕ

-- What a lookup hands to its callback.
pub data LookupAnswer : Type 0 where
  failed : LookupAnswer
  rejected : SsrfCode → LookupAnswer
  every : List Address → LookupAnswer
  one : Text → ℕ → LookupAnswer

module _ (is_ip : Text → ℕ) where
  unfoldable pub is_blocked_ip : Text → Bool
  unfolding is_blocked_ipv4 is_blocked_ipv6
  is_blocked_ip ip =
      if is_ip ip == 4
      then is_blocked_ipv4 ip
      else if is_ip ip == 6
      then is_blocked_ipv6 ip
      else true

  abbrev pub is_literal : Text → Bool
  is_literal host = not (is_ip host == 0)

  -- The checks behind the parsing.
  unfoldable pub check_url : Bool → Url → Checked Url
  unfolding normalize_host is_blocked_ip
  check_url allow url =
      if not (is_allowed_protocol url.protocol)
      then refused SsrfCode.protocol
      else if not (is_empty url.username) || not (is_empty url.password)
      then refused SsrfCode.credentials
      else if is_empty (normalize_host url.hostname)
      then refused SsrfCode.invalid_url
      else if not allow && is_blocked_host (normalize_host url.hostname)
      then refused SsrfCode.blocked_host
      else if not allow
          && (is_literal (normalize_host url.hostname)
              && is_blocked_ip (normalize_host url.hostname))
      then refused SsrfCode.blocked
      else accepted url

  module _ (parse_url : Text → Option Url) (lookup_all : Text → Option (List Address)) where
    abbrev pub check_parsed : Bool → Option Url → Checked Url
    check_parsed allow none = refused SsrfCode.invalid_url
    check_parsed allow (some url) = check_url allow url

    unfoldable pub validate_url : Bool → Text → Checked Url
    unfolding check_url
    validate_url allow raw = check_parsed allow (parse_url raw)

    abbrev pub is_blocked_address : Address → Bool
    is_blocked_address a = is_blocked_ip a.address

    unfoldable pub check_addresses : Url → Option (List Address) → Checked Url
    unfolding is_blocked_ip
    check_addresses url none = refused SsrfCode.dns_error
    check_addresses url (some []) = refused SsrfCode.no_address
    check_addresses url (some (a ∷ rest)) =
        if any is_blocked_address (a ∷ rest) then refused SsrfCode.blocked else accepted url

    unfoldable pub resolve_url : Bool → Checked Url → Checked Url
    unfolding check_addresses
    resolve_url allow (refused code) = refused code
    resolve_url allow (accepted url) =
        if allow
        then accepted url
        else if is_literal (normalize_host url.hostname)
        then (if is_blocked_ip (normalize_host url.hostname)
            then refused SsrfCode.blocked
            else accepted url)
        else check_addresses url (lookup_all (normalize_host url.hostname))

    unfoldable pub assert_safe_url : Bool → Text → Checked Url
    unfolding validate_url resolve_url
    assert_safe_url allow raw = resolve_url allow (validate_url allow raw)

    -- The callback of the resolver; `wants_all` is the caller's option `all`.
    unfoldable pub screen : Bool → Option (List Address) → LookupAnswer
    unfolding is_blocked_ip
    screen wants_all none = failed
    screen wants_all (some []) = rejected SsrfCode.no_address
    screen wants_all (some (a ∷ rest)) =
        if any is_blocked_address (a ∷ rest)
        then rejected SsrfCode.blocked
        else if wants_all
        then every (a ∷ rest)
        else one a.address a.family

    -- `dns_lookup` is the resolver with the caller's own options.
    unfoldable pub secure_lookup : (Text → Bool → LookupAnswer) → Bool → Text → Bool → LookupAnswer
    unfolding screen
    secure_lookup dns_lookup allow hostname wants_all =
        if allow then dns_lookup hostname wants_all else screen wants_all (lookup_all hostname)
