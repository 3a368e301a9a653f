-- ===== src/CustomDomains/Hostnames.antt =====
-- packages/shared/src/domains.ts. A text is taken to have no letters beyond ASCII, so that its lower
-- case is that of ASCII.
use uptimeflow.Common.{
  ℕ, Bool, false, not, ◌&&◌, ◌||◌, Option, none, some, List, [], ◌∷◌, ◌++◌, ◌==◌, leb, any, all,
  length, or_else, if◌then◌else◌,
}
use uptimeflow.Common.Text.{
  Text, codes, text_eq, starts_with, split, without_last, lower, last_part, ends_in,
}

-- White space, as `trim` has it
abbrev pub is_space : ℕ → Bool
is_space c =
    leb 9 c && leb c 13
    || c == 32
    || c == 160
    || c == 0xfeff
    || c == 0x1680
    || leb 0x2000 c && leb c 0x200a
    || c == 0x2028
    || c == 0x2029
    || c == 0x202f
    || c == 0x205f
    || c == 0x3000

unfoldable pub trim_start : Text → Text
trim_start [] = []
trim_start (c ∷ s) = let rest = trim_start s in if is_space c then rest else c ∷ s

unfoldable pub trim_end : Text → Text
trim_end [] = []
trim_end (c ∷ s) = if is_space c && all is_space s then [] else c ∷ trim_end s

abbrev pub is_letter : ℕ → Bool
is_letter c = leb b'a' c && leb c b'z'

abbrev pub is_digit : ℕ → Bool
is_digit c = leb b'0' c && leb c b'9'

abbrev pub is_scheme_char : ℕ → Bool
is_scheme_char c = is_letter c || is_digit c || c == b'+' || c == b'.' || c == b'-'

-- The text behind the scheme, where a run of its characters ends in "://".
abbrev drop_three : Text → Text
drop_three (c ∷ (d ∷ (e ∷ s))) = s
drop_three s = []

unfoldable pub after_scheme : Text → Option Text
unfolding starts_with
after_scheme [] = none
after_scheme (c ∷ s) =
    let later = after_scheme s in
    if is_scheme_char c
    then later
    else if starts_with (c ∷ s) (codes "://")
    then some (drop_three (c ∷ s))
    else none

unfoldable pub strip_scheme : Text → Text
unfolding after_scheme
strip_scheme [] = []
strip_scheme (c ∷ s) = if is_letter c then or_else (after_scheme s) (c ∷ s) else c ∷ s

-- `s.split(sep)[0]`
unfoldable pub before : ℕ → Text → Text
before sep [] = []
before sep (c ∷ s) = let rest = c ∷ before sep s in if c == sep then [] else rest

-- LABEL: 1 to 63 of a-z, 0-9 and "-", neither beginning nor ending in "-"
abbrev pub is_label_char : ℕ → Bool
is_label_char c = is_letter c || is_digit c || c == b'-'

abbrev begins_with : ℕ → Text → Bool
begins_with x [] = false
begins_with x (c ∷ s) = c == x

unfoldable pub is_label : Text → Bool
unfolding ends_in
is_label l =
    leb 1 (length l)
    && leb (length l) 63
    && all is_label_char l
    && not (begins_with b'-' l)
    && not (ends_in b'-' l)

-- /^\d+(\.\d+){3}$/
abbrev is_number : Text → Bool
is_number s = leb 1 (length s) && all is_digit s

abbrev is_bare_ipv4 : List Text → Bool
is_bare_ipv4 parts = length parts == 4 && all is_number parts

abbrev pub is_tld : Text → Bool
is_tld t = leb 2 (length t) && all is_letter t

abbrev pub is_valid_host : Text → Bool
is_valid_host host =
    leb 1 (length host)
    && leb (length host) 253
    && not (any (λ c. c == b'*') host)
    && not (text_eq host (codes "localhost"))
    && not (is_bare_ipv4 (split b'.' host) || any (λ c. c == b':') host)
    && leb 2 (length (split b'.' host))
    && all is_label (split b'.' host)
    && is_tld (last_part (split b'.' host))

-- Scheme, path, port and a trailing dot are cut off.
unfoldable pub host_of : Text → Text
unfolding trim_start trim_end strip_scheme before without_last
host_of input =
    without_last b'.'
      (before b':' (before b'/' (strip_scheme (lower (trim_start (trim_end input))))))

unfoldable pub normalize_domain : Text → Option Text
unfolding host_of is_label split text_eq
normalize_domain input = if is_valid_host (host_of input) then some (host_of input) else none

abbrev pub default_challenge_prefix : Text
default_challenge_prefix = codes "_uptimeflow-challenge"

pub record DnsRecord : Type 0 where
  pub name : Text
  pub value : Text

pub record DnsInstructions : Type 0 where
  pub txt_record : DnsRecord
  pub cname_record : DnsRecord

abbrev pub challenge_hostname : Text → Option Text → Text
challenge_hostname domain prefix = or_else prefix default_challenge_prefix ++ (b'.' ∷ domain)

abbrev pub build_dns_instructions : Text → Text → Text → Option Text → DnsInstructions
build_dns_instructions domain token cname_target prefix = record {
  txt_record = record {
    name = or_else prefix default_challenge_prefix ++ (b'.' ∷ domain);
    value = token;
  };
  cname_record = record { name = domain; value = cname_target };
}
