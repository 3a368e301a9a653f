-- ===== src/Ssrf/V6.antt =====
-- The IPv6 half of packages/notifications/src/security/ssrf.ts: parsing an address to its eight
-- groups, and the blocked ones.
use uptimeflow.Common.{
  ℕ, ◌+◌, ◌-◌, ◌*◌, ◌/◌, ◌%◌, Bool, true, not, ◌&&◌, ◌||◌, Option, none, some, List, [], ◌∷◌, ◌++◌,
  ◌==◌, leb, ltb, length, any, all, take, get_elem?, replicate, or_else, and_then, if◌then◌else◌,
}
use uptimeflow.Common.Text.{Text, split, decimal}
use uptimeflow.Ssrf.V4.{is_digit, dot, ipv4_to_int, is_blocked_ipv4}

abbrev pub colon : ℕ
colon = b':'

-- A hexadecimal digit, as `toString(16)` writes it and as `parseInt(g, 16)` reads it.
abbrev pub hex_digit : ℕ → ℕ
hex_digit d = if ltb d 10 then b'0' + d else b'a' + (d - 10)

unfoldable pub hex_value : ℕ → Option ℕ
hex_value c =
    if is_digit c
    then some (c - b'0')
    else if leb b'a' c && leb c b'f'
    then some (c - b'a' + 10)
    else if leb b'A' c && leb c b'F'
    then some (c - b'A' + 10)
    else none

-- `n.toString(16)` of a number below 2 ^ 16
unfoldable pub hex : ℕ → Text
hex n =
    if ltb n 16
    then hex_digit n ∷ []
    else if ltb n 256
    then hex_digit (n / 16) ∷ (hex_digit (n % 16) ∷ [])
    else if ltb n 4096
    then hex_digit (n / 256) ∷ (hex_digit (n / 16 % 16) ∷ (hex_digit (n % 16) ∷ []))
    else hex_digit (n / 4096)
      ∷ (hex_digit (n / 256 % 16) ∷ (hex_digit (n / 16 % 16) ∷ (hex_digit (n % 16) ∷ [])))

-- `input.slice(0, idx + 1)` and `input.slice(idx + 1)` for the last colon of the text.
abbrev cons_before : ℕ → Text × Text → Text × Text
cons_before c (before, after) = (c ∷ before, after)

unfoldable pub split_last : Text → Text × Text
split_last [] = ([], [])
split_last (c ∷ s) =
    let later = cons_before c (split_last s) in
    let here = if c == colon then (c ∷ [], s) else ([], c ∷ s) in
    if any (λ d. d == colon) s then later else here

abbrev pub with_groups : Text → Option ℕ → Option Text
with_groups before none = none
with_groups before (some v4) =
    some (before ++ (hex (v4 / 65536 % 65536) ++ (colon ∷ hex (v4 % 65536))))

unfoldable pub normalize_embedded_v4 : Text → Option Text
unfolding split_last ipv4_to_int
normalize_embedded_v4 input =
    let parts = split_last input in
    if any (λ c. c == dot) input then with_groups parts.0 (ipv4_to_int parts.1) else some input

-- `s.split("::")`
abbrev onto_first : ℕ → List Text → List Text
onto_first c [] = (c ∷ []) ∷ []
onto_first c (t ∷ ts) = (c ∷ t) ∷ ts

unfoldable pub split_double : Text → List Text
split_double [] = [] ∷ []
split_double (c ∷ []) = (c ∷ []) ∷ []
split_double (c ∷ (d ∷ s)) =
    let cut = [] ∷ split_double s in
    let longer = onto_first c (split_double (d ∷ s)) in
    if c == colon && d == colon then cut else longer

-- One to four hexadecimal digits.
unfoldable pub hex_from : ℕ → Text → Option ℕ
unfolding hex_value
hex_from n [] = some n
hex_from n (c ∷ s) = and_then (hex_value c) (λ d. hex_from (n * 16 + d) s)

unfoldable pub group_of : Text → Option ℕ
unfolding hex_from
group_of g = if leb 1 (length g) && leb (length g) 4 then hex_from 0 g else none

abbrev group_onto : Option ℕ → Option (List ℕ) → Option (List ℕ)
group_onto (some g) (some gs) = some (g ∷ gs)
group_onto _ _ = none

unfoldable pub groups_of : List Text → Option (List ℕ)
unfolding group_of
groups_of [] = some []
groups_of (g ∷ gs) = group_onto (group_of g) (groups_of gs)

unfoldable pub to_groups : Text → Option (List ℕ)
unfolding groups_of split
to_groups [] = some []
to_groups (c ∷ s) = groups_of (split colon (c ∷ s))

abbrev eight : Option (List ℕ) → Option (List ℕ)
eight none = none
eight (some gs) = if length gs == 8 then some gs else none

-- The zero groups that "::" stands for: at least one.
abbrev filled : Option (List ℕ) → Option (List ℕ) → Option (List ℕ)
filled (some head) (some tail) =
    if ltb (length head + length tail) 8
    then some (head ++ (replicate (8 - (length head + length tail)) 0 ++ tail))
    else none
filled _ _ = none

unfoldable pub groups_of_halves : List Text → Option (List ℕ)
unfolding to_groups
groups_of_halves (s ∷ []) = eight (to_groups s)
groups_of_halves (s ∷ (t ∷ [])) = filled (to_groups s) (to_groups t)
groups_of_halves _ = none

unfoldable pub parse_normal : Option Text → Option (List ℕ)
unfolding groups_of_halves split_double
parse_normal none = none
parse_normal (some norm) = groups_of_halves (split_double norm)

-- `input.split("%")[0]`
unfoldable pub before_zone : Text → Text
before_zone [] = []
before_zone (c ∷ s) = let rest = c ∷ before_zone s in if c == b'%' then [] else rest

unfoldable pub parse_ipv6 : Text → Option (List ℕ)
unfolding parse_normal normalize_embedded_v4 before_zone
parse_ipv6 input = parse_normal (normalize_embedded_v4 (before_zone input))

unfoldable pub groups_to_v4 : ℕ → ℕ → Text
unfolding decimal
groups_to_v4 g6 g7 =
    decimal (g6 / 256 % 256)
    ++ (dot
        ∷ (decimal (g6 % 256) ++ (dot ∷ (decimal (g7 / 256 % 256) ++ (dot ∷ decimal (g7 % 256))))))

-- `g[i]`; an address has eight groups
abbrev pub group : List ℕ → ℕ → ℕ
group g i = or_else (get_elem? g i) 0

abbrev pub is_zero : ℕ → Bool
is_zero x = x == 0

abbrev pub is_mapped : List ℕ → Bool
is_mapped g = all is_zero (take 5 g) && group g 5 == 0xffff

abbrev pub is_compatible : List ℕ → Bool
is_compatible g = all is_zero (take 6 g) && (not (group g 6 == 0) || not (group g 7 == 0))

abbrev pub is_special_prefix : ℕ → Bool
is_special_prefix first =
    leb 0xfc00 first && leb first 0xfdff
    || (leb 0xfe80 first && leb first 0xfebf || first / 256 % 256 == 0xff)

unfoldable pub blocked_groups : Option (List ℕ) → Bool
unfolding is_blocked_ipv4 groups_to_v4
blocked_groups none = true
blocked_groups (some g) =
    if all is_zero g
    then true
    else if all is_zero (take 7 g) && group g 7 == 1
    then true
    else if is_mapped g || is_compatible g
    then is_blocked_ipv4 (groups_to_v4 (group g 6) (group g 7))
    else is_special_prefix (group g 0)

unfoldable pub is_blocked_ipv6 : Text → Bool
unfolding parse_ipv6 blocked_groups
is_blocked_ipv6 ip = blocked_groups (parse_ipv6 ip)
