-- ===== src/Checks/Comparators.antt =====
-- packages/monitoring/src/assertions.ts: the comparators and the values that they observe.
use uptimeflow.Common.{
  ℕ, Bool, true, false, not, ◌&&◌, Option, none, some, List, [], ◌∷◌, ◌++◌, if◌then◌else◌,
}
use uptimeflow.Common.Int.{pos}
use uptimeflow.Common.Text.{Text, codes, text_eq, includes, split}
use uptimeflow.Enums.{AssertionSource, AssertionComparator}
use uptimeflow.Runtime.{Runtime, View}
use uptimeflow.Snapshot.{AssertionDef, ProbeSignal, CertInfo, DomainInfo, DnsInfo}
use mathlib.Core.Option

-- `string | number`
pub data Actual (N : Type 0) : Type 0 where
  str : Text → Actual N
  num : N → Actual N

-- `values.join(", ")`
abbrev pub join : List Text → Text
join [] = []
join (s ∷ []) = s
join (s ∷ t ∷ rest) = s ++ (codes ", " ++ join (t ∷ rest))

-- A header's value by its exact name.
abbrev pub header : Text → List (Text × Text) → Option Text
header name [] = none
header name ((k, v) ∷ rest) =
    let later = header name rest in if text_eq k name then some v else later

module _ (rt : Runtime) where
  open rt use {
    Number, Value, number_of_text, number_of_int, text_of_number, gt, lt, regex_test, to_lower,
    parse_json, stringify, view, property,
  }

  -- `String(actual)`
  abbrev pub text_of : Option (Actual Number) → Text
  text_of none = codes "undefined"
  text_of (some (str s)) = s
  text_of (some (num n)) = text_of_number n

  -- `Number(actual)`
  abbrev pub number_of : Option (Actual Number) → Number
  number_of none = number_of_text (codes "undefined")
  number_of (some (str s)) = number_of_text s
  number_of (some (num n)) = n

  -- neither undefined nor the empty string
  unfoldable pub has_value : Option (Actual Number) → Bool
  has_value none = false
  has_value (some (str [])) = false
  has_value (some (str (c ∷ s))) = true
  has_value (some (num n)) = true

  -- `actual ?? ""`
  abbrev or_empty : Option (Actual Number) → Option (Actual Number)
  or_empty none = some (str [])
  or_empty (some v) = some v

  -- the `try` around the regular expression; a throw counts as no match
  abbrev regex_holds : Option Bool → Bool
  regex_holds none = false
  regex_holds (some b) = b

  unfoldable pub apply_comparator : Option (Actual Number) → AssertionComparator → Text → Bool
  apply_comparator actual AssertionComparator.exists expected = has_value actual
  apply_comparator actual AssertionComparator.equals expected =
      has_value actual && text_eq (text_of actual) expected
  apply_comparator actual AssertionComparator.not_equals expected =
      not (text_eq (text_of actual) expected)
  apply_comparator actual AssertionComparator.contains expected =
      has_value actual && includes (text_of actual) expected
  apply_comparator actual AssertionComparator.not_contains expected =
      not (includes (text_of (or_empty actual)) expected)
  apply_comparator actual AssertionComparator.greater_than expected =
      has_value actual && gt (number_of actual) (number_of_text expected)
  apply_comparator actual AssertionComparator.less_than expected =
      has_value actual && lt (number_of actual) (number_of_text expected)
  apply_comparator actual AssertionComparator.matches_regex expected =
      has_value actual && regex_holds (regex_test expected (text_of actual))

  -- the loop over the segments; a step through what is no object ends it
  unfoldable pub walk_path : Value → List Text → Option Value
  walk_path node [] = some node
  walk_path node (segment ∷ rest) =
      let deeper = walk_path (property node segment) rest in
      elim (view node) [ View.object ↦ deeper | _ ↦ none ]

  abbrev leaf : Value → Option (Actual Number)
  leaf node = elim (view node) [
    | View.str s ↦ some (str s)
    | View.num n ↦ some (num n)
    | View.nullish ↦ none
    | _ ↦ Option.map str (stringify node)
  ]

  unfoldable pub read_json_path : Option Text → Text → Option (Actual Number)
  unfolding walk_path
  read_json_path none path = none
  read_json_path (some []) path = none
  read_json_path (some (c ∷ body)) path = elim (parse_json (c ∷ body)) [
    | none ↦ none
    | some node ↦ Option.bind (walk_path node (split b'.' path)) leaf
  ]

  -- `def.property ? f(def.property) : undefined`
  abbrev with_property : Option Text → (Text → Option (Actual Number)) → Option (Actual Number)
  with_property none f = none
  with_property (some []) f = none
  with_property (some (c ∷ s)) f = f (c ∷ s)

  unfoldable pub resolve_actual : AssertionDef → ProbeSignal → Option (Actual Number)
  resolve_actual def signal = elim def.source [
    | AssertionSource.status_code ↦
        Option.map (λ (n : ℕ). num (number_of_int (pos n))) signal.status_code
    | AssertionSource.response_time ↦ some (num (number_of_int (pos signal.response_ms)))
    | AssertionSource.header ↦
        with_property def.property
          (λ name. Option.map str (Option.bind signal.headers (header (to_lower name))))
    | AssertionSource.body_text ↦ Option.map str signal.body
    | AssertionSource.body_json ↦ with_property def.property (read_json_path signal.body)
    | AssertionSource.ssl_expiry_days ↦
        Option.map (λ (c : CertInfo). num (number_of_int c.days_until_expiry)) signal.cert
    | AssertionSource.domain_expiry_days ↦
        Option.map (λ (d : DomainInfo). num (number_of_int d.days_until_expiry)) signal.domain
    | AssertionSource.dns_record ↦ Option.map (λ (d : DnsInfo). str (join d.values)) signal.dns
  ]

  -- Whether a custom assertion holds of a signal.
  unfoldable pub assertion_holds : AssertionDef → ProbeSignal → Bool
  assertion_holds def signal =
      apply_comparator (resolve_actual def signal) def.comparator def.expected
