-- ===== src/CustomDomains/Normal.antt =====
-- normalizeDomain of packages/shared/src/domains.ts, applied to its own results.
use uptimeflow.Common.{
  ℕ, ◌≡◌, refl, ap, sym, subst, ◌∙◌, Bool, true, false, ◌&&◌, ◌||◌, none, some, List, [], ◌∷◌, ◌==◌,
  all, or_else, Bool-cases, inl, inr, if◌then◌else◌, arith,
}
use uptimeflow.Common.Text.{
  Text, split, split-all, split-ends, last_part, ends_in, without_last, without_last-other, lower,
  lower_unit,
}
use uptimeflow.CustomDomains.Hostnames.{
  is_space, trim_start, trim_end, is_letter, is_scheme_char, after_scheme, strip_scheme, before,
  is_label_char, is_label, is_tld, is_valid_host, host_of, normalize_domain,
}

-- The characters of a valid host.
abbrev is_host_char : ℕ → Bool
is_host_char c = is_label_char c || c == b'.'

abbrev IsHostText : Text → Type 0
IsHostText t = all is_host_char t ≡ true

module _ (c : ℕ) (h : is_host_char c ≡ true) where
  host_char_facts :
      (is_space c ≡ false)
      × (lower_unit c ≡ c)
      × (is_scheme_char c ≡ true)
      × ((c == b'/') ≡ false)
      × ((c == b':') ≡ false)
  host_char_facts = (
    ground (arith, h),
    ground (arith, h),
    ground (arith, h),
    ground (arith, h),
    ground (arith, h),
  )

trim_start-host : (t : Text) → IsHostText t → trim_start t ≡ t
unfolding trim_start
trim_start-host [] h = refl
trim_start-host (c ∷ t) h = rw (host_char_facts c (ground (arith, h))).0 refl

trim_end-host : (t : Text) → IsHostText t → trim_end t ≡ t
unfolding trim_end
trim_end-host [] h = refl
trim_end-host (c ∷ t) h =
    rw (host_char_facts c (ground (arith, h))).0
      (ap (λ s. c ∷ s) (trim_end-host t (ground (arith, h))))

lower-host : (t : Text) → IsHostText t → lower t ≡ t
lower-host [] h = refl
lower-host (c ∷ t) h =
    ap (λ d. d ∷ lower t) (host_char_facts c (ground (arith, h))).1
    ∙ ap (λ s. c ∷ s) (lower-host t (ground (arith, h)))

after_scheme-host : (t : Text) → IsHostText t → after_scheme t ≡ none
unfolding after_scheme
after_scheme-host [] h = refl
after_scheme-host (c ∷ t) h =
    rw (host_char_facts c (ground (arith, h))).2 (after_scheme-host t (ground (arith, h)))

strip_scheme-host : (t : Text) → IsHostText t → strip_scheme t ≡ t
unfolding strip_scheme
strip_scheme-host [] h = refl
strip_scheme-host (c ∷ t) h = elim (Bool-cases (is_letter c)) [
  | inl e ↦ rw e (ap (λ o. or_else o (c ∷ t)) (after_scheme-host t (ground (arith, h))))
  | inr e ↦ rw e refl
]

before-host :
    (x : ℕ) (t : Text)
    → ((c : ℕ) → is_host_char c ≡ true → (c == x) ≡ false)
    → IsHostText t
    → before x t ≡ t
unfolding before
before-host x [] n h = refl
before-host x (c ∷ t) n h =
    rw (n c (ground (arith, h))) (ap (λ s. c ∷ s) (before-host x t n (ground (arith, h))))

labels_of_chars : (ls : List Text) → all is_label ls ≡ true → all (all is_label_char) ls ≡ true
unfolding is_label
labels_of_chars [] h = refl
labels_of_chars (l ∷ ls) h = ground (arith, h, labels_of_chars ls)

both_true : (p q : Bool) → (p && q) ≡ true → (p ≡ true) × (q ≡ true)
both_true p q h = (ground (arith, h), ground (arith, h))

-- What the tests on a valid host give: its characters, and a last label that is not empty.
valid_facts :
    (t : Text)
    → is_valid_host t ≡ true
    → (all is_label (split b'.' t) ≡ true) × (is_tld (last_part (split b'.' t)) ≡ true)
valid_facts t h =
    let (rest, tld) = both_true _ (is_tld (last_part (split b'.' t))) h in
    ((both_true _ (all is_label (split b'.' t)) rest).1, tld)

valid-IsHostText : (t : Text) → is_valid_host t ≡ true → IsHostText t
valid-IsHostText t h =
    split-all b'.' is_label_char t (labels_of_chars (split b'.' t) (valid_facts t h).0)

no_dot_last : (t : Text) → is_valid_host t ≡ true → ends_in b'.' t ≡ false
no_dot_last t h = elim (Bool-cases (ends_in b'.' t)) [
  | inl e ↦
      let empty : is_tld [] ≡ true =
        subst (λ l. is_tld l ≡ true) (split-ends b'.' t e) (valid_facts t h).1 in
      absurd (ground (arith, empty))
  | inr e ↦ e
]

host_of-valid : (t : Text) → is_valid_host t ≡ true → host_of t ≡ t
unfolding host_of
host_of-valid t h =
    let hosts = valid-IsHostText t h in
    ap (λ s. without_last b'.' (before b':' (before b'/' (strip_scheme (lower (trim_start s))))))
      (trim_end-host t hosts)
    ∙ ap (λ s. without_last b'.' (before b':' (before b'/' (strip_scheme (lower s)))))
        (trim_start-host t hosts)
    ∙ ap (λ s. without_last b'.' (before b':' (before b'/' (strip_scheme s)))) (lower-host t hosts)
    ∙ ap (λ s. without_last b'.' (before b':' (before b'/' s))) (strip_scheme-host t hosts)
    ∙ ap (λ s. without_last b'.' (before b':' s))
        (before-host b'/' t (λ c k. (host_char_facts c k).3) hosts)
    ∙ ap (without_last b'.') (before-host b':' t (λ c k. (host_char_facts c k).4) hosts)
    ∙ without_last-other b'.' t (no_dot_last t h)

-- A normalized domain is normal: normalizing it again gives it back.
pub normalize_domain_idem :
    (input domain : Text)
    → normalize_domain input ≡ some domain
    → normalize_domain domain ≡ some domain
unfolding normalize_domain
normalize_domain_idem input domain h = elim (Bool-cases (is_valid_host (host_of input))) [
  | inl e ↦
      let same : host_of input ≡ domain = ground (arith, e, h) in
      let valid : is_valid_host domain ≡ true = ap is_valid_host (sym same) ∙ e in
      let fixed : host_of domain ≡ domain = host_of-valid domain valid in
      ap (λ t. if is_valid_host t then some t else none) fixed
      ∙ ap (λ b. if b then some domain else none) valid
  | inr e ↦ absurd (ground (arith, e, h))
]
