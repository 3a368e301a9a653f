-- ===== src/Common/Tables.antt =====
-- A database table as the list of its rows, in the order of insertion.
use uptimeflow.Common.Tests.{if◌then◌else◌, Bool-cases}
use uptimeflow.Common.Lists.{any, count, find, All}
use Prim.Native.Nat.{◌+◌, ◌≤◌}
use mathlib.Core.Path.{◌≡◌, refl, ap, ◌∙◌, sym, subst}
use mathlib.Core.Logic.{inl, inr}
use mathlib.Core.Bool.{Bool, true, false, ◌&&◌}
use mathlib.Core.Option.{none, some}
use mathlib.Core.List.{List, [], ◌∷◌, ◌++◌}
use native.Mathlib.Omega.{arith}

module _ {ℓ} {A : Type ℓ} where
  -- `updateMany({ where, data })`
  abbrev pub update_where : (A → Bool) → (A → A) → List A → List A
  update_where p f [] = []
  update_where p f (x ∷ xs) = (if p x then f x else x) ∷ update_where p f xs

  pub count-append : (p : A → Bool) (xs ys : List A) → count p (xs ++ ys) ≡ count p xs + count p ys
  count-append p [] ys = omega arith
  count-append p (x ∷ xs) ys = ground (arith, count-append p xs ys)

  -- A query that finds no row finds none to count.
  pub count-find-none : (p : A → Bool) (xs : List A) → find p xs ≡ none → count p xs ≡ 0
  count-find-none p [] h = refl
  count-find-none p (x ∷ xs) h = ground (arith, count-find-none p xs)

  pub find-holds : (p : A → Bool) (xs : List A) {a : A} → find p xs ≡ some a → p a ≡ true
  find-holds p [] h = ground arith
  find-holds p (x ∷ xs) {a} h = elim (Bool-cases (p x)) [
    | inl e ↦ ground (arith, e)
    | inr e ↦ find-holds p xs (ground (arith, e, h))
  ]

  -- An update that keeps the test reaches the row that a query with that test finds.
  pub find-update :
      (p : A → Bool) (f : A → A)
      → ((a : A) → p (f a) ≡ p a)
      → (xs : List A) (a : A) → find p xs ≡ some a
      → find p (update_where p f xs) ≡ some (f a)
  find-update p f keeps [] a h = cc
  find-update p f keeps (x ∷ xs) a h = elim (Bool-cases (p x)) [
    | inl e ↦ ground (arith, keeps x)
    | inr e ↦ ground (arith, find-update p f keeps xs a)
  ]

  -- A row that a query finds, and that meets a further test, is found with both.
  pub find-both :
      (p q : A → Bool) (xs : List A) (a : A)
      → find p xs ≡ some a
      → q a ≡ true
      → find (λ x. p x && q x) xs ≡ some a
  find-both p q [] a h e = cc
  find-both p q (x ∷ xs) a h e = elim (Bool-cases (p x)) [
    | inl t ↦ ground arith
    | inr t ↦ ground (arith, find-both p q xs a)
  ]

  update_where-none :
      (p : A → Bool) (f : A → A) (xs : List A) → count p xs ≡ 0 → update_where p f xs ≡ xs
  update_where-none p f [] h = refl
  update_where-none p f (x ∷ xs) h = elim (Bool-cases (p x)) [
    | inl e ↦ ground (arith, e)
    | inr e ↦ ground (arith, update_where-none p f xs)
  ]

  -- An update whose new rows pass a test only where the old ones did adds none that passes it.
  pub count-update_mono :
      (p q : A → Bool) (f : A → A)
      → ((x : A) → q x ≡ true → p (f x) ≡ true → p x ≡ true)
      → (xs : List A) → count p (update_where q f xs) ≤ count p xs
  count-update_mono p q f h [] = omega arith
  count-update_mono p q f h (x ∷ xs) = elim (Bool-cases (q x)) [
    | inl e ↦ elim (Bool-cases (p (f x))) [
      | inl t ↦ ground (arith, e, t, h x e t, count-update_mono p q f h xs)
      | inr t ↦ ground (arith, e, t, count-update_mono p q f h xs)
    ]
    | inr e ↦ ground (arith, e, count-update_mono p q f h xs)
  ]

  pub any_mono :
      (p q : A → Bool)
      → ((x : A) → p x ≡ true → q x ≡ true)
      → (xs : List A) → any q xs ≡ false
      → any p xs ≡ false
  any_mono p q h [] n = refl
  any_mono p q h (x ∷ xs) n = elim (Bool-cases (p x)) [
    | inl e ↦ ground (arith, h x e, n)
    | inr e ↦ ground (arith, e, n, any_mono p q h xs)
  ]

  module _ (p : A → Bool) (f : A → A) where
    -- Where the test picks one row, an update that keeps `q` there keeps the count of `q`.
    pub count-update_one :
        (q : A → Bool) (xs : List A) (a : A)
        → find p xs ≡ some a
        → count p xs ≤ 1
        → q (f a) ≡ q a
        → count q (update_where p f xs) ≡ count q xs
    count-update_one q [] a h one k = refl
    count-update_one q (x ∷ xs) a h one k = elim (Bool-cases (p x)) [
      | inl e ↦ ground (arith, update_where-none p f xs)
      | inr e ↦ ground (arith, count-update_one q xs a)
    ]

    -- Where the test picks one row, an update that ends `q` there takes one off the count of `q`.
    pub count-drop_one :
        (q : A → Bool) (xs : List A) (a : A)
        → find p xs ≡ some a
        → count p xs ≤ 1
        → q a ≡ true
        → q (f a) ≡ false
        → count q (update_where p f xs) + 1 ≡ count q xs
    count-drop_one q [] a h one k l = cc
    count-drop_one q (x ∷ xs) a h one k l = elim (Bool-cases (p x)) [
      | inl e ↦ ground (arith, update_where-none p f xs)
      | inr e ↦ ground (arith, count-drop_one q xs a)
    ]

    module _ {κ} (P : A → Type κ) where
      pub All-update_one :
          (xs : List A) (a : A)
          → find p xs ≡ some a
          → count p xs ≤ 1
          → (P a → P (f a))
          → All P xs
          → All P (update_where p f xs)
      All-update_one [] a h one k t = tt
      All-update_one (x ∷ xs) a h one k (t, ts) = elim (Bool-cases (p x)) [
        | inl e ↦
            let same : x ≡ a = ground (arith, e, h) in
            let rest : update_where p f xs ≡ xs =
              update_where-none p f xs (ground (arith, e, one)) in
            (
              simp e (subst (λ y. P (f y)) (sym same) (k (subst P same t))),
              subst (All P) (sym rest) ts,
            )
        | inr e ↦
            (simp e t, All-update_one xs a (ground (arith, e, h)) (ground (arith, e, one)) k ts)
      ]

  counted :
      (p q : A → Bool) (xs : List A) (a : A) → find (λ x. p x && q x) xs ≡ some a → 1 ≤ count p xs
  counted p q [] a h = cc
  counted p q (x ∷ xs) a h = elim (Bool-cases (p x)) [
    | inl e ↦ ground (arith, e)
    | inr e ↦ ground (arith, e, counted p q xs a)
  ]

  -- Where the first test picks one row, a row found with two tests is found with the first.
  pub find-first :
      (p q : A → Bool) (xs : List A) (a : A)
      → find (λ x. p x && q x) xs ≡ some a
      → count p xs ≤ 1
      → find p xs ≡ some a
  find-first p q [] a h one = cc
  find-first p q (x ∷ xs) a h one = elim (Bool-cases (p x)) [
    | inl e ↦ elim (Bool-cases (q x)) [
      | inl t ↦ ground arith
      | inr t ↦ ground (arith, counted p q xs a)
    ]
    | inr e ↦ ground (arith, find-first p q xs a)
  ]

  pub counted_found :
      (p q : A → Bool) (xs : List A) (a : A) → find q xs ≡ some a → p a ≡ true → 1 ≤ count p xs
  counted_found p q [] a h t = cc
  counted_found p q (x ∷ xs) a h t = elim (Bool-cases (q x)) [
    | inl e ↦ ground (arith, e, h, t)
    | inr e ↦ ground (arith, e, h, t, counted_found p q xs a)
  ]

  pub find-count-none :
      (p g : A → Bool) (xs : List A) → count p xs ≡ 0 → find (λ x. p x && g x) xs ≡ none
  find-count-none p g [] h = refl
  find-count-none p g (x ∷ xs) h = elim (Bool-cases (p x)) [
    | inl e ↦ ground (arith, e, h)
    | inr e ↦ ground (arith, e, h, find-count-none p g xs)
  ]

  -- Where `p` holds of one row only, and that row is the one updated, a query for `p` and `g` finds the
  -- updated row or none.
  pub find-update_one :
      (p q g : A → Bool) (f : A → A) (xs : List A) (a : A)
      → find q xs ≡ some a
      → count q xs ≤ 1
      → count p xs ≤ 1
      → p a ≡ true
      → p (f a) ≡ true
      → find (λ x. p x && g x) (update_where q f xs) ≡ (if g (f a) then some (f a) else none)
  find-update_one p q g f [] a h one only t u = cc
  find-update_one p q g f (x ∷ xs) a h one only t u = elim (Bool-cases (q x)) [
    | inl e ↦
        let same : x ≡ a = ground (arith, e, h) in
        let px : p x ≡ true = ap p same ∙ t in
        let rest : update_where q f xs ≡ xs = update_where-none q f xs (ground (arith, e, one)) in
        let nobody : find (λ y. p y && g y) xs ≡ none =
          find-count-none p g xs (ground (arith, px, only)) in
        let pfx : p (f x) ≡ true = ap (λ y. p (f y)) same ∙ u in
        ground (arith, e, same, rest, nobody, pfx)
    | inr e ↦
        let later : find q xs ≡ some a = ground (arith, e, h) in
        let px : p x ≡ false = ground (arith, counted_found p q xs a later t, only) in
        ground (arith, e, px, later, one, only, find-update_one p q g f xs a)
  ]

  pub any-update_where :
      (p q : A → Bool) (f : A → A)
      → ((x : A) → p (f x) ≡ p x)
      → (xs : List A) → any p (update_where q f xs) ≡ any p xs
  any-update_where p q f h [] = refl
  any-update_where p q f h (x ∷ xs) = elim (Bool-cases (q x)) [
    | inl e ↦ ground (arith, e, h x, any-update_where p q f h xs)
    | inr e ↦ ground (arith, e, any-update_where p q f h xs)
  ]

  pub any-found :
      (p q : A → Bool) (xs : List A) (a : A) → find q xs ≡ some a → p a ≡ true → any p xs ≡ true
  any-found p q [] a h t = cc
  any-found p q (x ∷ xs) a h t = elim (Bool-cases (q x)) [
    | inl e ↦ ground (arith, e, h, t)
    | inr e ↦ ground (arith, e, h, t, any-found p q xs a)
  ]

  pub any-count_zero : (p : A → Bool) (xs : List A) → any p xs ≡ false → count p xs ≡ 0
  any-count_zero p [] h = refl
  any-count_zero p (x ∷ xs) h = ground (arith, any-count_zero p xs)
