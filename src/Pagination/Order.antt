-- ===== src/Pagination/Order.antt =====
-- The order of a listing: newest first, by creation and identifier.
use uptimeflow.Common.{
  ◌≡◌, ◌≢◌, refl, ap, ◌∙◌, Bool, true, false, List, [], ◌∷◌, ◌++◌, select, All, Bool-cases, inl,
  inr, arith, if◌then◌else◌, sym,
}
use uptimeflow.Pagination.Pages.{Cursor, after_cursor_desc, insert_desc, sort_desc}

after_trans :
    (a b c : Cursor)
    → after_cursor_desc a b ≡ true
    → after_cursor_desc b c ≡ true
    → after_cursor_desc a c ≡ true
after_trans a b c h k = ground (arith, h, k)

after_asym : (a b : Cursor) → after_cursor_desc a b ≡ true → after_cursor_desc b a ≡ false
after_asym a b h = ground (arith, h)

after_total :
    (a b : Cursor) → a.id ≢ b.id → after_cursor_desc a b ≡ false → after_cursor_desc b a ≡ true
after_total a b n h = ground (arith, n, h)

pub after_irrefl : (a : Cursor) → after_cursor_desc a a ≡ false
after_irrefl a = ground arith

module _ {ℓ} {A : Type ℓ} (key : A → Cursor) where
  -- Every row stands before those that follow it.
  abbrev pub IsBefore : A → A → Type 0
  IsBefore x y = after_cursor_desc (key x) (key y) ≡ true

  abbrev pub IsOrdered : List A → Type 0
  IsOrdered [] = Unit
  IsOrdered (x ∷ xs) = All (IsBefore x) xs × IsOrdered xs

  -- No two rows have one identifier.
  abbrev IsOther : A → A → Type 0
  IsOther x y = (key x).id ≢ (key y).id

  abbrev pub HasDistinctIds : List A → Type 0
  HasDistinctIds [] = Unit
  HasDistinctIds (x ∷ xs) = All (IsOther x) xs × HasDistinctIds xs

  All-IsBefore : (x y : A) (ys : List A) → IsBefore x y → All (IsBefore y) ys → All (IsBefore x) ys
  All-IsBefore x y [] h k = tt
  All-IsBefore x y (z ∷ zs) h (k, ks) =
      (after_trans (key x) (key y) (key z) h k, All-IsBefore x y zs h ks)

  module _ {κ} (P : A → Type κ) where
    All-insert_desc : (x : A) (ys : List A) → P x → All P ys → All P (insert_desc key x ys)
    unfolding insert_desc
    All-insert_desc x [] p h = (p, tt)
    All-insert_desc x (y ∷ ys) p (q, h) = elim (Bool-cases (after_cursor_desc (key x) (key y))) [
      | inl e ↦ rw e (p, (q, h))
      | inr e ↦ rw e (q, All-insert_desc x ys p h)
    ]

    All-sort_desc : (xs : List A) → All P xs → All P (sort_desc key xs)
    unfolding sort_desc
    All-sort_desc [] h = tt
    All-sort_desc (x ∷ xs) (p, h) = All-insert_desc x (sort_desc key xs) p (All-sort_desc xs h)

    All-select : (q : A → Bool) (xs : List A) → All P xs → All P (select q xs)
    All-select q [] h = tt
    All-select q (x ∷ xs) (p, h) = elim (Bool-cases (q x)) [
      | inl e ↦ rw e (p, All-select q xs h)
      | inr e ↦ rw e (All-select q xs h)
    ]

  insert_desc-IsOrdered :
      (x : A) (ys : List A) → All (IsOther x) ys → IsOrdered ys → IsOrdered (insert_desc key x ys)
  unfolding insert_desc
  insert_desc-IsOrdered x [] n h = (tt, tt)
  insert_desc-IsOrdered x (y ∷ ys) (n, ns) (h, hs) =
      elim (Bool-cases (after_cursor_desc (key x) (key y))) [
        | inl e ↦ rw e ((e, All-IsBefore x y ys e h), (h, hs))
        | inr e ↦ rw e (
          All-insert_desc (IsBefore y) x ys (after_total (key x) (key y) n e) h,
          insert_desc-IsOrdered x ys ns hs,
        )
      ]

  pub sort_desc-IsOrdered : (xs : List A) → HasDistinctIds xs → IsOrdered (sort_desc key xs)
  unfolding sort_desc
  sort_desc-IsOrdered [] h = tt
  sort_desc-IsOrdered (x ∷ xs) (n, h) =
      insert_desc-IsOrdered x (sort_desc key xs) (All-sort_desc (IsOther x) xs n)
        (sort_desc-IsOrdered xs h)

  pub select-HasDistinctIds :
      (q : A → Bool) (xs : List A) → HasDistinctIds xs → HasDistinctIds (select q xs)
  select-HasDistinctIds q [] h = tt
  select-HasDistinctIds q (x ∷ xs) (n, h) = elim (Bool-cases (q x)) [
    | inl e ↦ rw e (All-select (IsOther x) q xs n, select-HasDistinctIds q xs h)
    | inr e ↦ rw e (select-HasDistinctIds q xs h)
  ]

  -- An insertion in front of everything, and one behind a smaller row.
  insert_first : (x : A) (ys : List A) → All (IsBefore x) ys → insert_desc key x ys ≡ x ∷ ys
  unfolding insert_desc
  insert_first x [] h = refl
  insert_first x (y ∷ ys) (h, hs) = rw h refl

  select-insert_desc :
      (q : A → Bool) (x : A) (ys : List A)
      → IsOrdered ys
      → select q (insert_desc key x ys)
        ≡ (if q x then insert_desc key x (select q ys) else select q ys)
  unfolding insert_desc
  select-insert_desc q x [] h = ground arith
  select-insert_desc q x (y ∷ ys) (h, hs) = elim (Bool-cases (after_cursor_desc (key x) (key y))) [
    | inl e ↦ elim (Bool-cases (q x)) [
      | inl t ↦
          rw (e, t)
            (sym (
              insert_first x (select q (y ∷ ys))
                (All-select (IsBefore x) q (y ∷ ys) (e, All-IsBefore x y ys e h))))
      | inr t ↦ rw (e, t) refl
    ]
    | inr e ↦ elim (Bool-cases (q y)) [
      | inl u ↦ ground (arith, e, u, select-insert_desc q x ys hs)
      | inr u ↦ ground (arith, e, u, select-insert_desc q x ys hs)
    ]
  ]

  -- A filter may be applied before the order or after it.
  pub select-sort_desc :
      (q : A → Bool) (xs : List A)
      → HasDistinctIds xs
      → select q (sort_desc key xs) ≡ sort_desc key (select q xs)
  unfolding sort_desc
  select-sort_desc q [] h = refl
  select-sort_desc q (x ∷ xs) (n, h) =
      select-insert_desc q x (sort_desc key xs) (sort_desc-IsOrdered xs h)
      ∙ elim (Bool-cases (q x)) [
        | inl e ↦ rw e (ap (insert_desc key x) (select-sort_desc q xs h))
        | inr e ↦ rw e (select-sort_desc q xs h)
      ]

  abbrev beyond : A → A → Bool
  beyond x y = after_cursor_desc (key x) (key y)

  select-All_before : (x : A) (ys : List A) → All (IsBefore x) ys → select (beyond x) ys ≡ ys
  select-All_before x [] h = refl
  select-All_before x (y ∷ ys) (h, hs) = rw h (ap (λ t. y ∷ t) (select-All_before x ys hs))

  -- Behind a row of an ordered listing stand the rows that its cursor selects.
  pub select-beyond :
      (front : List A) (x : A) (rest : List A)
      → IsOrdered (front ++ (x ∷ rest))
      → select (beyond x) (front ++ (x ∷ rest)) ≡ rest
  select-beyond [] x rest (h, hs) = rw (after_irrefl (key x)) (select-All_before x rest h)
  select-beyond (y ∷ front) x rest (h, hs) =
      rw (after_asym (key y) (key x) (before_of front x rest h)) (select-beyond front x rest hs)
    where
      before_of :
          (front : List A) (x : A) (rest : List A)
          → All (IsBefore y) (front ++ (x ∷ rest))
          → IsBefore y x
      before_of [] x rest (h, hs) = h
      before_of (z ∷ front) x rest (h, hs) = before_of front x rest hs
