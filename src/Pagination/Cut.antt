-- ===== src/Pagination/Cut.antt =====
-- Where buildPage of packages/shared/src/pagination.ts cuts a listing.
use uptimeflow.Common.{
  ℕ, zero, suc, ◌≤◌, ◌<◌, ◌≡◌, refl, ap, true, false, none, some, List, [], ◌∷◌, ◌++◌, ltb, length,
  take, arith,
}
use uptimeflow.Pagination.Pages.{Cursor, Codec, last, build_page}

module _ {ℓ} {A : Type ℓ} (codec : Codec) (key : A → Cursor) where
  open codec use {encode_cursor}

  last-append : (front : List A) (x : A) → last codec key (front ++ (x ∷ [])) ≡ some x
  last-append [] x = refl
  last-append (y ∷ []) x = refl
  last-append (y ∷ (z ∷ front)) x = last-append (z ∷ front) x

  take_whole : (n : ℕ) (xs : List A) → length xs ≤ n → take n xs ≡ xs
  take_whole zero [] h = refl
  take_whole (suc n) [] h = refl
  take_whole zero (x ∷ xs) h = absurd (omega arith)
  take_whole (suc n) (x ∷ xs) h = ap (λ t. x ∷ t) (take_whole n xs (omega arith))

  take-take : (n : ℕ) (xs : List A) → take n (take (suc n) xs) ≡ take n xs
  take-take zero xs = refl
  take-take (suc n) [] = refl
  take-take (suc n) (x ∷ xs) = ap (λ t. x ∷ t) (take-take n xs)

  length-take_some : (n : ℕ) (xs : List A) → n < length xs → length (take (suc n) xs) ≡ suc n
  length-take_some n [] h = absurd (omega arith)
  length-take_some zero (x ∷ xs) h = refl
  length-take_some (suc n) (x ∷ xs) h = ap suc (length-take_some n xs (omega arith))

  -- A list longer than its first page: the page, its last row, and what is left.
  pub record IsCut (n : ℕ) (xs : List A) : Type ℓ where
    pub front : List A
    pub row : A
    pub rest : List A
    pub whole : xs ≡ front ++ (row ∷ rest)
    pub page : take (suc n) xs ≡ front ++ (row ∷ [])
    pub shorter : length rest < length xs

  IsCut-behind : (n : ℕ) (x : A) (xs : List A) → IsCut n xs → IsCut (suc n) (x ∷ xs)
  IsCut-behind n x xs c = record {
    front = x ∷ c.front;
    row = c.row;
    rest = c.rest;
    whole = ap (λ t. x ∷ t) c.whole;
    page = ap (λ t. x ∷ t) c.page;
    shorter = omega (arith, c.shorter);
  }

  pub IsCut-long : (n : ℕ) (xs : List A) → suc n < length xs → IsCut n xs
  IsCut-long n [] h = absurd (omega arith)
  IsCut-long zero (x ∷ xs) h = record {
    front = [];
    row = x;
    rest = xs;
    whole = refl;
    page = refl;
    shorter = omega arith;
  }
  IsCut-long (suc n) (x ∷ xs) h = IsCut-behind n x xs (IsCut-long n xs (omega arith))

  -- A short listing is one page.
  pub build_page_short :
      (limit : ℕ) (xs : List A)
      → length xs ≤ limit
      → build_page codec key (take (suc limit) xs) limit ≡ record { items = xs; next_cursor = none }
  unfolding build_page
  build_page_short limit xs h =
      let short : ltb limit (length xs) ≡ false = ground arith in
      rw (take_whole (suc limit) xs (omega arith)) (rw short refl)

  -- A longer one is cut behind its first `limit` rows.
  pub build_page_long :
      (n : ℕ) (xs : List A) (c : IsCut n xs)
      → suc n < length xs
      → build_page codec key (take (suc (suc n)) xs) (suc n)
        ≡ record { items = c.front ++ (c.row ∷ []); next_cursor = some (encode_cursor (key c.row)) }
  unfolding build_page
  build_page_long n xs c h =
      let long : ltb (suc n) (length (take (suc (suc n)) xs)) ≡ true =
        ground (arith, length-take_some (suc n) xs h) in
      rw long (rw (take-take (suc n) xs) (rw c.page (rw (last-append c.front c.row) refl)))
