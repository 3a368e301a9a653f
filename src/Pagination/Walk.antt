-- ===== src/Pagination/Walk.antt =====
-- A client that follows the cursors of a listing: packages/shared/src/pagination.ts and
-- apps/api/src/services/cursor.ts together.
use uptimeflow.Common.{
  ℕ, zero, suc, ◌<◌, ◌≡◌, refl, ap, sym, subst, ◌∙◌, Bool, true, ◌&&◌, Option, none, some, List, [],
  ◌∷◌, ◌++◌, ltb, length, take, select, count, Bool-cases, inl, inr, arith,
}
use uptimeflow.Common.Text.{Text}
use uptimeflow.Pagination.Pages.{
  Cursor, Codec, Page, after, parse_cursor, after_cursor_desc, build_page, sort_desc, insert_desc,
  find_page, page_at, list_page,
}
use uptimeflow.Pagination.Order.{
  IsOrdered, HasDistinctIds, select-HasDistinctIds, sort_desc-IsOrdered, select-sort_desc,
  select-beyond,
}
use uptimeflow.Pagination.Cut.{IsCut-long, build_page_short, build_page_long}
use mathlib.Core.List.{append-nil, append_assoc}

module _ {ℓ} {A : Type ℓ} where
  abbrev pub items_of : Option (Page A) → List A
  items_of none = []
  items_of (some page) = page.items

  abbrev pub continued : (Text → List A) → Option Text → List A
  continued follow none = []
  continued follow (some cursor) = follow cursor

  abbrev pub rest_of : (Text → List A) → Option (Page A) → List A
  rest_of follow none = []
  rest_of follow (some page) = continued follow page.next_cursor

  -- The rows of the pages, from a cursor on; the fuel bounds their number.
  unfoldable pub walk : (Option Text → Option (Page A)) → ℕ → Option Text → List A
  walk fetch zero cursor = []
  walk fetch (suc fuel) cursor =
      items_of (fetch cursor) ++ rest_of (λ t. walk fetch fuel (some t)) (fetch cursor)

  select-select :
      (p q : A → Bool) (xs : List A) → select (λ x. p x && q x) xs ≡ select q (select p xs)
  select-select p q [] = refl
  select-select p q (x ∷ xs) = ground (arith, select-select p q xs)

  count-insert_desc :
      (key : A → Cursor) (p : A → Bool) (x : A) (ys : List A)
      → count p (insert_desc key x ys) ≡ count p (x ∷ ys)
  unfolding insert_desc
  count-insert_desc key p x [] = refl
  count-insert_desc key p x (y ∷ ys) = ground (arith, count-insert_desc key p x ys)

  count-sort_desc :
      (key : A → Cursor) (p : A → Bool) (xs : List A) → count p (sort_desc key xs) ≡ count p xs
  unfolding sort_desc
  count-sort_desc key p [] = refl
  count-sort_desc key p (x ∷ xs) =
      count-insert_desc key p x (sort_desc key xs) ∙ ground (arith, count-sort_desc key p xs)

module _ {ℓ} {A : Type ℓ} where
  length-count : (xs : List A) → count (λ x. true) xs ≡ length xs
  length-count [] = refl
  length-count (x ∷ xs) = ap suc (length-count xs)

  length-sort_desc : (key : A → Cursor) (xs : List A) → length (sort_desc key xs) ≡ length xs
  length-sort_desc key xs =
      sym (length-count (sort_desc key xs)) ∙ count-sort_desc key (λ x. true) xs ∙ length-count xs

parsed :
    (codec : Codec) (c : Cursor) (s : Text)
    → 0 < length s
    → codec.decode_cursor s ≡ some c
    → parse_cursor codec (some s) ≡ after c
unfolding parse_cursor
parsed codec c [] n e = absurd (omega arith)
parsed codec c (u ∷ s) n e = rw e refl

-- A cursor is read back as it was written.
pub parse-encode :
    (codec : Codec) (c : Cursor) → parse_cursor codec (some (codec.encode_cursor c)) ≡ after c
parse-encode codec c =
    parsed codec c (codec.encode_cursor c) (codec.encode_non_empty c) (codec.decode_encode c)

module _ {ℓ} {A : Type ℓ} (codec : Codec) (key : A → Cursor) (where_ : A → Bool) (n : ℕ)
    (rows : List A) (distinct : HasDistinctIds key rows) where
  abbrev matching : List A
  matching = select where_ rows

  abbrev listing : List A
  listing = sort_desc key matching

  listing-IsOrdered : IsOrdered key listing
  listing-IsOrdered =
      sort_desc-IsOrdered key matching (select-HasDistinctIds key where_ rows distinct)

  -- What a query behind the cursor of a listed row finds.
  listing_behind :
      (front : List A) (x : A) (rest : List A)
      → listing ≡ front ++ (x ∷ rest)
      → sort_desc key (select (λ y. where_ y && after_cursor_desc (key x) (key y)) rows) ≡ rest
  listing_behind front x rest e =
      ap (sort_desc key) (select-select where_ (λ y. after_cursor_desc (key x) (key y)) rows)
      ∙ sym (
          select-sort_desc key (λ y. after_cursor_desc (key x) (key y)) matching
            (select-HasDistinctIds key where_ rows distinct))
      ∙ ap (select (λ y. after_cursor_desc (key x) (key y))) e
      ∙ select-beyond key front x rest (subst (IsOrdered key) e listing-IsOrdered)

  abbrev fetch : Option Text → Option (Page A)
  fetch = list_page key codec where_ (suc n) rows

  -- A request whose query, without its limit, would find `ys`.
  abbrev Finds : Option Text → List A → Type ℓ
  Finds cursor ys = fetch cursor ≡ some (build_page codec key (take (suc (suc n)) ys) (suc n))

  Finds-first : Finds none listing
  unfolding list_page find_page parse_cursor
  Finds-first = refl

  Finds-behind :
      (front : List A) (x : A) (rest : List A)
      → listing ≡ front ++ (x ∷ rest)
      → Finds (some (codec.encode_cursor (key x))) rest
  unfolding list_page find_page
  Finds-behind front x rest e =
      ap (page_at key codec where_ (suc n) rows) (parse-encode codec (key x))
      ∙ ap (λ ys. some (build_page codec key (take (suc (suc n)) ys) (suc n)))
          (listing_behind front x rest e)

  abbrev step : ℕ → Option (Page A) → List A
  step fuel o = items_of o ++ rest_of (λ t. walk fetch fuel (some t)) o

  walk-from :
      (fuel : ℕ) (cursor : Option Text) (front ys : List A)
      → listing ≡ front ++ ys
      → Finds cursor ys
      → length ys < fuel
      → walk fetch fuel cursor ≡ ys
  unfolding walk
  walk-from zero cursor front ys e f h = absurd (omega arith)
  walk-from (suc fuel) cursor front ys e f h = elim (Bool-cases (ltb (suc n) (length ys))) [
    | inl long ↦
        let more : suc n < length ys = ground (arith, long) in
        let c = IsCut-long codec key n ys more in
        let seen : List A = c.front ++ (c.row ∷ []) in
        let split : ys ≡ seen ++ c.rest =
          c.whole ∙ sym (append_assoc c.front (c.row ∷ []) c.rest) in
        let at_row : listing ≡ (front ++ c.front) ++ (c.row ∷ c.rest) =
          e ∙ ap (λ t. front ++ t) c.whole ∙ sym (append_assoc front c.front (c.row ∷ c.rest)) in
        let behind : listing ≡ (front ++ seen) ++ c.rest =
          e ∙ ap (λ t. front ++ t) split ∙ sym (append_assoc front seen c.rest) in
        ap (step fuel) (f ∙ ap some (build_page_long codec key n ys c more))
        ∙ ap (λ t. seen ++ t)
            (walk-from fuel (some (codec.encode_cursor (key c.row))) (front ++ seen) c.rest behind
              (Finds-behind (front ++ c.front) c.row c.rest at_row) (omega (arith, c.shorter, h)))
        ∙ sym split
    | inr short ↦
        ap (step fuel) (f ∙ ap some (build_page_short codec key (suc n) ys (ground (arith, short))))
        ∙ append-nil ys
  ]

  -- The pages put together are the whole listing.
  pub walk-listing :
      (fuel : ℕ) → length (select where_ rows) < fuel → walk fetch fuel none ≡ listing
  walk-listing fuel h =
      walk-from fuel none [] listing refl Finds-first
        (omega (arith, length-sort_desc key matching, h))

  -- Following the cursors from the first page gives every matching row exactly once, newest first,
  -- whatever the limit of a page, and ends.
  pub walk_lists_all :
      (fuel : ℕ)
      → length (select where_ rows) < fuel
      → IsOrdered key (walk fetch fuel none)
        × ((p : A → Bool) → count p (walk fetch fuel none) ≡ count p (select where_ rows))
  walk_lists_all fuel h =
      let e = walk-listing fuel h in
      (
        subst (IsOrdered key) (sym e) listing-IsOrdered,
        λ p. ap (count p) e ∙ count-sort_desc key p matching,
      )
