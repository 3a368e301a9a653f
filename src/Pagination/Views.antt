-- ===== src/Pagination/Views.antt =====
-- Pages of what the services show of their rows: buildPage of packages/shared/src/pagination.ts
-- before the rows are rendered, and after.
use uptimeflow.Common.{
  ℕ, zero, suc, ◌≡◌, refl, ap, sym, ◌∙◌, Option, none, some, List, [], ◌∷◌, ◌++◌, ltb, length, take,
  map, length-map, Bool-cases, inl, inr,
}
use uptimeflow.Common.Text.{Text}
use uptimeflow.Pagination.Pages.{Cursor, Codec, Page, last, cursor_of, build_page}
use uptimeflow.Pagination.Walk.{walk, items_of, rest_of, continued}
use mathlib.Core.Option
use mathlib.Core.List.{map-append}

module _ {ℓ κ} {A : Type ℓ} {B : Type κ} (f : A → B) where
  abbrev pub map_page : Page A → Page B
  map_page page = record { items = map f page.items; next_cursor = page.next_cursor }

  take-map : (n : ℕ) (xs : List A) → take n (map f xs) ≡ map f (take n xs)
  take-map zero xs = refl
  take-map (suc n) [] = refl
  take-map (suc n) (x ∷ xs) = ap (λ t. f x ∷ t) (take-map n xs)

  module _ (codec : Codec) (key_of_row : A → Cursor) (key_of_view : B → Cursor)
      (same : (x : A) → key_of_view (f x) ≡ key_of_row x) where
    last-map :
        (xs : List A) → last codec key_of_view (map f xs) ≡ Option.map f (last codec key_of_row xs)
    last-map [] = refl
    last-map (x ∷ []) = refl
    last-map (x ∷ (y ∷ xs)) = last-map (y ∷ xs)

    cursor-map :
        (o : Option A) → cursor_of codec key_of_view (Option.map f o) ≡ cursor_of codec key_of_row o
    cursor-map none = refl
    cursor-map (some x) = ap (λ c. some (codec.encode_cursor c)) (same x)

    -- The cursor of a page is that of its last row, shown or not.
    pub build_page-map :
        (xs : List A) (limit : ℕ)
        → build_page codec key_of_view (map f xs) limit
          ≡ map_page (build_page codec key_of_row xs limit)
    unfolding build_page
    build_page-map xs limit = elim (Bool-cases (ltb limit (length xs))) [
      | inl e ↦
          rw (length-map xs f, e)
            (ap
                (λ t. record {
                  items = t;
                  next_cursor = cursor_of codec key_of_view (last codec key_of_view t);
                })
                (take-map limit xs)
              ∙ ap (λ c. record { items = map f (take limit xs); next_cursor = c })
                  (ap (cursor_of codec key_of_view) (last-map (take limit xs))
                    ∙ cursor-map (last codec key_of_row (take limit xs))))
      | inr e ↦ rw (length-map xs f, e) refl
    ]

  module _ (g : Text → List B) (h : Text → List A) (ih : (t : Text) → g t ≡ map f (h t)) where
    continued-map : (o : Option Text) → continued g o ≡ map f (continued h o)
    continued-map none = refl
    continued-map (some t) = ih t

    step-map :
        (o : Option (Page A))
        → items_of (Option.map map_page o) ++ rest_of g (Option.map map_page o)
          ≡ map f (items_of o ++ rest_of h o)
    step-map none = refl
    step-map (some page) =
        ap (λ t. map f page.items ++ t) (continued-map page.next_cursor)
        ∙ sym (map-append f page.items (continued h page.next_cursor))

  -- A walk over pages of views.
  pub walk-map :
      (fetch : Option Text → Option (Page A)) (fuel : ℕ) (cursor : Option Text)
      → walk (λ c. Option.map map_page (fetch c)) fuel cursor ≡ map f (walk fetch fuel cursor)
  unfolding walk
  walk-map fetch zero cursor = refl
  walk-map fetch (suc fuel) cursor =
      step-map (λ t. walk (λ c. Option.map map_page (fetch c)) fuel (some t))
        (λ t. walk fetch fuel (some t)) (λ t. walk-map fetch fuel (some t)) (fetch cursor)
