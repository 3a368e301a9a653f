-- ===== src/Pagination/Pages.antt =====
-- packages/shared/src/pagination.ts and apps/api/src/services/cursor.ts. The text of a cursor
-- (base64url of JSON, read back through a schema) is that of Node.js and zod: a parameter with laws.
use uptimeflow.Common.{
  ℕ, suc, ◌<◌, ◌≡◌, Bool, ◌&&◌, ◌||◌, Option, none, some, List, [], ◌∷◌, ◌==◌, ltb, length, take,
  select, if◌then◌else◌,
}
use uptimeflow.Common.Text.{Text}
use uptimeflow.Enums.{RecordId, Instant}

-- `createdAt` is the instant that its ISO text stands for.
pub record Cursor : Type 0 where
  pub id : RecordId
  pub created_at : Instant

pub record Codec : Type 0 where
  pub encode_cursor : Cursor → Text
  pub decode_cursor : Text → Option Cursor
  pub decode_encode : (c : Cursor) → decode_cursor (encode_cursor c) ≡ some c
  pub encode_non_empty : (c : Cursor) → 0 < length (encode_cursor c)

pub record Page {ℓ} (A : Type ℓ) : Type ℓ where
  pub items : List A
  pub next_cursor : Option Text

-- What parseCursor gives: no cursor, one, or an error of kind `bad_request`.
pub data Parsed : Type 0 where
  first_page bad_request : Parsed
  after : Cursor → Parsed

module _ (codec : Codec) where
  open codec use {encode_cursor, decode_cursor}

  abbrev decoded : Option Cursor → Parsed
  decoded none = bad_request
  decoded (some c) = after c

  unfoldable pub parse_cursor : Option Text → Parsed
  parse_cursor none = first_page
  parse_cursor (some []) = first_page
  parse_cursor (some (c ∷ s)) = decoded (decode_cursor (c ∷ s))

  module _ {ℓ} {A : Type ℓ} (key : A → Cursor) where
    abbrev pub last : List A → Option A
    last [] = none
    last (x ∷ []) = some x
    last (x ∷ (y ∷ xs)) = last (y ∷ xs)

    abbrev pub cursor_of : Option A → Option Text
    cursor_of none = none
    cursor_of (some x) = some (encode_cursor (key x))

    -- From one row more than the limit: the rows of the page, and where the next one starts.
    unfoldable pub build_page : List A → ℕ → Page A
    build_page rows limit =
        if ltb limit (length rows)
        then record { items = take limit rows; next_cursor = cursor_of (last (take limit rows)) }
        else record { items = rows; next_cursor = none }

-- The keyset conditions, on the key of a row.
abbrev pub after_cursor_asc : Cursor → Cursor → Bool
after_cursor_asc c k =
    ltb c.created_at k.created_at || c.created_at == k.created_at && ltb c.id k.id

abbrev pub after_cursor_desc : Cursor → Cursor → Bool
after_cursor_desc c k =
    ltb k.created_at c.created_at || k.created_at == c.created_at && ltb k.id c.id

module _ {ℓ} {A : Type ℓ} (key : A → Cursor) where
  -- `orderBy: [{ createdAt: "desc" }, { id: "desc" }]`
  unfoldable pub insert_desc : A → List A → List A
  insert_desc x [] = x ∷ []
  insert_desc x (y ∷ ys) =
      let later = y ∷ insert_desc x ys in
      if after_cursor_desc (key x) (key y) then x ∷ (y ∷ ys) else later

  unfoldable pub sort_desc : List A → List A
  unfolding insert_desc
  sort_desc [] = []
  sort_desc (x ∷ xs) = insert_desc x (sort_desc xs)

  -- `findMany` with a filter, the order above and `take: limit + 1`
  unfoldable pub find_page : (A → Bool) → ℕ → List A → List A
  unfolding sort_desc
  find_page where_ limit rows = take (suc limit) (sort_desc (select where_ rows))

  module _ (codec : Codec) (where_ : A → Bool) (limit : ℕ) (rows : List A) where
    abbrev pub page_at : Parsed → Option (Page A)
    page_at bad_request = none
    page_at first_page = some (build_page codec key (find_page where_ limit rows) limit)
    page_at (after c) = some (
        build_page codec key (find_page (λ x. where_ x && after_cursor_desc c (key x)) limit rows)
          limit)

    -- A listing in pages, as the services write it; `none` is the error of a bad cursor.
    unfoldable pub list_page : Option Text → Option (Page A)
    unfolding parse_cursor build_page find_page
    list_page cursor = page_at (parse_cursor codec cursor)
