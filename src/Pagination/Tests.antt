-- ===== src/Pagination/Tests.antt =====
-- Three rows in pages of two; two of them were created in the same millisecond.
use uptimeflow.Common.{ℕ, ◌≡◌, refl, Bool, true, none, some, List, [], ◌∷◌, select, count, arith}
use uptimeflow.Samples.{plain_codec}
use uptimeflow.Pagination.Pages.{Cursor, parse_cursor, build_page, sort_desc, find_page, list_page}
use uptimeflow.Pagination.Order.{IsOrdered, HasDistinctIds}
use uptimeflow.Pagination.Walk.{walk, walk_lists_all}

abbrev row : ℕ → ℕ → Cursor
row id created_at = record { id = id; created_at = created_at }

abbrev rows : List Cursor
rows = row 1 500 ∷ (row 2 700 ∷ (row 3 500 ∷ []))

abbrev itself : Cursor → Cursor
itself c = c

abbrev every : Cursor → Bool
every c = true

first_of_two :
    list_page itself plain_codec every 2 rows none
    ≡ some (record { items = row 2 700 ∷ (row 3 500 ∷ []); next_cursor = some (3 ∷ (500 ∷ [])) })
unfolding list_page parse_cursor find_page sort_desc build_page
first_of_two = refl

garbage : list_page itself plain_codec every 2 rows (some (7 ∷ [])) ≡ none
unfolding list_page parse_cursor
garbage = refl

rows-HasDistinctIds : HasDistinctIds itself rows
rows-HasDistinctIds =
    ((λ h. omega arith, (λ h. omega arith, tt)), (((λ h. omega arith), tt), (tt, tt)))

walk_lists_all_example :
    IsOrdered itself (walk (list_page itself plain_codec every 2 rows) 4 none)
    × ((p : Cursor → Bool)
        → count p (walk (list_page itself plain_codec every 2 rows) 4 none)
          ≡ count p (select every rows))
walk_lists_all_example =
    walk_lists_all plain_codec itself every 1 rows rows-HasDistinctIds 4 (omega arith)
