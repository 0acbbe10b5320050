-- ===== src/Catalog/EditDistance.antt =====
-- editDistance: internal/domain/catalog/scoring.go. A row of the table is a list of numbers; the code
-- keeps one row at a time.
pub mod Least
use wildman_service.Base.{
  ℕ, zero, suc, ◌+◌, min, List, [], ◌∷◌, if◌then◌else◌, length, int_eq, ◌==◌, nat_eq, string_eq,
  list_eq,
}

-- The loop over the right text: the cells of the current row after `last`, from the previous row, whose
-- cell above `last` is `corner`.
next_cells : ℕ → ℕ → ℕ → List ℕ → List ℕ → List ℕ
next_cells l last corner (r ∷ rs) (up ∷ above) =
    let cell = min (min (last + 1) (up + 1)) (corner + (if l == r then 0 else 1)) in
    cell ∷ next_cells l cell up rs above
next_cells l last corner _ _ = []

-- One round of the outer loop.
next_row : ℕ → ℕ → List ℕ → List ℕ → List ℕ
unfolding next_cells
next_row index l right [] = suc index ∷ []
next_row index l right (corner ∷ above) = suc index ∷ next_cells l (suc index) corner right above

-- The outer loop, from an index on.
last_row : ℕ → List ℕ → List ℕ → List ℕ → List ℕ
unfolding next_row
last_row index [] right previous = previous
last_row index (l ∷ left) right previous =
    last_row (suc index) left right (next_row index l right previous)

-- The first row: a cell for each index from `n` on.
first_row : ℕ → List ℕ → List ℕ
first_row n [] = n ∷ []
first_row n (r ∷ rs) = n ∷ first_row (suc n) rs

-- previous[n]; the index is in range.
cell_at : ℕ → List ℕ → ℕ
cell_at n [] = 0
cell_at zero (c ∷ cs) = c
cell_at (suc n) (c ∷ cs) = cell_at n cs

-- editDistance
unfoldable pub edit_distance : List ℕ → List ℕ → ℕ
unfolding last_row first_row cell_at
edit_distance left right = cell_at (length right) (last_row 0 left right (first_row 0 right))
