-- ===== src/Grid/Widths.antt =====
-- The width of a printed row in src/grid.c.
use muddled.Base.{
  ℕ, suc, ◌+◌, ◌-◌, ◌*◌, ◌≤◌, ◌<◌, List, [], ◌∷◌, ◌++◌, Option, some, ◌≡◌, Text, codes, All, length,
  ◌>>=◌,
}
use muddled.Str.Colors.Visible.{Visible}
use muddled.Grid.Fields.{field_size, IsPlainCell}
use muddled.Grid.{Grid, GridRow, GridCell, visited}

abbrev pub spans_of : List (ℕ × GridCell) → ℕ
spans_of [] = 0
spans_of ((j, cell) ∷ more) = cell.span + spans_of more

-- The conditions on the cells of a row: each spans a column at least and is plain, its margins and
-- borders leave it a column for its text, and the cells that the loop visits fill the row with their
-- spans.
abbrev pub IsPlainRow : Grid → GridRow → Type 0
IsPlainRow grid row =
    (length row.cells ≡ row.columns)
    × (0 < row.columns)
    × (row.columnsize * row.columns ≤ grid.width)
    × All (λ c. 0 < c.span) row.cells
    × All IsPlainCell row.cells
    × All (λ c. field_size c 1 ≤ row.columnsize * c.span) row.cells
    × ((cells : List (ℕ × GridCell))
        → visited (suc row.columns) row 0 ≡ some cells
        → spans_of cells ≡ row.columns)

module _ (grid : Grid) (row : GridRow) (fits : row.columnsize * row.columns ≤ grid.width) where
  loss : ℕ
  loss = grid.width - row.columnsize * row.columns

  after_cell : ℕ → ℕ → GridCell → Option (List (ℕ × GridCell))
  unfolding visited
  after_cell fuel j cell = visited fuel row (j + cell.span) >>= λ more. some ((j, cell) ∷ more)

-- the lines of a page
abbrev pub page_of : List Text → Text
page_of [] = []
page_of (line ∷ lines) = (line ++ codes "\n\r") ++ page_of lines
