-- ===== src/Tests/Layout.antt =====
-- Runs of src/grid.c.
use muddled.Base.{
  ℕ, ◌+◌, List, [], ◌∷◌, ◌⊎◌, none, some, ◌≡◌, refl, arith, codes, length, get_elem?, ◌>>=◌,
}
use muddled.Str.Fill.{align_right, align_string}
use muddled.Grid.{
  Grid, GridRow, GridCell, blank_cell, new_grid, grid_init_border, grid_add, grid_add_default,
  grid_add_border, grid_set_next_row, grid_print,
}
use muddled.Grid.Invariant.{IsGrid, Kept, IsNext, rows_after, new_grid-IsGrid, grid_add_lem}

second_cell :
    (grid_add_default (new_grid 40 3) (codes "a") >>= λ r.
    grid_add_default r.0 (codes "b") >>= λ s. some s.1)
    ≡ some 1
unfolding grid_add_default new_grid
second_cell = refl

bordered : (grid_add_border (new_grid 40 3) grid_init_border (codes "a") >>= λ r. some r.1) ≡ some 0
unfolding grid_add_border new_grid
bordered = refl

wider :
    (grid_set_next_row blank_cell (new_grid 40 3) 4 >>= λ g.
    get_elem? g.rows 0 >>= λ r. some (length r.cells))
    ≡ some 4
unfolding grid_set_next_row new_grid
wider = refl

page :
    (grid_add_default (new_grid 8 1) (codes "ab") >>= λ r. grid_print r.0)
    ≡ some (codes " ab    ~x \n\r")
unfolding grid_add_default new_grid grid_print align_string
page = refl

grid_add_lem_example :
    (g : Grid) × (col : ℕ) × (last row : GridRow) × (cell : GridCell) × (grid_add
        (new_grid 40 3)
        align_right
        2
        none
        none
        1
        0
        (some (codes "hits"))
      ≡ some (g, col))
    × IsGrid g
    × (get_elem? (new_grid 40 3).rows 0 ≡ some last)
    × IsNext (new_grid 40 3) last g.y col
    × (length g.rows ≡ rows_after (new_grid 40 3) last)
    × (g.x ≡ col + 2)
    × (get_elem? g.rows g.y ≡ some row)
    × (get_elem? row.cells col ≡ some cell)
    × (cell.value ≡ codes "hits")
    × (cell.span ≡ 2)
    × (cell.left_margin ≡ 1)
    × (cell.right_margin ≡ 0)
    × (cell.align ≡ align_right)
    × ((i j : ℕ) → ((i ≡ g.y) × (j ≡ col)) ⊎ Kept (new_grid 40 3).rows g.rows i j)
unfolding new_grid
grid_add_lem_example =
    grid_add_lem (new_grid 40 3) align_right 2 none none 1 0 (some (codes "hits"))
      (new_grid-IsGrid 40 3 (omega arith))

abbrev framed : GridCell
framed = record blank_cell {
  value = codes "ab";
  left_margin = 1;
  border = record grid_init_border { vertical = b'|'; flags = 3 };
}

abbrev coloured : GridCell
coloured = record blank_cell { value = codes "long text"; color = codes "~r"; right_margin = 1 }

abbrev two_cells : GridRow
two_cells = record { columns = 2; columnsize = 6; cells = framed ∷ coloured ∷ [] }

abbrev one_row : Grid
one_row = record { rows = two_cells ∷ []; default_columns = 2; x = 2; y = 0; width = 13 }

printed : grid_print one_row ≡ some (codes "|~x ab ~x|~x~rlong t~x \n\r")
unfolding grid_print align_string
printed = refl
