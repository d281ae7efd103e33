-- ===== src/Grid.antt =====
-- src/grid.c: the layout of cells in rows. Counts and margins are not negative. An index outside a row or
-- the grid is `none`.
pub mod Fields
pub mod Widths
pub mod Invariant
use Prim.Native.Nat.{bit_and}
use muddled.Base.{
  ℕ, zero, suc, ◌+◌, ◌-◌, ◌*◌, ◌/◌, Bool, true, false, not, ◌&&◌, ◌||◌, List, [], ◌∷◌, ◌++◌, map,
  Option, none, some, Text, codes, length, get_elem?, set, take, drop, replicate, ◌>>=◌, ltb, leb,
  ◌==◌, if◌then◌else◌,
}
use muddled.Base.Int.{ℤ, pos, negsuc, ◌-ℤ◌, ◌+ℤ◌}
use muddled.Str.Compare.{nullstr}
use muddled.Str.Fill.{AlignT, align_left, align_string}

-- the bits of `flags`
abbrev pub border_left : ℕ
border_left = 1

abbrev pub border_right : ℕ
border_right = 2

abbrev pub border_inline : ℕ
border_inline = 4

abbrev pub buf_siz : ℕ
buf_siz = 512

pub record Border : Type 0 where
  pub color : Text
  pub vertical : ℕ
  pub horizontal : ℕ
  pub flags : ℕ

pub record GridCell : Type 0 where
  pub value : Text
  pub span : ℕ
  pub left_margin : ℕ
  pub right_margin : ℕ
  pub align : AlignT
  pub border : Border
  pub color : Text

pub record GridRow : Type 0 where
  pub columns : ℕ
  pub columnsize : ℕ
  pub cells : List GridCell

-- `rowcount` is the length of `rows`
pub record Grid : Type 0 where
  pub rows : List GridRow
  pub default_columns : ℕ
  pub x : ℕ
  pub y : ℕ
  pub width : ℕ

abbrev pub grid_init_border : Border
grid_init_border = record { color = []; vertical = b' '; horizontal = b' '; flags = 0 }

-- the loops that reset cells, which leave the margins
abbrev pub reset_cell : GridCell → GridCell
reset_cell cell = record cell { value = []; span = 1; color = []; border = grid_init_border }

-- a cell of zeros, reset
abbrev pub blank_cell : GridCell
blank_cell = record {
  value = [];
  span = 1;
  left_margin = 0;
  right_margin = 0;
  align = align_left;
  border = grid_init_border;
  color = [];
}

-- `grid_init_row`, on memory of zeros
abbrev pub blank_row : ℕ → ℕ → GridRow
blank_row width columns = record {
  columns = columns;
  columnsize = width / columns;
  cells = replicate columns blank_cell;
}

unfoldable pub new_grid : ℕ → ℕ → Grid
new_grid width columns = record {
  rows = blank_row width columns ∷ [];
  default_columns = columns;
  x = 0;
  y = 0;
  width = width;
}

pub next_row : Grid → Grid
next_row grid = record grid {
  rows =
      if leb (length grid.rows) (grid.y + 1)
      then grid.rows ++ (blank_row grid.width grid.default_columns ∷ [])
      else grid.rows;
  x = 0;
  y = grid.y + 1;
}

-- `if (grid->x >= grid->rows[grid->y].columns) next_row(grid);`
pub make_place : Grid → Option Grid
unfolding next_row
make_place grid = do
  row ← get_elem? grid.rows grid.y
  some (if leb row.columns grid.x then next_row grid else grid)

-- `realloc` leaves `old` in the cells that are new
abbrev pub resized : GridCell → List GridCell → ℕ → List GridCell
resized old cells columns = take columns (cells ++ replicate (columns - length cells) old)

abbrev pub reset_from : ℕ → List GridCell → List GridCell
reset_from x cells = take x cells ++ map reset_cell (drop x cells)

unfoldable pub grid_set_next_row : GridCell → Grid → ℕ → Option Grid
unfolding make_place
grid_set_next_row old grid' columns = do
  grid ← make_place grid'
  row ← get_elem? grid.rows grid.y
  some (record grid {
    rows = set grid.rows grid.y (record {
      columns = columns;
      columnsize = grid.width / columns;
      cells = reset_from grid.x (resized old row.cells columns);
    });
  })

abbrev pub given : {A : Type 0} → Option A → A → A
given none a = a
given (some b) a = b

-- `strncpy` to the four bytes of a colour
abbrev pub short_color : Text → Text
short_color color = take 4 color

abbrev pub copied_border : Option Border → Border → Border
copied_border none old = old
copied_border (some border) old = record border { color = short_color border.color }

abbrev pub copied_color : Option Text → Text → Text
copied_color none old = old
copied_color (some color) old = short_color color

pub set_cell : AlignT → ℕ → Option Border → Option Text → ℕ → ℕ → GridCell → GridCell
set_cell align colspan border color left_mar right_mar cell = record cell {
  span = if ltb 1 colspan then colspan else 1;
  border = copied_border border cell.border;
  color = copied_color color cell.color;
  left_margin = left_mar;
  right_margin = right_mar;
  align = align;
}

-- a cell of a row that is changed
abbrev pub change_cell : GridRow → ℕ → GridCell → GridRow
change_cell row x cell = record row { cells = set row.cells x cell }

-- The test lets one row and one column too many pass.
pub grid_set : Grid → ℕ → ℕ → AlignT → ℕ → Option Border → Option Text → ℕ → ℕ → Option Grid
unfolding set_cell
grid_set grid x y align colspan border color left_mar right_mar =
    if ltb (length grid.rows) y then some grid else do
      row ← get_elem? grid.rows y
      if ltb row.columns x then some grid else do
        cell ← get_elem? row.cells x
        some (record grid {
          rows =
              set grid.rows y
                (change_cell row x (set_cell align colspan border color left_mar right_mar cell));
        })

-- The grid and the column of the new cell; `value` is a text, and NULL is the empty one.
pub grid_add :
    Grid → AlignT → ℕ → Option Border → Option Text → ℕ → ℕ → Option Text → Option (Grid × ℕ)
unfolding make_place grid_set
grid_add grid' align colspan border color lm rm value = do
  placed ← make_place grid'
  grid ← grid_set placed placed.x placed.y align colspan border color lm rm
  row ← get_elem? grid.rows grid.y
  cell ← get_elem? row.cells grid.x
  some (
    record grid {
      rows =
          set grid.rows grid.y
            (change_cell row grid.x (record cell { value = take (buf_siz - 1) (given value []) }));
      x = grid.x + colspan;
    },
    grid.x,
  )

unfoldable pub grid_add_default : Grid → Text → Option (Grid × ℕ)
unfolding grid_add
grid_add_default grid value = grid_add grid align_left 1 none none 1 1 (some value)

unfoldable pub grid_add_border : Grid → Border → Text → Option (Grid × ℕ)
unfolding grid_add
grid_add_border grid border value = grid_add grid align_left 1 (some border) none 1 1 (some value)

abbrev pub has_border : ℕ → GridCell → Bool
has_border bit cell = not (bit_and cell.border.flags bit == 0)

-- the columns that the margins and the borders of a cell take
pub width_adjust : GridCell → ℕ
width_adjust cell =
    cell.left_margin
    + cell.right_margin
    + (if has_border border_left cell then 1 else 0)
    + (if has_border border_right cell then 1 else 0)

-- the columns that are left for the text of a cell at `j`
pub col_width : Grid → GridRow → ℕ → GridCell → ℤ
unfolding width_adjust
col_width grid row j cell =
    let colwidth = pos (row.columnsize * cell.span) -ℤ pos (width_adjust cell) in
    if leb row.columns (j + cell.span)
    then colwidth +ℤ (pos grid.width -ℤ pos (row.columnsize * row.columns))
    else colwidth

-- The cells that `grid_print` visits, with their columns, on fuel.
unfoldable pub visited : ℕ → GridRow → ℕ → Option (List (ℕ × GridCell))
visited zero row j = none
visited (suc fuel) row j = elim (ltb j row.columns) [
  | false ↦ some []
  | true ↦ do
    cell ← get_elem? row.cells j
    more ← visited fuel row (j + cell.span)
    some ((j, cell) ∷ more)
]

abbrev pub border_text : ℕ → GridCell → Text
border_text bit cell =
    if has_border bit cell then cell.border.color ++ (cell.border.vertical ∷ codes "~x") else []

-- whether a colour that is written has four bytes, so that no NUL ends it
abbrev pub is_unended : GridCell → Bool
is_unended cell =
    not (nullstr (some cell.value)) && leb 4 (length cell.color)
    || (has_border border_left cell || has_border border_right cell)
      && leb 4 (length cell.border.color)

-- What is written for a cell whose text has the width `w`; `none` is a read behind a colour, or what
-- fails in align_string. The byte behind the member that serves as the fill is 0.
pub print_field : GridCell → ℕ → Option Text
print_field cell w = if is_unended cell then none else do
  text ←
      align_string cell.align w (some cell.color)
        (if has_border border_inline cell then some (cell.border.horizontal ∷ []) else none)
        (some cell.value)
  some (
      border_text border_left cell
      ++ (replicate cell.left_margin b' '
          ++ (text ++ (replicate cell.right_margin b' ' ++ border_text border_right cell))))

-- One cell; a width below 0 is `none` here.
pub print_cell : Grid → GridRow → ℕ → GridCell → Option Text
unfolding col_width print_field
print_cell grid row j cell = elim (col_width grid row j cell) [
  | negsuc w ↦ none
  | pos w ↦ print_field cell w
]

pub print_cells : Grid → GridRow → List (ℕ × GridCell) → Option Text
unfolding print_cell
print_cells grid row [] = some (codes "\n\r")
print_cells grid row ((j, cell) ∷ more) = do
  text ← print_cell grid row j cell
  rest ← print_cells grid row more
  some (text ++ rest)

pub print_rows : Grid → List GridRow → Option Text
unfolding visited print_cells
print_rows grid [] = some []
print_rows grid (row ∷ rows) = do
  cells ← visited (suc row.columns) row 0
  text ← print_cells grid row cells
  rest ← print_rows grid rows
  some (text ++ rest)

-- the text of the page
unfoldable pub grid_print : Grid → Option Text
unfolding print_rows
grid_print grid = print_rows grid grid.rows
