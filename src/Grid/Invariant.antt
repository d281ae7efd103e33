-- ===== src/Grid/Invariant.antt =====
-- The rows and cells of a grid of src/grid.c, and a new cell.
use mathlib.Core.Option.{some-injective}
use muddled.Base.{
  ℕ, zero, suc, ◌+◌, ◌≤◌, ◌<◌, true, false, ◌&&◌, List, [], ◌∷◌, ◌++◌, ◌⊎◌, inl, inr, Option, none,
  some, ◌≡◌, refl, sym, ap, ◌∙◌, arith, Text, All, All-append, length, get_elem?, set, take,
  replicate, length-append, length-set, length-replicate, get_elem?-in, get_elem?_bound,
  get_elem?-set, get_elem?-append_right, ◌>>=◌, ltb, leb, ◌==◌, if◌then◌else◌, ==_iff, ==_refl,
  Bool-cases,
}
use muddled.Str.Fill.{AlignT}
use muddled.Grid.{
  Grid, GridRow, GridCell, Border, blank_cell, blank_row, new_grid, next_row, make_place, set_cell,
  change_cell, grid_set, grid_add, given,
}

-- each row has as many cells as columns, and each cell spans a column at least
abbrev pub IsRow : GridRow → Type 0
IsRow row = (length row.cells ≡ row.columns) × (0 < row.columns) × All (λ c. 0 < c.span) row.cells

abbrev pub IsGrid : Grid → Type 0
IsGrid grid = All IsRow grid.rows × (grid.y < length grid.rows) × (0 < grid.default_columns)

module _ {ℓ κ} {A : Type ℓ} (P : A → Type κ) where
  All-set : (xs : List A) (i : ℕ) (a : A) → All P xs → P a → All P (set xs i a)
  All-set [] i a h p = tt
  All-set (x ∷ xs) zero a h p = (p, h.1)
  All-set (x ∷ xs) (suc i) a h p = (h.0, All-set xs i a h.1 p)

  All-replicate : (n : ℕ) (a : A) → P a → All P (replicate n a)
  All-replicate zero a p = tt
  All-replicate (suc n) a p = (p, All-replicate n a p)

  pub All-at : (xs : List A) (i : ℕ) (a : A) → All P xs → get_elem? xs i ≡ some a → P a
  All-at [] i a h e = cc
  All-at (x ∷ xs) zero a h e = rw (← some-injective x a e) h.0
  All-at (x ∷ xs) (suc i) a h e = All-at xs i a h.1 e

blank_row-IsRow : (width columns : ℕ) → 0 < columns → IsRow (blank_row width columns)
blank_row-IsRow width columns h = (
  length-replicate columns blank_cell,
  h,
  All-replicate (λ c. 0 < c.span) columns blank_cell (omega arith),
)

pub new_grid-IsGrid : (width columns : ℕ) → 0 < columns → IsGrid (new_grid width columns)
unfolding new_grid
new_grid-IsGrid width columns h = ((blank_row-IsRow width columns h, tt), omega arith, h)

-- a grid with room in the row at `y`
abbrev HasPlace : Grid → Type 0
HasPlace grid = (row : GridRow) × (get_elem? grid.rows grid.y ≡ some row) × (grid.x < row.columns)

next_row_lem : (grid : Grid) → IsGrid grid → IsGrid (next_row grid) × HasPlace (next_row grid)
unfolding next_row
next_row_lem grid (rows, y, d) = elim (Bool-cases (leb (length grid.rows) (grid.y + 1))) [
  | inl more ↦
      let blank = blank_row grid.width grid.default_columns in
      let here : grid.y + 1 ≡ length grid.rows + 0 = ground arith in
      rw more (
        (
          All-append IsRow grid.rows (blank ∷ []) rows
              (blank_row-IsRow grid.width grid.default_columns d, tt),
          omega (arith, length-append grid.rows (blank ∷ []), here),
          d,
        ),
        (
          blank,
          ap (get_elem? (grid.rows ++ (blank ∷ []))) here
              ∙ get_elem?-append_right grid.rows (blank ∷ []) 0,
          d,
        ),
      )
  | inr within ↦
      let (row, e) = get_elem?-in grid.rows (grid.y + 1) (ground arith) in
      rw within
        ((rows, ground arith, d), (row, e, (All-at IsRow grid.rows (grid.y + 1) row rows e).1))
]

abbrev pub cells_at : List GridRow → ℕ → ℕ → Option GridCell
cells_at rows i j = get_elem? rows i >>= λ (row : GridRow). get_elem? row.cells j

-- a place holds what it held, or it is in a new row and blank, if it is a place at all
abbrev pub Kept : List GridRow → List GridRow → ℕ → ℕ → Type 0
Kept rows rows' i j =
    (cells_at rows' i j ≡ cells_at rows i j)
    ⊎ ((length rows ≤ i) × ((cells_at rows' i j ≡ none) ⊎ (cells_at rows' i j ≡ some blank_cell)))

replicate_at {ℓ} :
    {A : Type ℓ} (n j : ℕ) (a : A)
    → (get_elem? (replicate n a) j ≡ none) ⊎ (get_elem? (replicate n a) j ≡ some a)
replicate_at zero j a = inl refl
replicate_at (suc n) zero a = inr refl
replicate_at (suc n) (suc j) a = replicate_at n j a

Kept-append :
    (rows : List GridRow) (width columns i j : ℕ)
    → Kept rows (rows ++ (blank_row width columns ∷ [])) i j
Kept-append [] width columns zero j = inr (omega arith, replicate_at columns j blank_cell)
Kept-append [] width columns (suc i) j = inl refl
Kept-append (row ∷ rows) width columns zero j = inl refl
Kept-append (row ∷ rows) width columns (suc i) j = elim (Kept-append rows width columns i j) [
  | inl same ↦ inl same
  | inr (new, what) ↦ inr (omega arith, what)
]

Kept-next_row : (grid : Grid) (i j : ℕ) → Kept grid.rows (next_row grid).rows i j
unfolding next_row
Kept-next_row grid i j = elim (Bool-cases (leb (length grid.rows) (grid.y + 1))) [
  | inl more ↦ rw more (Kept-append grid.rows grid.width grid.default_columns i j)
  | inr within ↦ rw within (inl refl)
]

-- the place for the next cell, behind the one before, or in front in the row below
abbrev pub IsNext : Grid → GridRow → ℕ → ℕ → Type 0
IsNext grid row y x =
    (y ≡ (if leb row.columns grid.x then grid.y + 1 else grid.y))
    × (x ≡ (if leb row.columns grid.x then 0 else grid.x))

-- the number of rows with the row of the next cell, which is a new one below the last
abbrev pub rows_after : Grid → GridRow → ℕ
rows_after grid row =
    if leb row.columns grid.x && leb (length grid.rows) (grid.y + 1)
    then length grid.rows + 1
    else length grid.rows

length-next_row :
    (grid : Grid) (row : GridRow)
    → leb row.columns grid.x ≡ true
    → length (next_row grid).rows ≡ rows_after grid row
unfolding next_row
length-next_row grid row full = elim (Bool-cases (leb (length grid.rows) (grid.y + 1))) [
  | inl more ↦
      rw (more, full) (length-append grid.rows (blank_row grid.width grid.default_columns ∷ []))
  | inr within ↦ rw (within, full) refl
]

make_place_lem :
    (grid : Grid)
    → IsGrid grid
    → (g : Grid) × (row : GridRow) × (make_place grid ≡ some g)
      × IsGrid g
      × HasPlace g
      × (get_elem? grid.rows grid.y ≡ some row)
      × IsNext grid row g.y g.x
      × (length g.rows ≡ rows_after grid row)
      × ((i j : ℕ) → Kept grid.rows g.rows i j)
unfolding make_place next_row
make_place_lem grid h =
    let (row, e) = get_elem?-in grid.rows grid.y h.1 in
    elim (Bool-cases (leb row.columns grid.x)) [
      | inl full ↦
          let (is, has) = next_row_lem grid h in
          (
            next_row grid,
            row,
            rw (e, ◌>>=◌, full) refl,
            is,
            has,
            e,
            rw full (refl, refl),
            length-next_row grid row full,
            Kept-next_row grid,
          )
      | inr room ↦ (
        grid,
        row,
        rw (e, ◌>>=◌, room) refl,
        h,
        (row, e, ground arith),
        e,
        rw room (refl, refl),
        rw room refl,
        λ i j. inl refl,
      )
    ]

set_here {ℓ} :
    {A : Type ℓ} (xs : List A) (i : ℕ) (v : A) → i < length xs → get_elem? (set xs i v) i ≡ some v
set_here xs i v h = get_elem?-set xs i i v h ∙ rw (==_refl i) refl

change_cell-IsRow :
    (row : GridRow) (x : ℕ) (cell : GridCell)
    → IsRow row
    → 0 < cell.span
    → IsRow (change_cell row x cell)
change_cell-IsRow row x cell (n, p, h) s =
    (length-set row.cells x cell ∙ n, p, All-set (λ c. 0 < c.span) row.cells x cell h s)

module _ (grid : Grid) (row : GridRow) (x : ℕ) (cell : GridCell) where
  put : List GridRow
  put = set grid.rows grid.y (change_cell row x cell)

  put-IsGrid :
      IsGrid grid
      → get_elem? grid.rows grid.y ≡ some row
      → 0 < cell.span
      → All IsRow put × (grid.y < length put)
  unfolding put
  put-IsGrid (rows, y, d) e s = (
    All-set IsRow grid.rows grid.y (change_cell row x cell) rows
        (change_cell-IsRow row x cell (All-at IsRow grid.rows grid.y row rows e) s),
    omega (arith, length-set grid.rows grid.y (change_cell row x cell)),
  )

lt_false : (a b : ℕ) → b < a → ltb a b ≡ false
lt_false a b h = ground arith

span_pos :
    (align : AlignT) (colspan : ℕ) (border : Option Border) (color : Option Text) (lm rm : ℕ)
    (cell : GridCell)
    → 0 < (set_cell align colspan border color lm rm cell).span
unfolding set_cell
span_pos align colspan border color lm rm cell = ground arith

-- a cell that is put in its place
cells_at-put :
    (rows : List GridRow) (y : ℕ) (row : GridRow) (x : ℕ) (cell : GridCell) (i j : ℕ)
    → get_elem? rows y ≡ some row
    → x < length row.cells
    → cells_at (set rows y (change_cell row x cell)) i j
      ≡ (if (y == i) && (x == j) then some cell else cells_at rows i j)
cells_at-put rows y row x cell i j e l =
    let at_row = get_elem?-set rows y i (change_cell row x cell) (get_elem?_bound rows y e) in
    elim (Bool-cases (y == i)) [
      | inl here ↦
          let same : y ≡ i = (==_iff y i).0 here in
          let old : get_elem? rows i ≡ some row = ap (get_elem? rows) (sym same) ∙ e in
          rw (at_row, here, ◌>>=◌, old) (get_elem?-set row.cells x j cell l)
      | inr away ↦ rw (at_row, away) refl
    ]

-- the same place, changed twice
cells_at-put_twice :
    (rows : List GridRow) (y : ℕ) (row : GridRow) (x : ℕ) (old cell : GridCell) (i j : ℕ)
    → get_elem? rows y ≡ some row
    → x < length row.cells
    → cells_at
        (set (set rows y (change_cell row x old)) y (change_cell (change_cell row x old) x cell))
        i
        j
      ≡ (if (y == i) && (x == j) then some cell else cells_at rows i j)
cells_at-put_twice rows y row x old cell i j e l =
    let here = set_here rows y (change_cell row x old) (get_elem?_bound rows y e) in
    cells_at-put (set rows y (change_cell row x old)) y (change_cell row x old) x cell i j here
      (omega (arith, length-set row.cells x old))
    ∙ rw (cells_at-put rows y row x old i j e l) (ground arith)

-- the new cell, and all others
Kept-put :
    (rows rows' rows'' : List GridRow) (y x i j : ℕ) (cell : GridCell)
    → Kept rows rows' i j
    → cells_at rows'' i j ≡ (if (y == i) && (x == j) then some cell else cells_at rows' i j)
    → ((i ≡ y) × (j ≡ x)) ⊎ Kept rows rows'' i j
Kept-put rows rows' rows'' y x i j cell kept e = elim (Bool-cases ((y == i) && (x == j))) [
  | inl here ↦ inl (ground arith, ground arith)
  | inr away ↦
      let same : cells_at rows'' i j ≡ cells_at rows' i j = e ∙ rw away refl in
      elim kept [
        | inl k ↦ inr (inl (same ∙ k))
        | inr (new, inl n) ↦ inr (inr (new, inl (same ∙ n)))
        | inr (new, inr n) ↦ inr (inr (new, inr (same ∙ n)))
      ]
]

-- From a grid whose rows have as many cells as columns, and whose cells each span a column at
-- least, grid_add puts the cell behind the one before, or, if the row is full, in front in the row
-- below, which is a new one if there was none. The grid stays so; the cell has the span, the
-- margins, the alignment and the first 511 bytes of the text. Every other place holds what it held,
-- and in a new row a blank cell.
pub grid_add_lem :
    (grid : Grid) (align : AlignT) (colspan : ℕ) (border : Option Border) (color : Option Text)
    (lm rm : ℕ) (value : Option Text)
    → IsGrid grid
    → (g : Grid) × (col : ℕ) × (last row : GridRow) × (cell : GridCell) × (grid_add grid align
          colspan border color lm rm value
        ≡ some (g, col))
      × IsGrid g
      × (get_elem? grid.rows grid.y ≡ some last)
      × IsNext grid last g.y col
      × (length g.rows ≡ rows_after grid last)
      × (g.x ≡ col + colspan)
      × (get_elem? g.rows g.y ≡ some row)
      × (get_elem? row.cells col ≡ some cell)
      × (cell.value ≡ take 511 (given value []))
      × (cell.span ≡ (if ltb 1 colspan then colspan else 1))
      × (cell.left_margin ≡ lm)
      × (cell.right_margin ≡ rm)
      × (cell.align ≡ align)
      × ((i j : ℕ) → ((i ≡ g.y) × (j ≡ col)) ⊎ Kept grid.rows g.rows i j)
unfolding grid_add grid_set set_cell put
grid_add_lem grid align colspan border color lm rm value h =
    let (g, last, m, is, (row, e, room), at_last, next, count, kept) = make_place_lem grid h in
    let is_row = All-at IsRow g.rows g.y row is.0 e in
    let (old, at_old) = get_elem?-in row.cells g.x (omega (arith, is_row.0)) in
    let cell = set_cell align colspan border color lm rm old in
    let wide = span_pos align colspan border color lm rm old in
    let row' = change_cell row g.x cell in
    let set_rows = put-IsGrid g row g.x cell is e wide in
    let g' : Grid = record g { rows = set g.rows g.y row' } in
    let cell' : GridCell = record cell { value = take 511 (given value []) } in
    let row'' = change_cell row' g.x cell' in
    let here : get_elem? g'.rows g.y ≡ some row' = set_here g.rows g.y row' is.1 in
    let at_cell : get_elem? row'.cells g.x ≡ some cell =
      set_here row.cells g.x cell (omega (arith, is_row.0)) in
    let final = put-IsGrid g' row' g.x cell' (set_rows.0, set_rows.1, is.2) here wide in
    (
      record g' { rows = set g'.rows g.y row''; x = g.x + colspan },
      g.x,
      last,
      row'',
      cell',
      rw
          (
            m,
            ◌>>=◌,
            lt_false (length g.rows) g.y is.1,
            e,
            ◌>>=◌,
            lt_false row.columns g.x room,
            at_old,
            ◌>>=◌,
            here,
            at_cell,
          )
          refl,
      (final.0, final.1, is.2),
      at_last,
      next,
      length-set g'.rows g.y row'' ∙ length-set g.rows g.y row' ∙ count,
      refl,
      set_here g'.rows g.y row'' set_rows.1,
      set_here row'.cells g.x cell' (omega (arith, is_row.0, length-set row.cells g.x cell)),
      refl,
      refl,
      refl,
      refl,
      refl,
      λ i j.
          Kept-put grid.rows g.rows (set g'.rows g.y row'') g.y g.x i j cell' (kept i j)
            (cells_at-put_twice g.rows g.y row g.x cell cell' i j e (omega (arith, is_row.0))),
    )
