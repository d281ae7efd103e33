-- ===== src/Grid/Fields.antt =====
-- The text of one cell in a row that src/grid.c prints.
use muddled.Base.{
  ℕ, ◌+◌, ◌<◌, Bool, false, not, ◌&&◌, ◌||◌, [], ◌∷◌, ◌++◌, ◌≢◌, inl, inr, Option, none, some, ◌≡◌,
  refl, ap, ◌∙◌, arith, Text, codes, Lacks, length, replicate, ◌>>=◌, leb, if◌then◌else◌,
  Bool-cases,
}
use muddled.Str.Colors.{color_code, strlen_color, end_place}
use muddled.Str.Colors.Visible.{Visible, Visible-append, Visible-plain, Visible-replicate}
use muddled.Str.Compare.{nullstr}
use muddled.Str.Fill.{align_left, align_string}
use muddled.Str.Fill.Laws.{align_string-Visible}
use muddled.Grid.{
  GridCell, has_border, border_left, border_right, border_inline, border_text, is_unended,
  print_field,
}

-- one column for a border that is drawn
abbrev pub bar : ℕ → GridCell → ℕ
bar bit cell = if has_border bit cell then 1 else 0

-- the columns of a cell whose text has the width `w`
abbrev pub field_size : GridCell → ℕ → ℕ
field_size cell w =
    bar border_left cell + cell.left_margin + w + cell.right_margin + bar border_right cell

-- a whole colour, with its NUL in four bytes
abbrev pub IsColor : Text → Type 0
IsColor color = (length color < 4) × Visible color 0

-- plain text to the left, with whole colours
abbrev pub IsPlainCell : GridCell → Type 0
IsPlainCell cell =
    (cell.align ≡ align_left)
    × ((cell.value ≢ []) × Lacks color_code cell.value × (length cell.value < 512))
    × IsColor cell.color
    × IsColor cell.border.color
    × (cell.border.vertical ≢ color_code)
    × (cell.border.horizontal ≢ color_code)

border_text-Visible :
    (bit : ℕ) (cell : GridCell)
    → IsColor cell.border.color
    → cell.border.vertical ≢ color_code
    → Visible (border_text bit cell) (bar bit cell)
border_text-Visible bit cell color n = elim (Bool-cases (has_border bit cell)) [
  | inl e ↦ rw e (
      Visible-append cell.border.color (cell.border.vertical ∷ codes "~x") 0 1 color.1 (
        Visible-append (cell.border.vertical ∷ []) (codes "~x") 1 0
          (Visible-plain (cell.border.vertical ∷ []) (n, tt))
          (unfold strlen_color end_place in (refl, refl))))
  | inr e ↦ rw e (unfold strlen_color end_place in (refl, refl))
]

abbrev fill_of : GridCell → Option Text
fill_of cell = if has_border border_inline cell then some (cell.border.horizontal ∷ []) else none

fill_byte :
    (cell : GridCell)
    → cell.border.horizontal ≢ color_code
    → (c : ℕ) × ((if nullstr (fill_of cell) then some (codes " ") else fill_of cell)
        ≡ some (c ∷ []))
      × (c ≢ color_code)
fill_byte cell n = elim (Bool-cases (has_border border_inline cell)) [
  | inl e ↦ (cell.border.horizontal, rw e refl, n)
  | inr e ↦ (b' ', rw e refl, λ s. omega arith)
]

print_field-eq :
    (cell : GridCell) (w : ℕ) (text : Text)
    → is_unended cell ≡ false
    → align_string cell.align w (some cell.color) (fill_of cell) (some cell.value) ≡ some text
    → print_field cell w
      ≡ some (
          border_text border_left cell
          ++ (replicate cell.left_margin b' '
              ++ (text ++ (replicate cell.right_margin b' ' ++ border_text border_right cell))))
unfolding print_field
print_field-eq cell w text a b = rw (a, b, ◌>>=◌) refl

ended : (a b : Bool) (m n : ℕ) → m < 4 → n < 4 → (a && leb 4 m || b && leb 4 n) ≡ false
ended a b m n h k = ground arith

pub print_field-Visible :
    (cell : GridCell) (w : ℕ)
    → IsPlainCell cell
    → 0 < w
    → w < 4000
    → (t : Text) × (print_field cell w ≡ some t) × Visible t (field_size cell w)
print_field-Visible cell w (left, (full, plain, short), color, edge, v, h) lo hi =
    let (c, filler, n) = fill_byte cell h in
    let (text, at, seen) =
      align_string-Visible w cell.color (fill_of cell) c cell.value full plain color.1 color.0
        filler n lo hi (omega arith) in
    let at' =
      ap (λ a. align_string a w (some cell.color) (fill_of cell) (some cell.value)) left ∙ at in
    let blank : (k : ℕ) → Visible (replicate k b' ') k =
      λ k. Visible-replicate k b' ' (λ e. omega arith) in
    let right = border_text border_right cell in
    let spaces : Text = replicate cell.right_margin b' ' in
    let t =
      Visible-append (border_text border_left cell)
        (replicate cell.left_margin b' ' ++ (text ++ (spaces ++ right))) (bar border_left cell)
        (cell.left_margin + (w + (cell.right_margin + bar border_right cell)))
        (border_text-Visible border_left cell edge v)
        (Visible-append (replicate cell.left_margin b' ') (text ++ (spaces ++ right))
          cell.left_margin (w + (cell.right_margin + bar border_right cell))
          (blank cell.left_margin)
          (Visible-append text (spaces ++ right) w (cell.right_margin + bar border_right cell) seen
            (Visible-append spaces right cell.right_margin (bar border_right cell)
              (blank cell.right_margin) (border_text-Visible border_right cell edge v)))) in
    (
      _,
      print_field-eq cell w text
          (ended (not (nullstr (some cell.value)))
            (has_border border_left cell || has_border border_right cell) (length cell.color)
            (length cell.border.color) color.0 edge.0)
          at',
      (t.0 ∙ omega arith, t.1),
    )
