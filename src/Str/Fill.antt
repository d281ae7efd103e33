-- ===== src/Str/Fill.antt =====
-- src/str.c: fill_str_len, fillstr, align_string, strupper.
pub mod Laws
use Prim.Native.Nat.{min}
use muddled.Base.{
  ℕ, zero, suc, ◌+◌, ◌-◌, ◌*◌, ◌/◌, ◌%◌, ◌^◌, true, false, ◌||◌, List, [], ◌∷◌, ◌++◌, map, Option,
  none, some, Text, codes, toupper, length, take, drop, leb, ◌==◌, if◌then◌else◌,
}
use muddled.Str.Compare.{nullstr}
use muddled.Str.Colors.{color_code, c_string, strlen_color, strpos}

abbrev repeat : ℕ → Text → Text
repeat zero src = []
repeat (suc n) src = src ++ repeat n src

-- The second loop: the front of the text up to `left` visible bytes, with the codes before them. At
-- the end of the text behind a mark only the mark is copied.
pub fill_part : ℕ → Text → Text
fill_part zero src = []
fill_part (suc left) [] = []
fill_part (suc left) (c ∷ []) = c ∷ []
fill_part (suc left) (c ∷ d ∷ []) =
    if c == color_code then c ∷ d ∷ [] else c ∷ fill_part left (d ∷ [])
fill_part (suc left) (c ∷ d ∷ e ∷ s) =
    let plain = fill_part left (d ∷ e ∷ s) in
    let behind_two = fill_part (suc left) (e ∷ s) in
    let behind_three = fill_part (suc left) s in
    if c == color_code
    then (if d == b'!' then c ∷ d ∷ e ∷ behind_three else c ∷ d ∷ behind_two)
    else c ∷ plain

-- a text in a buffer of `OUT_SIZ * 2` bytes
abbrev pub fits : Text → Option Text
fits s = if leb 4096 (length s) then none else some s

-- The result `none` is a division by zero, for a text of codes only, or a text that does not fit the
-- buffer.
pub fill_str_len : Option Text → ℕ → Option Text
unfolding fill_part strlen_color
fill_str_len none len = some []
fill_str_len (some src) len =
    let cz = strlen_color (some src) in
    if nullstr (some src) || len == 0
    then some []
    else elim (cz == 0 || leb 4096 (len / cz * length src)) [
      | true ↦ none
      | false ↦ fits (repeat (len / cz) src ++ fill_part (len % cz) src)
    ]

unfoldable pub fillstr : Option Text → ℕ → Option Text
unfolding fill_str_len
fillstr fill len = fill_str_len (if nullstr fill then some (codes "-") else fill) len

-- `align_t`
pub data AlignT : Type 0 where
  align_left align_right align_center align_indent : AlignT

-- a difference of two `size_t`
abbrev pub minus : ℕ → ℕ → ℕ
minus a b = (a + 2 ^ 64 - b) % 2 ^ 64

-- how much is filled in front
abbrev pub front_fill : AlignT → ℕ → ℕ → ℕ
front_fill align_left width n_count = 0
front_fill align_right width n_count = minus width (n_count + 1)
front_fill align_center width n_count = minus width n_count / 2
front_fill align_indent width n_count = 8

abbrev pub prefix_of : Option Text → Text
prefix_of none = []
prefix_of (some c) = c

-- NULL is no colour; `none` is a failed fill, or a read behind the end of `str`
unfoldable pub align_string : AlignT → ℕ → Option Text → Option Text → Option Text → Option Text
unfolding fill_str_len strlen_color strpos
align_string align width color fill none = some []
align_string align width color fill (some str) =
    let filler = if nullstr fill then some (codes " ") else fill in
    let sz = strlen_color (some str) in
    let cnt = front_fill align width (min sz width) in
    let total = (cnt + sz) % 2 ^ 64 in
    if nullstr (some str) then some [] else elim (fill_str_len filler cnt) [
      | none ↦ none
      | some front ↦ elim (strpos str width) [
        | none ↦ none
        | some pos ↦ elim (fill_str_len filler (minus width (min total width))) [
          | none ↦ none
          | some back ↦ fits (prefix_of color ++ (front ++ (take pos str ++ (back ++ codes "~x"))))
        ]
      ]
    ]

-- The static buffer holds `out` before; no terminator is written.
unfoldable pub strupper : List ℕ → Option Text → Text
unfolding c_string
strupper out none = []
strupper out (some str) = map toupper str ++ c_string (drop (length str) out)
