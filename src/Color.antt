-- ===== src/Color.antt =====
-- src/color.c: colour codes, and what is sent to a terminal or a web page for a colour.
pub mod Laws
use muddled.Base.Int.{ℤ, pos, negsuc, ◌==ℤ◌}
use muddled.Base.{
  ℕ, suc, ◌+◌, ◌/◌, ◌%◌, Bool, not, ◌&&◌, ◌||◌, [], ◌∷◌, ◌++◌, Option, none, some, Text, codes,
  is_upper, is_lower, toupper, drop, ltb, leb, ◌==◌, if◌then◌else◌,
}
use muddled.Str.Compare.{char_at}

-- `color_t`
pub record ColorT : Type 0 where
  pub attr : ℤ
  pub value : ℕ

abbrev pub color_code : ℕ
color_code = b'~'

abbrev pub bg_mod : ℕ
bg_mod = 10

-- `a == BOLD || a == NORMAL || a == BLINK`
pub is_valid_attr : ℤ → Bool
is_valid_attr a = a ==ℤ pos 1 || a ==ℤ pos 0 || a ==ℤ pos 5

-- from BLACK to WHITE, or that and `BG_MOD`
pub is_valid_color : ℕ → Bool
is_valid_color c = leb 30 c && leb c 37 || leb 40 c && leb c 47

-- `%d`, for the one or two digits that an attribute or a colour has
abbrev pub print_small : ℕ → Text
print_small n = if ltb n 10 then (b'0' + n) ∷ [] else (b'0' + n / 10) ∷ (b'0' + n % 10) ∷ []

abbrev pub print_attr : ℤ → Text
print_attr (pos a) = print_small a
print_attr (negsuc a) = b'-' ∷ print_small (suc a)

-- `buf[--len] = 0`
pub cut_last : Text → Text
cut_last [] = []
cut_last (c ∷ []) = []
cut_last (c ∷ d ∷ s) = c ∷ cut_last (d ∷ s)

pub make_terminal_color : ColorT → Text
unfolding is_valid_attr is_valid_color cut_last
make_terminal_color color =
    let start = 27 ∷ b'[' ∷ [] in
    let with_attr =
      if is_valid_attr color.attr then start ++ (print_attr color.attr ++ (b';' ∷ [])) else start in
    (if is_valid_color color.value
      then with_attr ++ print_small color.value
      else cut_last with_attr)
    ++ (b'm' ∷ [])

-- the cases of the `switch` in `make_html_color`
pub color_class : ℕ → Text
color_class c =
    if c == 31
    then codes "red"
    else if c == 32
    then codes "green"
    else if c == 33
    then codes "yellow"
    else if c == 34
    then codes "blue"
    else if c == 36
    then codes "cyan"
    else if c == 35
    then codes "magenta"
    else if c == 37
    then codes "white"
    else if c == 30
    then codes "black"
    else []

unfoldable pub make_html_color : ColorT → Text
unfolding is_valid_attr is_valid_color color_class
make_html_color color =
    codes "<span class=\""
    ++ ((if is_valid_attr color.attr && not (color.attr ==ℤ pos 0) then codes "bold" else [])
        ++ ((if is_valid_color color.value then color_class color.value else []) ++ codes "\">"))

unfoldable pub finish_html_color : Text
finish_html_color = codes "</span>"

-- what the `switch` in `convert_color_code` adds to the value, for the letters that name a colour
unfoldable pub letter_color : ℕ → Option ℕ
letter_color c =
    if c == b'B'
    then some 34
    else if c == b'G'
    then some 32
    else if c == b'R'
    then some 31
    else if c == b'Y'
    then some 33
    else if c == b'M'
    then some 35
    else if c == b'W'
    then some 37
    else if c == b'C'
    then some 36
    else if c == b'D'
    then some 30
    else none

-- the colour that the code letter at `*pstr` sets; `*pstr` is 0 at the end of the text. `coin` and
-- `any` are what `number_range(0, 1)` and `number_range(BLACK + 1, WHITE)` return.
pub letter_set : ℕ → ℕ → Bool → ℕ → ColorT
unfolding letter_color
letter_set coin any bg c =
    let value = if bg then bg_mod else 0 in
    let attr = if is_lower c then pos 0 else if is_upper c then pos 1 else negsuc 0 in
    let named = letter_color (toupper c) in
    if toupper c == b'X'
    then record { attr = pos 0; value = 0 }
    else if c == b'?'
    then record { attr = pos coin; value = value + any }
    else elim named [
      | some v ↦ record { attr = attr; value = value + v }
      | none ↦ record { attr = attr; value = value }
    ]

-- the text from `pstr` on that is returned, and the colour; NULL for no colour
pub convert_letter : ℕ → ℕ → Bool → Text → Option ColorT → Text × Option ColorT
unfolding letter_set
convert_letter coin any bg pstr none = (pstr, none)
convert_letter coin any bg pstr (some color) =
    let c = char_at pstr in
    if c == color_code then (pstr, some color) else (pstr, some (letter_set coin any bg c))

-- `none` is a failed assertion
pub convert_color_code : ℕ → ℕ → Text → Option ColorT → Option (Text × Option ColorT)
unfolding convert_letter
convert_color_code coin any [] color = none
convert_color_code coin any (c ∷ pstr) color =
    let bg = char_at pstr == b'!' in
    if c == color_code
    then some (convert_letter coin any bg (if bg then drop 1 pstr else pstr) color)
    else none
