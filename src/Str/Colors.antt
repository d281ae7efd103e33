-- ===== src/Str/Colors.antt =====
-- src/str.c: strip_color, strlen_color, strpos. A colour code is `~x`, or `~!x` for the background.
pub mod Strip
pub mod Position
pub mod Visible
use muddled.Base.{
  ℕ, ◌+◌, List, [], ◌∷◌, ◌++◌, Option, none, some, Text, length, drop, ltb, leb, ◌==◌,
  if◌then◌else◌,
}

abbrev pub color_code : ℕ
color_code = b'~'

-- where the pointer stands: in the text, behind `~`, or behind `~!`
pub data Place : Type 0 where
  in_text behind_code behind_mark : Place

-- the bytes that `strip_color` writes to `res`
pub strip_loop : Place → Text → Text
strip_loop p [] = []
strip_loop in_text (c ∷ s) =
    let code = strip_loop behind_code s in
    let copied = strip_loop in_text s in if c == color_code then code else c ∷ copied
strip_loop behind_code (c ∷ s) =
    let background = strip_loop behind_mark s in
    let text = strip_loop in_text s in if c == b'!' then background else text
strip_loop behind_mark (c ∷ s) = strip_loop in_text s

-- the text at the start of a buffer
unfoldable pub c_string : List ℕ → Text
c_string [] = []
c_string (c ∷ s) = if c == 0 then [] else c ∷ c_string s

abbrev pub out_siz : ℕ
out_siz = 2048

-- The bytes go to `out`, one of the static buffers, which has OUT_SIZ bytes, over what it holds, and no
-- terminator is written behind them. `none` is a text that goes on behind the buffer, or that fills it.
unfoldable pub strip_color : List ℕ → Text → Option Text
unfolding strip_loop c_string
strip_color out str =
    let res = strip_loop in_text str in
    if ltb (length res) (length out) then some (c_string (res ++ drop (length res) out)) else none

pub strlen_loop : Place → Text → ℕ
strlen_loop p [] = 0
strlen_loop in_text (c ∷ s) =
    let code = strlen_loop behind_code s in
    let counted = strlen_loop in_text s in if c == color_code then code else counted + 1
strlen_loop behind_code (c ∷ s) =
    let background = strlen_loop behind_mark s in
    let text = strlen_loop in_text s in if c == b'!' then background else text
strlen_loop behind_mark (c ∷ s) = strlen_loop in_text s

unfoldable pub strlen_color : Option Text → ℕ
unfolding strlen_loop
strlen_color none = 0
strlen_color (some s) = strlen_loop in_text s

-- `none` is a read behind the terminator
pub strpos_loop : Place → ℕ → ℕ → ℕ → Text → Option ℕ
strpos_loop in_text width count i [] = some i
strpos_loop behind_code width count i [] = none
strpos_loop behind_mark width count i [] = none
strpos_loop in_text width count i (c ∷ s) =
    let code = strpos_loop behind_code width count (i + 1) s in
    let counted = strpos_loop in_text width (count + 1) (i + 1) s in
    if c == color_code then code else if leb width (count + 1) then some (i + 1) else counted
strpos_loop behind_code width count i (c ∷ s) =
    let background = strpos_loop behind_mark width count (i + 1) s in
    let text = strpos_loop in_text width count (i + 1) s in if c == b'!' then background else text
strpos_loop behind_mark width count i (c ∷ s) = strpos_loop in_text width count (i + 1) s

unfoldable pub strpos : Text → ℕ → Option ℕ
unfolding strpos_loop
strpos str width = strpos_loop in_text width 0 0 str

-- where the pointer stands at the end of the text: elsewhere than in the text, a code is unfinished
unfoldable pub end_place : Place → Text → Place
end_place place [] = place
end_place in_text (c ∷ s) = end_place (if c == color_code then behind_code else in_text) s
end_place behind_code (c ∷ s) = end_place (if c == b'!' then behind_mark else in_text) s
end_place behind_mark (c ∷ s) = end_place in_text s
