-- ===== src/Importer.antt =====
-- src/server/importer.c: the readers of area files. A file is the list of the bytes that are left and
-- the mark that its end was met; at the end fgetc() gives EOF, which is 255 in a char. A long has 64
-- bits.
pub mod Numbers
pub mod Letters
pub mod Strings
pub mod Tables
pub mod Convert
use mathlib.Core.List.{reverse}
use muddled.Base.{
  ℕ, zero, suc, ◌+◌, ◌-◌, ◌*◌, ◌^◌, Bool, true, false, not, ◌&&◌, ◌||◌, List, [], ◌∷◌, Text,
  is_upper, is_lower, is_digit, is_space, length, drop, ltb, leb, ◌==◌, if◌then◌else◌,
}
use muddled.Base.Int.{ℤ, pos, negsuc, ◌+ℤ◌, ◌-ℤ◌}
use muddled.Str.Numbers.{skip_space, read_sign}

pub record Stream : Type 0 where
  pub rest : List ℕ
  pub at_end : Bool

-- How a reader ends: it aborts, writes outside its buffer, overflows a long, or has not ended within
-- the rounds that it was given.
pub data Read (A : Type 0) : Type 0 where
  done : A → Stream → Read A
  aborts outside overflows spent : Read A

abbrev pub eof : ℕ
eof = 255

abbrev pub out_siz : ℕ
out_siz = 2048

abbrev pub before : List ℕ → Stream
before s = record { rest = s; at_end = false }

abbrev pub ended : Stream
ended = record { rest = []; at_end = true }

-- fgetc() on what is left
abbrev pub fgetc : List ℕ → ℕ × Stream
fgetc [] = (eof, ended)
fgetc (c ∷ s) = (c, before s)

-- EOF is not pushed back, nor is a byte that looks the same in a char
abbrev pub ungetc : ℕ → Stream → Stream
ungetc c fp = if c == eof then fp else before (c ∷ fp.rest)

unfoldable pub fread_letter : Stream → ℕ × Stream
unfolding skip_space
fread_letter fp = fgetc (skip_space fp.rest)

abbrev pub starts_digit : List ℕ → Bool
starts_digit [] = false
starts_digit (c ∷ s) = is_digit c

-- `while (isdigit(c))`: the number, the byte behind it, and what follows
pub digit_loop : ℕ → List ℕ → ℕ × ℕ × Stream
digit_loop number [] = (number, eof, ended)
digit_loop number (c ∷ s) =
    let more = digit_loop (number * 10 + (c - b'0')) s in
    if is_digit c then more else (number, c, before s)

abbrev pub long_end : ℕ
long_end = 2 ^ 63

abbrev pub in_long : ℤ → Bool
in_long (pos n) = ltb n long_end
in_long (negsuc n) = ltb n long_end

-- the result of a computation in a long
abbrev pub fit : ℤ → Stream → Read ℤ
fit n fp = if in_long n then done n fp else overflows

-- Whether `number * 10 + c - '0'`, from the left, leaves a long in one of the rounds that give
-- `number`: the numbers grow, so the last round decides.
abbrev pub too_high : ℕ → Bool
too_high number = leb long_end (number + b'0')

abbrev pub add_to : ℤ → Read ℤ → Read ℤ
add_to n (done m fp) = fit (n +ℤ m) fp
add_to n aborts = aborts
add_to n outside = outside
add_to n overflows = overflows
add_to n spent = spent

abbrev pub signed : Bool → ℕ → ℤ
signed sign n = if sign then pos 0 -ℤ pos n else pos n

-- The number at the front, with those behind bars added, on fuel.
pub bar_loop : ℕ → List ℕ → Read ℤ
unfolding digit_loop skip_space read_sign
bar_loop zero s = spent
bar_loop (suc fuel) s =
    let (sign, t) = read_sign (skip_space s) in
    let (n, e, fp) = digit_loop 0 t in
    let more = bar_loop fuel fp.rest in
    if starts_digit t
    then (if too_high n
        then overflows
        else if e == b'|'
        then add_to (signed sign n) more
        else done (signed sign n) (if e == b' ' then fp else ungetc e fp))
    else aborts

unfoldable pub fread_number : Stream → Read ℤ
unfolding bar_loop
fread_number fp = bar_loop (suc (length fp.rest)) fp.rest

-- the loops of `flag_convert`, by the letters left
abbrev pub double_loop : ℕ → ℕ → ℕ
double_loop zero bitsum = bitsum
double_loop (suc k) bitsum = double_loop k (bitsum * 2)

pub flag_convert : ℕ → ℕ
flag_convert letter =
    if is_upper letter
    then double_loop (letter - b'A') 1
    else if is_lower letter
    then double_loop (letter - b'a') 67108864
    else 0

-- the letters at the front of a flag, and what they leave
pub letter_loop : ℕ → List ℕ → ℕ × List ℕ
unfolding flag_convert
letter_loop number [] = (number, [])
letter_loop number (c ∷ s) =
    let more = letter_loop (number + flag_convert c) s in
    if is_upper c || is_lower c then more else (number, c ∷ s)

-- The form `+YnY`; a shift by 63 or more, which every byte makes, leaves a long.
pub yes_loop : ℕ → ℕ → List ℕ → Read ℤ
yes_loop number flag [] = if leb 63 number then overflows else done (pos flag) ended
yes_loop number flag (c ∷ s) =
    let more = yes_loop (number + 1) (if c == b'Y' then flag + 2 ^ number else flag) s in
    if leb 63 number
    then overflows
    else if c == b'Y' || c == b'n'
    then more
    else done (pos flag) (if c == 10 || c == 13 then ungetc c (before s) else before s)

abbrev pub read_minus : List ℕ → Bool × List ℕ
read_minus [] = (false, [])
read_minus (c ∷ s) = if c == b'-' then (true, s) else (false, c ∷ s)

abbrev pub negate : Bool → Read ℤ → Read ℤ
negate false r = r
negate true (done m fp) = fit (pos 0 -ℤ m) fp
negate true aborts = aborts
negate true outside = outside
negate true overflows = overflows
negate true spent = spent

abbrev pub starts_plus : List ℕ → Bool
starts_plus [] = false
starts_plus (c ∷ s) = c == b'+'

pub flag_loop : ℕ → List ℕ → Read ℤ
unfolding digit_loop letter_loop yes_loop skip_space
flag_loop zero s = spent
flag_loop (suc fuel) s =
    let t = skip_space s in
    let (negative, u) = read_minus t in
    let (letters, v) = letter_loop 0 u in
    let (n, e, fp) = digit_loop letters v in
    let more = flag_loop fuel fp.rest in
    let overflow = if starts_digit v then too_high n else leb long_end n in
    let flag = yes_loop 0 0 (drop 1 t) in
    if starts_plus t
    then flag
    else negate negative (
        if overflow
        then overflows
        else if e == b'|'
        then add_to (pos n) more
        else done (pos n) (if e == b' ' then fp else ungetc e fp))

unfoldable pub fread_flag : Stream → Read ℤ
unfolding flag_loop
fread_flag fp = flag_loop (suc (length fp.rest)) fp.rest

-- the two loops of `fread_to_eol`; the first, on fuel, has no test for the end of the file
pub skip_line : ℕ → Stream → Read Unit
skip_line zero fp = spent
skip_line (suc fuel) fp =
    let (c, fp') = fgetc fp.rest in
    let more = skip_line fuel fp' in if c == 10 || c == 13 then done tt fp' else more

pub skip_ends : List ℕ → Stream
skip_ends [] = ended
skip_ends (c ∷ s) = if c == 10 || c == 13 then skip_ends s else ungetc c (before s)

abbrev pub then_skip_ends : Read Unit → Read Unit
unfolding skip_ends
then_skip_ends (done u fp) = done tt (skip_ends fp.rest)
then_skip_ends aborts = aborts
then_skip_ends outside = outside
then_skip_ends overflows = overflows
then_skip_ends spent = spent

unfoldable pub fread_to_eol : ℕ → Stream → Read Unit
unfolding skip_line then_skip_ends
fread_to_eol fuel fp = then_skip_ends (skip_line fuel fp)

-- the text that a buffer holds
pub until_nul : Text → Text
until_nul [] = []
until_nul (c ∷ s) = let more = c ∷ until_nul s in if c == 0 then [] else more

-- The loop of `fread_word`, by the room left in the buffer; `typed` is the word so far, the last byte
-- first. The end of the file fills the buffer with EOF.
pub word_loop : ℕ → ℕ → Text → List ℕ → Read Text
unfolding until_nul
word_loop c_end left typed [] = aborts
word_loop c_end zero typed (c ∷ s) = aborts
word_loop c_end (suc left) typed (c ∷ s) =
    let more = word_loop c_end left (c ∷ typed) s in
    if (if c_end == b' ' then is_space c else c == c_end)
    then done (until_nul (reverse typed)) (if c_end == b' ' then ungetc c (before s) else before s)
    else more

unfoldable pub fread_word : Stream → Read Text
unfolding word_loop skip_space
fread_word fp = if fp.at_end then done [] fp else elim (skip_space fp.rest) [
  | [] ↦ aborts
  | c ∷ s ↦
      if c == b'\'' || c == b'"'
      then word_loop c out_siz [] s
      else word_loop b' ' (out_siz - 1) (c ∷ []) s
]

-- the loop of `fread_string`, where `i` bytes are in the buffer
pub string_loop : ℕ → Text → List ℕ → Read Text
unfolding until_nul
string_loop i typed [] = aborts
string_loop i typed (c ∷ s) =
    let full = leb (out_siz * 4) i in
    let plain = string_loop (if full then i else i + 1) (if full then typed else c ∷ typed) s in
    let newline =
      string_loop (if full then i else i + 2) (if full then typed else 13 ∷ 10 ∷ typed) s in
    let skipped = string_loop i typed s in
    if c == 0
    then aborts
    else if c == 10
    then (if not full && leb (out_siz * 4) (i + 1) then outside else newline)
    else if c == 13
    then skipped
    else if c == b'~'
    then (if full then outside else done (until_nul (reverse typed)) (before s))
    else plain

pub fread_string : Stream → Read Text
unfolding string_loop skip_space
fread_string fp = elim (skip_space fp.rest) [
  | [] ↦ aborts
  | c ∷ s ↦ if c == b'~' then done [] (before s) else string_loop 1 (c ∷ []) s
]
