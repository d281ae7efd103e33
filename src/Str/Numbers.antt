-- ===== src/Str/Numbers.antt =====
-- src/str.c: is_number, x_argument, number_argument, multi_argument, ordinal_string; and strtoul of
-- the C library with base 0, which x_argument calls.
pub mod Laws
use muddled.Base.{
  ℕ, ◌+◌, ◌-◌, ◌*◌, ◌%◌, ◌^◌, Bool, true, false, not, ◌&&◌, ◌||◌, [], ◌∷◌, Option, none, some, Text,
  is_upper, is_lower, is_digit, is_space, length, drop, ltb, ◌==◌, if◌then◌else◌,
}
use muddled.Str.Compare.{nullstr, char_at}

-- the loop of `is_number`, with the flag `precision`
pub number_loop : Bool → Text → ℕ
number_loop precision [] = if precision then 2 else 1
number_loop precision (c ∷ s) =
    let rest = number_loop (precision || c == b'.') s in
    if c == b'.' then rest else if not (is_digit c) then 0 else rest

unfoldable pub is_number : Option Text → ℕ
unfolding number_loop
is_number none = 0
is_number (some []) = 0
is_number (some (c ∷ s)) =
    if c == b'+' || c == b'-' then number_loop false s else number_loop false (c ∷ s)

-- the digit that a byte is in a base up to 16
pub digit_of : ℕ → ℕ → Option ℕ
digit_of base c =
    let d =
      if is_digit c
      then c - b'0'
      else if is_lower c
      then c - b'a' + 10
      else if is_upper c
      then c - b'A' + 10
      else 99 in
    if ltb d base then some d else none

-- the digits at the front of the text: the value so far, and the rest
pub read_digits : ℕ → ℕ → Text → ℕ × Text
read_digits base n [] = (n, [])
read_digits base n (c ∷ s) = elim (digit_of base c) [
  | none ↦ (n, c ∷ s)
  | some d ↦ read_digits base (n * base + d) s
]

abbrev pub ulong_max : ℕ
ulong_max = 2 ^ 64 - 1

-- a value that does not fit becomes ULONG_MAX, any other is negated modulo 2 ^ 64 behind a `-`
pub to_ulong : Bool → ℕ → ℕ
to_ulong negative n =
    if ltb ulong_max n then ulong_max else if negative then (2 ^ 64 - n) % 2 ^ 64 else n

unfoldable pub skip_space : Text → Text
skip_space [] = []
skip_space (c ∷ s) = if is_space c then skip_space s else c ∷ s

unfoldable pub read_sign : Text → Bool × Text
read_sign [] = (false, [])
read_sign (c ∷ s) =
    if c == b'-' then (true, s) else if c == b'+' then (false, s) else (false, c ∷ s)

abbrev pub has_digit : ℕ → Text → Bool
has_digit base [] = false
has_digit base (c ∷ s) = elim (digit_of base c) [ none ↦ false | some d ↦ true ]

-- base 0: `0x` and a digit is base 16, another `0` is base 8, and the rest is base 10
pub pick_base : Text → ℕ × Text
pick_base [] = (10, [])
pick_base (c ∷ []) = if c == b'0' then (8, c ∷ []) else (10, c ∷ [])
pick_base (c ∷ x ∷ s) =
    if c == b'0'
    then (if (x == b'x' || x == b'X') && has_digit 16 s then (16, s) else (8, c ∷ x ∷ s))
    else (10, c ∷ x ∷ s)

-- the value, and `*endptr`, which is the start if there is no digit
pub strtoul : Text → ℕ × Text
unfolding to_ulong read_digits read_sign skip_space pick_base digit_of
strtoul s =
    let (negative, unsigned) = read_sign (skip_space s) in
    let (base, digits) = pick_base unsigned in
    let (n, rest) = read_digits base 0 digits in
    if has_digit base digits then (to_ulong negative n, rest) else (0, s)

-- `strchr`: the text from the first `c` on
pub strchr : Text → ℕ → Option Text
strchr [] c = none
strchr (d ∷ s) c = if d == c then some (d ∷ s) else strchr s c

-- the count, and the argument that is copied. The count is a `long`; it is below 2 ^ 63 here unless
-- the text says more. Both pointers are suffixes of `argument`, so they are equal if their lengths are.
pub x_argument : ℕ → Text → ℕ × Text
unfolding strtoul strchr
x_argument c argument = elim (strchr argument c) [
  | none ↦ (1, argument)
  | some p ↦
      let (number, q) = strtoul argument in (if length q == length p then number else 0, drop 1 p)
]

unfoldable pub number_argument : Text → ℕ × Text
unfolding x_argument
number_argument argument = x_argument b'.' argument

pub multi_argument : Text → ℕ × Text
multi_argument argument = x_argument b'*' argument
