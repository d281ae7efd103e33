-- ===== src/Str/Compare.antt =====
-- src/str.c: str_cmp, str_prefix, str_infix, str_suffix. They return true for "different".
pub mod Laws
pub mod Parts
use muddled.Base.{
  ℕ, ◌+◌, ◌-◌, ◌%◌, ◌^◌, Bool, true, false, not, ◌&&◌, [], ◌∷◌, Option, none, some, Text, tolower,
  length, drop, leb, ◌==◌, if◌then◌else◌,
}

-- `*s`: the byte at the pointer, which is the terminator at the end of the text
abbrev pub char_at : Text → ℕ
char_at [] = 0
char_at (c ∷ s) = c

-- `str == 0 || *str == 0`
abbrev pub nullstr : Option Text → Bool
nullstr none = true
nullstr (some []) = true
nullstr (some (c ∷ s)) = false

-- the loop of `str_cmp`; it ends at the first difference
pub str_cmp_loop : Text → Text → Bool
str_cmp_loop [] [] = false
str_cmp_loop [] (d ∷ t) = if tolower 0 == tolower d then str_cmp_loop [] t else true
str_cmp_loop (c ∷ s) [] = if tolower c == tolower 0 then str_cmp_loop s [] else true
str_cmp_loop (c ∷ s) (d ∷ t) = if tolower c == tolower d then str_cmp_loop s t else true

unfoldable pub str_cmp : Option Text → Option Text → Bool
unfolding str_cmp_loop
str_cmp none bstr = true
str_cmp (some a) none = true
str_cmp (some a) (some b) = str_cmp_loop a b

-- the loop of `str_prefix`; it ends at the terminator of `astr` or at the first difference
pub str_prefix_loop : Text → Text → Bool
str_prefix_loop [] t = false
str_prefix_loop (c ∷ s) [] = if tolower c == tolower 0 then str_prefix_loop s [] else true
str_prefix_loop (c ∷ s) (d ∷ t) = if tolower c == tolower d then str_prefix_loop s t else true

unfoldable pub str_prefix : Option Text → Option Text → Bool
unfolding str_prefix_loop
str_prefix none bstr = true
str_prefix (some []) bstr = true
str_prefix (some (c ∷ s)) none = true
str_prefix (some (c ∷ s)) (some b) = str_prefix_loop (c ∷ s) b

-- the loop of `str_infix` over `bstr + ichar`, with the rounds that are left after this one;
-- `none` is a read behind the terminator of `bstr`
pub str_infix_loop : ℕ → Text → ℕ → Text → Option Bool
str_infix_loop c0 astr left [] = if left == 0 then some true else none
str_infix_loop c0 astr left (d ∷ t) =
    let rest = str_infix_loop c0 astr (left - 1) t in
    if c0 == tolower d && not (str_prefix (some astr) (some (d ∷ t)))
    then some false
    else if left == 0
    then some true
    else rest

-- `sstr2 - sstr1` is a `size_t`, and wraps
abbrev pub infix_last : Text → Text → ℕ
infix_last astr bstr = (length bstr + 2 ^ 64 - length astr) % 2 ^ 64

pub str_infix : Option Text → Text → Option Bool
unfolding str_infix_loop
str_infix none bstr = some false
str_infix (some []) bstr = some false
str_infix (some (c ∷ s)) bstr =
    if tolower c == 0
    then some false
    else str_infix_loop (tolower c) (c ∷ s) (infix_last (c ∷ s) bstr) bstr

pub str_suffix : Text → Text → Bool
str_suffix astr bstr =
    let sstr1 = length astr in
    let sstr2 = length bstr in
    if leb sstr1 sstr2 && not (str_cmp (some astr) (some (drop (sstr2 - sstr1) bstr)))
    then false
    else true
