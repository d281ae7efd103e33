-- ===== src/Str/Args.antt =====
-- src/str.c: first_arg, one_argument, is_name, is_exact_name. The buffer that first_arg
-- copies an argument to is the caller's; is_name and is_exact_name give it 512 bytes.
pub mod Words
pub mod Names
use muddled.Base.{
  ℕ, zero, suc, Bool, true, false, not, ◌||◌, [], ◌∷◌, Option, none, some, Text, tolower, length,
  leb, ◌==◌, if◌then◌else◌,
}
use muddled.Str.Compare.{nullstr, str_cmp, str_prefix}

-- `while (*argument == ' ') argument++;`
pub skip_blanks : Text → Text
skip_blanks [] = []
skip_blanks (c ∷ s) = if c == b' ' then skip_blanks s else c ∷ s

-- `cEnd`, and the pointer behind an opening quote
pub open_quote : Text → ℕ × Text
open_quote [] = (b' ', [])
open_quote (c ∷ s) =
    if c == b'\'' || c == b'"' || c == b'%' || c == b'('
    then (if c == b'(' then (b')', s) else (c, s))
    else (b' ', c ∷ s)

-- the copying loop: what is copied, and the pointer behind `cEnd`
pub copy_arg : ℕ → Bool → Text → Text × Text
copy_arg c_end f_case [] = ([], [])
copy_arg c_end f_case (c ∷ s) =
    let (arg, rest) = copy_arg c_end f_case s in
    if c == c_end then ([], s) else ((if f_case then tolower c else c) ∷ arg, rest)

-- the pointer that is returned, and the argument
unfoldable pub first_arg : Option Text → Bool → Text × Text
unfolding skip_blanks open_quote copy_arg
first_arg none f_case = ([], [])
first_arg (some []) f_case = ([], [])
first_arg (some (c ∷ s)) f_case =
    let (c_end, start) = open_quote (skip_blanks (c ∷ s)) in
    let (arg, rest) = copy_arg c_end f_case start in (skip_blanks rest, arg)

abbrev pub one_argument : Text → Text × Text
one_argument argument = first_arg (some argument) false

-- how the loop over `namelist` in `is_name` ends: the name was not found, the full pattern matched,
-- or the part did
pub data Scan : Type 0 where
  not_found full_match part_match : Scan

abbrev pub is_nil : Text → Bool
is_nil [] = true
is_nil (c ∷ s) = false

-- the size of `name` and `part`, which one_argument fills without a test
abbrev pub buf_siz : ℕ
buf_siz = 512

-- whether a word and its NUL do not fit
abbrev pub too_long : Text → Bool
too_long word = leb buf_siz (length word)

-- The loops of `is_name` and `is_exact_name` are on fuel; `none` means that it ran out, or that a word
-- was written past the end of a buffer.
pub scan_names : ℕ → Text → Text → Text → Option Scan
scan_names zero string part list = none
scan_names (suc fuel) string part list =
    let rest = scan_names fuel string part (one_argument list).0 in
    let name = (one_argument list).1 in
    if too_long name
    then none
    else if is_nil name
    then some not_found
    else if not (str_prefix (some string) (some name))
    then some full_match
    else if not (str_prefix (some part) (some name))
    then some part_match
    else rest

pub match_parts : ℕ → Text → Text → Text → Option Bool
match_parts zero string namelist str = none
match_parts (suc fuel) string namelist str =
    let rest = match_parts fuel string namelist (one_argument str).0 in
    let part = (one_argument str).1 in
    if too_long part
    then none
    else if is_nil part
    then some true
    else elim (scan_names (suc (length namelist)) string part namelist) [
      | none ↦ none
      | some s ↦ elim s [ not_found ↦ some false | full_match ↦ some true | part_match ↦ rest ]
    ]

unfoldable pub is_name : Option Text → Option Text → Option Bool
unfolding match_parts scan_names first_arg str_prefix
is_name str none = some true
is_name str (some []) = some true
is_name none (some (c ∷ s)) = some false
is_name (some []) (some (c ∷ s)) = some false
is_name (some (d ∷ t)) (some (c ∷ s)) = match_parts (suc (length (d ∷ t))) (d ∷ t) (c ∷ s) (d ∷ t)

pub find_exact : ℕ → Text → Text → Option Bool
find_exact zero str namelist = none
find_exact (suc fuel) str namelist =
    let rest = find_exact fuel str (one_argument namelist).0 in
    let name = (one_argument namelist).1 in
    if too_long name
    then none
    else if is_nil name
    then some false
    else if not (str_cmp (some str) (some name))
    then some true
    else rest

unfoldable pub is_exact_name : Option Text → Option Text → Option Bool
unfolding find_exact first_arg str_cmp
is_exact_name none namelist = some false
is_exact_name (some []) namelist = some false
is_exact_name (some (d ∷ t)) none = some false
is_exact_name (some (d ∷ t)) (some []) = some false
is_exact_name (some (d ∷ t)) (some (c ∷ s)) = find_exact (suc (length (c ∷ s))) (d ∷ t) (c ∷ s)
