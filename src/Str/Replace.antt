-- ===== src/Str/Replace.antt =====
-- src/str.c: stristr, str_replace, str_replace_all, str_ireplace, str_ireplace_all, capitalize.
pub mod Laws
use muddled.Base.{
  ℕ, zero, suc, ◌+◌, ◌-◌, Bool, true, false, not, ◌&&◌, ◌||◌, [], ◌∷◌, ◌++◌, map, Option, none,
  some, Text, tolower, toupper, length, take, drop, ltb, leb, ◌==◌, if◌then◌else◌,
}
use muddled.Str.Compare.{nullstr, str_cmp, char_at}
use muddled.Str.Args.{is_nil}

-- whether a text begins with another
abbrev pub starts_with : Text → Text → Bool
starts_with [] s = true
starts_with (d ∷ p) [] = false
starts_with (d ∷ p) (c ∷ s) = c == d && starts_with p s

abbrev pub later : Option ℕ → Option ℕ
later none = none
later (some n) = some (n + 1)

-- `strstr`, as the offset of the pointer that it returns
unfoldable pub strstr : Text → Text → Option ℕ
strstr [] old = if starts_with old [] then some 0 else none
strstr (c ∷ s) old = if starts_with old (c ∷ s) then some 0 else later (strstr s old)

-- the inner loop of `stristr`
pub match_rest : Text → Text → Bool
match_rest sptr [] = false
match_rest [] (d ∷ p) = false
match_rest (c ∷ s) (d ∷ p) = if toupper c == toupper d then is_nil p || match_rest s p else false

-- its loop over `start`, as the offset of the pointer
pub stristr_loop : Text → Text → Option ℕ
unfolding match_rest
stristr_loop [] pattern = none
stristr_loop (c ∷ s) pattern =
    if toupper c == toupper (char_at pattern) && match_rest (c ∷ s) pattern
    then some 0
    else later (stristr_loop s pattern)

pub stristr : Option Text → Option Text → Option ℕ
unfolding stristr_loop
stristr none pattern = none
stristr (some s) none = none
stristr (some s) (some pattern) = stristr_loop s pattern

abbrev pub out_end : ℕ
out_end = 2048 - 4

-- what `str_replace` and `str_ireplace` return for the match at `a`: the original, or the text in
-- the buffer; `none` is a copy of the original past the end of the buffer
pub replace_at : Text → Text → Text → Option ℕ → Option Text
replace_at orig old pnew none = some orig
replace_at orig old pnew (some a) =
    if leb out_end (a + length pnew)
    then some orig
    else if leb 2048 (length orig)
    then none
    else some (
        take a orig ++ (pnew ++ take (out_end - a - length pnew) (drop (length old) (drop a orig))))

pub str_replace : Text → Text → Option Text → Option Text
unfolding replace_at strstr
str_replace orig old none = some orig
str_replace orig old (some pnew) =
    if nullstr (some orig) || nullstr (some old)
    then some orig
    else replace_at orig old pnew (strstr orig old)

pub str_ireplace : Text → Text → Option Text → Option Text
unfolding replace_at stristr
str_ireplace orig old none = some orig
str_ireplace orig old (some pnew) =
    if nullstr (some orig) || nullstr (some old)
    then some orig
    else replace_at orig old pnew (stristr (some orig) (some old))

-- whether the loop goes on: there is a match, and the new text fits behind it
abbrev pub goes_on : Option ℕ → Text → Bool
goes_on none newstr = false
goes_on (some a) newstr = ltb (a + length newstr) out_end

-- how a loop of replacements leaves off: with the text, with a copy past the end of a buffer, or not
-- within the rounds that it was given
pub data Replaced : Type 0 where
  done : Text → Replaced
  overflows spent : Replaced

-- The loops of `str_replace_all` and `str_ireplace_all`, on fuel, with the search and the
-- replacement that they use.
pub replace_loop :
    (Text → Text → Option ℕ)
    → (Text → Text → Option Text → Option Text)
    → ℕ
    → Text
    → Text
    → Text
    → Replaced
replace_loop find replace zero orig old newstr = spent
replace_loop find replace (suc fuel) orig old newstr =
    if goes_on (find orig old) newstr
    then elim (replace orig old (some newstr)) [
      | none ↦ overflows
      | some next ↦ replace_loop find replace fuel next old newstr
    ]
    else done orig

abbrev pub is_none : Option ℕ → Bool
is_none none = true
is_none (some n) = false

pub str_replace_all : ℕ → Text → Text → Option Text → Replaced
unfolding replace_loop strstr str_replace str_cmp
str_replace_all fuel orig old none = done orig
str_replace_all fuel orig old (some newstr) =
    if nullstr (some orig) || nullstr (some old)
    then done orig
    else if is_none (strstr orig old) || not (str_cmp (some old) (some newstr))
    then done orig
    else replace_loop strstr str_replace fuel orig old newstr

unfoldable pub str_ireplace_all : ℕ → Text → Text → Option Text → Replaced
unfolding replace_loop stristr str_ireplace str_cmp
str_ireplace_all fuel orig old none = done orig
str_ireplace_all fuel orig old (some newstr) =
    if nullstr (some orig) || nullstr (some old)
    then done orig
    else if is_none (stristr (some orig) (some old)) || not (str_cmp (some old) (some newstr))
    then done orig
    else replace_loop (λ s p. stristr (some s) (some p)) str_ireplace fuel orig old newstr

-- `none` is a text that does not fit the buffer of 500 bytes
unfoldable pub capitalize : Option Text → Option Text
capitalize none = some []
capitalize (some []) = some []
capitalize (some (c ∷ s)) =
    if leb 500 (length (c ∷ s)) then none else some (toupper (tolower c) ∷ map tolower s)

-- the copy; NULL and the empty text give the empty text
abbrev pub str_dup : Option Text → Text
str_dup none = []
str_dup (some s) = s
