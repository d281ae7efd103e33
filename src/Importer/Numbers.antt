-- ===== src/Importer/Numbers.antt =====
-- Numbers and sums of numbers in src/server/importer.c.
use muddled.Base.{ℕ, ◌+◌, ◌≤◌, Bool, true, false, List, [], ◌∷◌, ◌++◌, Text, ◌==◌, if◌then◌else◌}
use muddled.Base.Int.{ℤ, pos_part, neg_part, ◌+ℤ◌}
use muddled.Str.Numbers.Laws.{decimal, AllDigits}
use muddled.Importer.{Stream, Read, done, ungetc, bar_loop, signed, add_to}

pub data Sign : Type 0 where
  unsigned plus minus : Sign

-- a number as it is written: a sign and digits, the first of which stands apart
pub record Part : Type 0 where
  pub sign : Sign
  pub digit : ℕ
  pub digits : Text

abbrev pub sign_text : Sign → Text
sign_text unsigned = []
sign_text plus = b'+' ∷ []
sign_text minus = b'-' ∷ []

abbrev pub is_minus : Sign → Bool
is_minus unsigned = false
is_minus plus = false
is_minus minus = true

abbrev pub write_part : Part → Text
write_part p = sign_text p.sign ++ (p.digit ∷ p.digits)

abbrev pub value_of : Part → ℤ
value_of p = signed (is_minus p.sign) (decimal 0 (p.digit ∷ p.digits))

-- numbers with bars between them, and their sum
abbrev pub write_sum : Part → List Part → Text → Text
write_sum p [] tail = write_part p ++ tail
write_sum p (q ∷ ps) tail = write_part p ++ (b'|' ∷ write_sum q ps tail)

abbrev pub sum_of : Part → List Part → ℤ
sum_of p [] = value_of p
sum_of p (q ∷ ps) = value_of p +ℤ sum_of q ps

abbrev pub IsPart : Part → Type 0
IsPart p = AllDigits (p.digit ∷ p.digits)

-- the sum without the signs
abbrev pub size_of : Part → List Part → ℕ
size_of p [] = decimal 0 (p.digit ∷ p.digits)
size_of p (q ∷ ps) = decimal 0 (p.digit ∷ p.digits) + size_of q ps

abbrev IsWithin : ℤ → ℕ → Type 0
IsWithin z m = (pos_part z ≤ m) × (neg_part z ≤ m)

-- what the loop makes of the byte behind a number
abbrev behind : ℕ → ℤ → ℕ → Stream → Read ℤ
behind fuel v e fp =
    if e == b'|'
    then add_to v (bar_loop fuel fp.rest)
    else done v (if e == b' ' then fp else ungetc e fp)
