-- ===== src/Str/Numbers/Laws.antt =====
-- What is_number, number_argument and multi_argument of src/str.c return.
use muddled.Base.{
  ℕ, ◌+◌, ◌-◌, ◌*◌, ◌^◌, ◌<◌, Bool, true, false, ◌&&◌, ◌||◌, [], ◌∷◌, ◌++◌, ◌≢◌, none, some, ◌≡◌,
  refl, arith, Text, is_digit, All, Lacks, length, leb, ◌==◌, if◌then◌else◌, ==_refl,
}
use muddled.Str.Numbers.{
  number_loop, is_number, digit_of, read_digits, to_ulong, skip_space, read_sign, has_digit,
  pick_base, strtoul, strchr, x_argument, number_argument, multi_argument,
}

abbrev pub all_of : (ℕ → Bool) → Text → Bool
all_of p [] = true
all_of p (c ∷ s) = p c && all_of p s

abbrev pub any_of : (ℕ → Bool) → Text → Bool
any_of p [] = false
any_of p (c ∷ s) = p c || any_of p s

-- a text without its sign
abbrev pub unsigned_part : Text → Text
unsigned_part [] = []
unsigned_part (c ∷ s) = if c == b'+' || c == b'-' then s else c ∷ s

-- the class of an unsigned text: 0 if it holds another byte than digits and points, 2 if it holds a
-- point, and 1 if not
abbrev pub class_of : Bool → Text → ℕ
class_of point s =
    if all_of (λ c. c == b'.' || is_digit c) s
    then (if point || any_of (λ c. c == b'.') s then 2 else 1)
    else 0

number_loop_lem : (b : Bool) (s : Text) → number_loop b s ≡ class_of b s
unfolding number_loop
number_loop_lem true [] = refl
number_loop_lem false [] = refl
number_loop_lem true (c ∷ s) = ground (arith, number_loop_lem true s)
number_loop_lem false (c ∷ s) = ground (arith, number_loop_lem true s, number_loop_lem false s)

-- `is_number` returns 0 for the empty text, and else the class of the text behind its sign. (A sign
-- alone, or a point alone, counts as a number.)
pub is_number_lem :
    (s : Text)
    → is_number (some s) ≡ (if leb (length s) 0 then 0 else class_of false (unsigned_part s))
unfolding is_number
is_number_lem [] = refl
is_number_lem (c ∷ s) = ground (arith, number_loop_lem false s, number_loop_lem false (c ∷ s))

-- the number that decimal digits spell
abbrev pub decimal : ℕ → Text → ℕ
decimal n [] = n
decimal n (c ∷ s) = decimal (n * 10 + (c - b'0')) s

abbrev pub AllDigits : Text → Type 0
AllDigits = All (λ c. is_digit c ≡ true)

digit_of_digit : (c : ℕ) → is_digit c ≡ true → digit_of 10 c ≡ some (c - b'0')
unfolding digit_of
digit_of_digit c h = ground arith

digit_of_other : (c : ℕ) → is_digit c ≡ false → digit_of 10 c ≡ none
unfolding digit_of
digit_of_other c h = ground arith

read_digits_lem :
    (n : ℕ) (ds : Text) (c : ℕ) (rest : Text)
    → AllDigits ds
    → is_digit c ≡ false
    → read_digits 10 n (ds ++ c ∷ rest) ≡ (decimal n ds, c ∷ rest)
unfolding read_digits
read_digits_lem n [] c rest h k = rw (digit_of_other c k, read_digits)
read_digits_lem n (d ∷ ds) c rest h k =
    rw (digit_of_digit d h.0, read_digits) (read_digits_lem (n * 10 + (d - b'0')) ds c rest h.1 k)

strchr_lem :
    (ds : Text) (c : ℕ) (rest : Text)
    → AllDigits ds
    → is_digit c ≡ false
    → strchr (ds ++ c ∷ rest) c ≡ some (c ∷ rest)
unfolding strchr
strchr_lem [] c rest h k = rw (==_refl c)
strchr_lem (d ∷ ds) c rest h k = ground (arith, strchr_lem ds c rest h.1 k)

skip_space_digit : (d : ℕ) (s : Text) → is_digit d ≡ true → skip_space (d ∷ s) ≡ d ∷ s
unfolding skip_space
skip_space_digit d s h = ground arith

read_sign_digit : (d : ℕ) (s : Text) → is_digit d ≡ true → read_sign (d ∷ s) ≡ (false, d ∷ s)
unfolding read_sign
read_sign_digit d s h = ground arith

pick_base_digit : (d : ℕ) (s : Text) → d ≢ b'0' → pick_base (d ∷ s) ≡ (10, d ∷ s)
unfolding pick_base
pick_base_digit d [] h = ground arith
pick_base_digit d (x ∷ s) h = ground arith

has_digit_digit : (d : ℕ) (s : Text) → is_digit d ≡ true → has_digit 10 (d ∷ s) ≡ true
has_digit_digit d s h = rw (digit_of_digit d h, has_digit)

strtoul_lem :
    (d : ℕ) (ds : Text) (c : ℕ) (rest : Text)
    → d ≢ b'0'
    → AllDigits (d ∷ ds)
    → is_digit c ≡ false
    → strtoul (d ∷ ds ++ c ∷ rest) ≡ (to_ulong false (decimal 0 (d ∷ ds)), c ∷ rest)
unfolding strtoul
strtoul_lem d ds c rest z h k = rw (
  skip_space_digit d (ds ++ c ∷ rest) h.0,
  read_sign_digit d (ds ++ c ∷ rest) h.0,
  pick_base_digit d (ds ++ c ∷ rest) z,
  read_digits_lem 0 (d ∷ ds) c rest h k,
  has_digit_digit d (ds ++ c ∷ rest) h.0,
)

x_argument_digits :
    (d : ℕ) (ds : Text) (c : ℕ) (name : Text)
    → is_digit c ≡ false
    → d ≢ b'0'
    → AllDigits (d ∷ ds)
    → decimal 0 (d ∷ ds) < 2 ^ 64
    → x_argument c (d ∷ ds ++ c ∷ name) ≡ (decimal 0 (d ∷ ds), name)
unfolding x_argument
x_argument_digits d ds c name k z h fits =
    let value : to_ulong false (decimal 0 (d ∷ ds)) ≡ decimal 0 (d ∷ ds) =
      unfold to_ulong in ground arith in
    rw (
      x_argument,
      strchr_lem (d ∷ ds) c name h k,
      strtoul_lem d ds c name z h k,
      ==_refl (length (c ∷ name)),
      value,
    )

-- A count in decimal digits, with no leading zero and below 2 ^ 64, is cut off the argument at the
-- mark, by `number_argument` at a point and by `multi_argument` at a star.
pub x_argument_count :
    (d : ℕ) (ds name : Text)
    → d ≢ b'0'
    → AllDigits (d ∷ ds)
    → decimal 0 (d ∷ ds) < 2 ^ 64
    → (number_argument (d ∷ ds ++ b'.' ∷ name) ≡ (decimal 0 (d ∷ ds), name))
      × (multi_argument (d ∷ ds ++ b'*' ∷ name) ≡ (decimal 0 (d ∷ ds), name))
unfolding number_argument multi_argument
x_argument_count d ds name z h fits =
    (x_argument_digits d ds b'.' name refl z h fits, x_argument_digits d ds b'*' name refl z h fits)

strchr-none : (c : ℕ) (s : Text) → Lacks c s → strchr s c ≡ none
unfolding strchr
strchr-none c [] h = refl
strchr-none c (d ∷ s) h = ground (arith, strchr-none c s h.1)

strchr_first : (c : ℕ) (s name : Text) → Lacks c s → strchr (s ++ c ∷ name) c ≡ some (c ∷ name)
unfolding strchr
strchr_first c [] name h = rw (==_refl c)
strchr_first c (d ∷ s) name h = ground (arith, strchr_first c s name h.1)

-- Without the mark the count is 1 and the argument is the whole text; with it, the argument is what
-- stands behind its first occurrence, whatever stands before.
pub x_argument_name :
    (c : ℕ) (s name : Text)
    → Lacks c s
    → (x_argument c s ≡ (1, s)) × ((x_argument c (s ++ c ∷ name)).1 ≡ name)
unfolding x_argument
x_argument_name c s name h =
    (rw (strchr-none c s h, x_argument), rw (strchr_first c s name h, x_argument))
