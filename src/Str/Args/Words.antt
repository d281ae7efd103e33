-- ===== src/Str/Args/Words.antt =====
-- How first_arg of src/str.c cuts a line into arguments.
use mathlib.Core.List.{cons-ne-nil}
use muddled.Base.{
  ℕ, zero, suc, ◌≤◌, ◌<◌, Bool, true, false, ◌||◌, List, [], ◌∷◌, ◌++◌, map, append_assoc, ◌≢◌,
  some, ◌≡◌, refl, ap, ◌∙◌, arith, Text, All, Lacks, length, ◌==◌, if◌then◌else◌,
}
use muddled.Str.Args.{skip_blanks, open_quote, copy_arg, first_arg, one_argument, is_nil}

length-skip_blanks : (s : Text) → length (skip_blanks s) ≤ length s
unfolding skip_blanks
length-skip_blanks [] = omega arith
length-skip_blanks (c ∷ s) = ground (arith, length-skip_blanks s)

length-copy_arg : (e : ℕ) (b : Bool) (s : Text) → length (copy_arg e b s).1 ≤ length s
unfolding copy_arg
length-copy_arg e b [] = omega arith
length-copy_arg e b (c ∷ s) = ground (arith, length-copy_arg e b s)

-- a word is shorter than the text, unless nothing is read
copy_arg_shorter :
    (e : ℕ) (b : Bool) (c : ℕ) (s : Text) → length (copy_arg e b (c ∷ s)).1 < length (c ∷ s)
unfolding copy_arg
copy_arg_shorter e b c s = ground (arith, length-copy_arg e b s)

open_quote_shorter :
    (b : Bool) (s : Text)
    → s ≢ []
    → length (copy_arg (open_quote s).0 b (open_quote s).1).1 < length s
unfolding open_quote
open_quote_shorter b [] h = absurd (h refl)
open_quote_shorter b (c ∷ s) h =
    ground (arith, copy_arg_shorter b' ' b c s, length-copy_arg b')' b s, length-copy_arg c b s)

-- Reading an argument from a text that is not empty uses up at least one byte of it.
pub first_arg_shorter :
    (s : Text) (f_case : Bool) → s ≢ [] → length (first_arg (some s) f_case).0 < length s
unfolding first_arg
first_arg_shorter [] b h = absurd (h refl)
first_arg_shorter (c ∷ s) b h = left (skip_blanks (c ∷ s)) (length-skip_blanks (c ∷ s))
  where
    left :
        (r : Text)
        → length r ≤ length (c ∷ s)
        → length (skip_blanks (copy_arg (open_quote r).0 b (open_quote r).1).1) < length (c ∷ s)
    left [] le = unfold open_quote copy_arg skip_blanks in omega arith
    left (d ∷ r) le = omega (
      arith,
      open_quote_shorter b (d ∷ r) (cons-ne-nil d r),
      length-skip_blanks (copy_arg (open_quote (d ∷ r)).0 b (open_quote (d ∷ r)).1).1,
    )

-- a text that `copy_arg` reads up to its end mark
copy_arg_word : (e : ℕ) (w rest : Text) → Lacks e w → copy_arg e false (w ++ e ∷ rest) ≡ (w, rest)
unfolding copy_arg
copy_arg_word e [] rest h = ground arith
copy_arg_word e (c ∷ w) rest h = ground (arith, copy_arg_word e w rest)

copy_arg_last : (e : ℕ) (w : Text) → Lacks e w → copy_arg e false w ≡ (w, [])
unfolding copy_arg
copy_arg_last e [] h = refl
copy_arg_last e (c ∷ w) h = ground (arith, copy_arg_last e w)

-- the bytes that open a quoted argument
abbrev pub is_quote : ℕ → Bool
is_quote c = c == b'\'' || c == b'"' || c == b'%' || c == b'('

-- The ways to write an argument: as it stands, between parentheses, or between two equal marks.
pub data Style : Type 0 where
  plain : Style
  paren : Style
  mark : ℕ → Style

abbrev pub close_of : Style → ℕ
close_of plain = b' '
close_of paren = b')'
close_of (mark m) = m

abbrev pub write_arg : Style → Text → Text
write_arg plain w = w ++ b' ' ∷ []
write_arg paren w = b'(' ∷ (w ++ b')' ∷ [])
write_arg (mark m) w = m ∷ (w ++ m ∷ [])

-- what the style asks of the argument
abbrev pub Fits : Style → Text → Type 0
Fits plain [] = ⊥
Fits plain (c ∷ w) = Lacks b' ' (c ∷ w) × (is_quote c ≡ false)
Fits paren w = Lacks b')' w
Fits (mark m) w = ((m == b'\'' || m == b'"' || m == b'%') ≡ true) × Lacks m w

open_quote_mark :
    (m : ℕ) (s : Text)
    → (m == b'\'' || m == b'"' || m == b'%') ≡ true
    → open_quote (skip_blanks (m ∷ s)) ≡ (m, s)
unfolding open_quote skip_blanks
open_quote_mark m s h = ground arith

open_quote_plain :
    (c : ℕ) (s : Text)
    → c ≢ b' '
    → is_quote c ≡ false
    → open_quote (skip_blanks (c ∷ s)) ≡ (b' ', c ∷ s)
unfolding open_quote skip_blanks
open_quote_plain c s h k = ground arith

-- An argument that is written in a style that fits it is read back, and the pointer that is returned
-- stands at the next byte that is no blank, whatever follows.
pub first_arg-write_arg :
    (style : Style) (w rest : Text)
    → Fits style w
    → one_argument (write_arg style w ++ rest) ≡ (skip_blanks rest, w)
unfolding first_arg
first_arg-write_arg plain [] rest h = absurd h
first_arg-write_arg plain (c ∷ w) rest h = rw (
  append_assoc w (b' ' ∷ []) rest,
  open_quote_plain c (w ++ b' ' ∷ rest) h.0.0 h.1,
  copy_arg_word b' ' (c ∷ w) rest h.0,
)
first_arg-write_arg paren w rest h =
    rw (append_assoc w (b')' ∷ []) rest, copy_arg_word b')' w rest h)
first_arg-write_arg (mark m) w rest h = rw (
  append_assoc w (m ∷ []) rest,
  open_quote_mark m (w ++ m ∷ rest) h.0,
  copy_arg_word m w rest h.1,
)

-- the arguments of a line up to the first empty one, as the loops of `is_name` read them
arguments_fuel : ℕ → Text → List Text
arguments_fuel zero s = []
arguments_fuel (suc fuel) s =
    let rest = arguments_fuel fuel (one_argument s).0 in
    if is_nil (one_argument s).1 then [] else (one_argument s).1 ∷ rest

unfoldable pub arguments : Text → List Text
unfolding arguments_fuel first_arg
arguments s = arguments_fuel (suc (length s)) s

empty_argument : (one_argument [] ≡ ([], []))
unfolding first_arg
empty_argument = refl

arguments_fuel-nil : (f : ℕ) → arguments_fuel f [] ≡ []
unfolding arguments_fuel first_arg
arguments_fuel-nil zero = refl
arguments_fuel-nil (suc f) = refl

-- more fuel than the length of the line changes nothing
arguments_fuel_enough :
    (f g : ℕ) (s : Text) → length s < f → length s < g → arguments_fuel f s ≡ arguments_fuel g s
unfolding arguments_fuel
arguments_fuel_enough zero g s h k = absurd (omega arith)
arguments_fuel_enough (suc f) zero s h k = absurd (omega arith)
arguments_fuel_enough (suc f) (suc g) [] h k = rw (arguments_fuel-nil, empty_argument)
arguments_fuel_enough (suc f) (suc g) (c ∷ s) h k =
    let shorter = first_arg_shorter (c ∷ s) false (cons-ne-nil c s) in
    rw (arguments_fuel_enough f g (one_argument (c ∷ s)).0 (omega arith) (omega arith))

pub arguments-nil : arguments [] ≡ []
unfolding arguments
arguments-nil = arguments_fuel-nil 1

-- One step of the loop, with the fuel out of sight.
pub arguments_step :
    (s : Text)
    → arguments s ≡ (
        if is_nil (one_argument s).1 then [] else (one_argument s).1 ∷ arguments (one_argument s).0)
unfolding arguments arguments_fuel
arguments_step [] = unfold first_arg in refl
arguments_step (c ∷ s) =
    let shorter = first_arg_shorter (c ∷ s) false (cons-ne-nil c s) in
    ap (λ r. if is_nil (one_argument (c ∷ s)).1 then [] else (one_argument (c ∷ s)).1 ∷ r)
      (arguments_fuel_enough (length (c ∷ s)) (suc (length (one_argument (c ∷ s)).0))
        (one_argument (c ∷ s)).0 (omega arith) (omega arith))

abbrev first_arg_body : Text → Text × Text
first_arg_body r = (
  skip_blanks (copy_arg (open_quote r).0 false (open_quote r).1).1,
  (copy_arg (open_quote r).0 false (open_quote r).1).0,
)

one_argument_lem : (s : Text) → one_argument s ≡ first_arg_body (skip_blanks s)
unfolding first_arg
one_argument_lem [] = refl
one_argument_lem (c ∷ s) = refl

skip_blanks_idem : (s : Text) → skip_blanks (skip_blanks s) ≡ skip_blanks s
unfolding skip_blanks
skip_blanks_idem [] = refl
skip_blanks_idem (c ∷ s) = ground (arith, skip_blanks_idem s)

one_argument-skip : (s : Text) → one_argument (skip_blanks s) ≡ one_argument s
one_argument-skip s = cc (one_argument_lem (skip_blanks s), skip_blanks_idem s, one_argument_lem s)

arguments-skip : (s : Text) → arguments (skip_blanks s) ≡ arguments s
arguments-skip s = rw (arguments_step (skip_blanks s), one_argument-skip s, arguments_step s)

abbrev pub write_args : List (Style × Text) → Text
write_args [] = []
write_args ((style, w) ∷ ws) = write_arg style w ++ (b' ' ∷ write_args ws)

abbrev pub AllFit : List (Style × Text) → Type 0
AllFit = All (λ a. Fits a.0 a.1 × (a.1 ≢ []))

-- A line of arguments, none empty and each in a style that fits it, is read back argument by
-- argument.
pub arguments-write_args :
    (ws : List (Style × Text)) → AllFit ws → arguments (write_args ws) ≡ map (λ a. a.1) ws
unfolding skip_blanks
arguments-write_args [] h = arguments-nil
arguments-write_args ((style, []) ∷ ws) h = absurd (h.0.1 refl)
arguments-write_args ((style, c ∷ w) ∷ ws) h =
    let first = first_arg-write_arg style (c ∷ w) (b' ' ∷ write_args ws) h.0.0 in
    let rest : arguments (skip_blanks (b' ' ∷ write_args ws)) ≡ map (λ a. a.1) ws =
      arguments-skip (write_args ws) ∙ arguments-write_args ws h.1 in
    arguments_step (write_arg style (c ∷ w) ++ (b' ' ∷ write_args ws))
    ∙ ap (λ (a : Text × Text). if is_nil a.1 then [] else a.1 ∷ arguments a.0) first
    ∙ ap (λ r. (c ∷ w) ∷ r) rest
