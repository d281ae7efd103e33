-- ===== src/Tests/Texts.antt =====
-- Inputs for the theorems about src/str.c and src/lookup.c, partly those of tests/check_string.c.
use muddled.Base.{
  ℕ, ◌-◌, ◌≤◌, Bool, true, List, [], ◌∷◌, ◌++◌, map, ◌↔◌, none, some, ◌≡◌, refl, arith, Text, codes,
  Lacks, length, take, replicate, ltb, if◌then◌else◌,
}
use mathlib.Core.List.{cons-ne-nil}
use Prim.Native.Nat.{min}
use muddled.Str.Args.Names.{AllShort, MatchesExactly, is_name_total, is_exact_name_iff}
use muddled.Str.Args.Words.{Style, plain, paren, mark, write_args, arguments, arguments-write_args}
use muddled.Str.Args.{is_name, is_exact_name}
use muddled.Str.Colors.Position.{strpos_lem}
use muddled.Str.Colors.Strip.{strlen_color-strip_color}
use muddled.Str.Colors.{c_string, strip_color, strlen_color, strpos, end_place}
use muddled.Str.Compare.{str_cmp, str_prefix}
use muddled.Str.Lines.{get_line, count_lines, trim, Cut, get_line_lem}
use muddled.Str.Numbers.{is_number, number_argument}

abbrev styled : List (Style × Text)
styled = (plain, codes "give") ∷ (mark b'\'', codes "big sword") ∷ (paren, codes "Al") ∷ []

arguments-write_args_example : arguments (write_args styled) ≡ map (λ a. a.1) styled
arguments-write_args_example = arguments-write_args styled (
  ((omega arith, refl), cons-ne-nil _ _),
  (((refl, omega arith), cons-ne-nil _ _), ((omega arith, cons-ne-nil _ _), tt)),
)

abbrev names : Text
names = codes "foo bar 123"

names-AllShort : AllShort names
unfolding arguments
names-AllShort = (omega arith, (omega arith, (omega arith, tt)))

bar-AllShort : AllShort (codes "bar")
unfolding arguments
bar-AllShort = (omega arith, tt)

is_name_total_example :
    (b e : Bool) × (is_name (some (codes "bar")) (some names) ≡ some b)
    × (is_exact_name (some (codes "bar")) (some names) ≡ some e)
is_name_total_example = is_name_total (some (codes "bar")) (some names) bar-AllShort names-AllShort

prefix_of_name : is_name (some (codes "b 12")) (some names) ≡ some true
unfolding is_name
prefix_of_name = refl

tests_of_texts : Unit {0}
unfolding is_name is_exact_name arguments strip_color strlen_color strpos end_place get_line
    count_lines trim is_number number_argument c_string str_prefix str_cmp
tests_of_texts = tt

is_exact_name_iff_example :
    (is_exact_name (some (codes "bar")) (some names) ≡ some true)
    ↔ MatchesExactly (codes "bar") (arguments names)
is_exact_name_iff_example =
    is_exact_name_iff (codes "bar") names (cons-ne-nil _ _) (cons-ne-nil _ _) names-AllShort

strlen_color-strip_color_example :
    (t : Text) × (length t ≡ strlen_color (some (codes "~ra~!gb")))
    × Lacks b'~' t
    × (strip_color (replicate 2048 0) (codes "~ra~!gb")
        ≡ (if ltb (strlen_color (some (codes "~ra~!gb"))) 2048 then some t else none))
strlen_color-strip_color_example = strlen_color-strip_color (codes "~ra~!gb") (omega arith)

stale_text : strip_color (codes "before" ++ (0 ∷ [])) (codes "~rnew") ≡ some (codes "newore")
unfolding tests_of_texts
stale_text = refl

strpos_lem_example :
    (p : ℕ) × (strpos (codes "~rab") 1 ≡ some p)
    × (p ≤ length (codes "~rab"))
    × (strlen_color (some (take p (codes "~rab"))) ≡ min 1 (strlen_color (some (codes "~rab"))))
strpos_lem_example = strpos_lem (codes "~rab") 1 (unfold tests_of_texts in refl) (omega arith)

get_line_lem_example :
    Lacks b'\n' (get_line (codes "a\n\rb")).1
    × Cut (codes "a\n\rb") (get_line (codes "a\n\rb"))
    × (count_lines (get_line (codes "a\n\rb")).0 ≡ count_lines (codes "a\n\rb") - 1)
get_line_lem_example = get_line_lem (codes "a\n\rb")

two_lines : count_lines (codes "this is a test\ntest this is\n\ra test this is\r") ≡ 2
unfolding tests_of_texts
two_lines = refl

precise : is_number (some (codes "-12.3")) ≡ 2
unfolding tests_of_texts
precise = refl

octal_count : number_argument (codes "010.foo") ≡ (8, codes "foo")
unfolding tests_of_texts
octal_count = refl
