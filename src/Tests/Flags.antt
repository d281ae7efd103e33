-- ===== src/Tests/Flags.antt =====
-- Inputs for the theorems about src/flag.c and src/lookup.c, partly those of tests/check_flags.c.
use mathlib.Core.List.{cons-ne-nil}
use muddled.Base.{
  ℕ, true, false, not, ◌&&◌, ◌||◌, [], ◌∷◌, ◌⊎◌, none, some, ◌≡◌, refl, arith, codes, get_elem?,
  ◌==◌, if◌then◌else◌,
}
use muddled.Flag.Bits.{is_set_after}
use muddled.Flag.Defs.{Flag, new_flag, set_bit, remove_bit, toggle_bit, is_set}
use muddled.Flag.Names.RoundTrip.{has_value, count_set, parse_flags-format_flags}
use muddled.Flag.Names.{parse_flags, format_flags}
use muddled.Flag.Sets.{set_flags, remove_flags, flags_set}
use muddled.Lookup.{Lookup, Table, value_lookup, index_lookup, not_found, lookup_agree}
use muddled.Str.Compare.{str_prefix}

abbrev test_flags : Table
test_flags =
    record { name = codes "bit1"; value = 1 }
    ∷ record { name = codes "bit2"; value = 25 }
    ∷ record { name = codes "bit3"; value = 50 }
    ∷ record { name = codes "bit4"; value = 75 }
    ∷ record { name = codes "bit5"; value = 100 }
    ∷ []

abbrev some_bits : Flag
some_bits = record { bits = 2 ∷ 0 ∷ 4 ∷ 1 ∷ [] }

is_set_after_example :
    (is_set (set_bit some_bits 75) 25 ≡ (75 == 25 || is_set some_bits 25))
    × (is_set (remove_bit some_bits 75) 25 ≡ (not (75 == 25) && is_set some_bits 25))
    × (is_set (toggle_bit some_bits 75) 25
        ≡ (if 75 == 25 then not (is_set some_bits 25) else is_set some_bits 25))
is_set_after_example = is_set_after some_bits 75 25

abbrev one_bit : Flag
one_bit = record { bits = 2 ∷ [] }

tests_of_flags : Unit {0}
unfolding new_flag set_bit remove_flags is_set flags_set format_flags parse_flags value_lookup
    str_prefix set_flags
tests_of_flags = tt

-- the bit to remove is still set
kept_bit : is_set (remove_flags some_bits one_bit) 1 ≡ true
unfolding tests_of_flags
kept_bit = refl

-- a flag does not hold all of its own bits, if one of its words is zero
not_all_own_bits : flags_set (some some_bits) (some some_bits) ≡ false
unfolding tests_of_flags
not_all_own_bits = refl

formatted : format_flags some_bits test_flags ≡ codes "bit1"
unfolding tests_of_flags
formatted = refl

lookup_agree_example :
    ((index_lookup test_flags (some (codes "BIT3")) ≡ none)
      × (value_lookup test_flags (some (codes "BIT3")) ≡ not_found))
    ⊎ ((k : ℕ) × (row : Lookup) × (index_lookup test_flags (some (codes "BIT3")) ≡ some k)
        × (get_elem? test_flags k ≡ some row)
        × (value_lookup test_flags (some (codes "BIT3")) ≡ row.value)
        × (str_prefix (some (codes "BIT3")) (some row.name) ≡ false))
lookup_agree_example = lookup_agree test_flags (codes "BIT3") (cons-ne-nil _ _)

parse_flags-format_flags_example :
    (is_set (parse_flags new_flag (some (format_flags some_bits test_flags)) test_flags).0 1
      ≡ (is_set some_bits 1 && has_value test_flags 1))
    × ((parse_flags new_flag (some (format_flags some_bits test_flags)) test_flags).1
        ≡ count_set some_bits test_flags)
parse_flags-format_flags_example =
    parse_flags-format_flags some_bits test_flags 1
      (unfold tests_of_flags in
        (
          (refl, omega arith, refl, omega arith),
          (
            (refl, omega arith, refl, omega arith),
            (
              (refl, omega arith, refl, omega arith),
              (
                (refl, omega arith, refl, omega arith),
                ((refl, omega arith, refl, omega arith), tt),
              ),
            ),
          ),
        ))
      (unfold tests_of_flags in refl)
