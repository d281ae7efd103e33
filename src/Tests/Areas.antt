-- ===== src/Tests/Areas.antt =====
-- Runs of the readers in src/server/importer.c.
use muddled.Base.{
  ℕ, zero, suc, ◌<◌, false, ◌||◌, [], ◌∷◌, ◌++◌, ◌≡◌, refl, arith, codes, All, replicate,
  length-replicate, ◌==◌,
}
use muddled.Base.Int.{pos, negsuc}
use muddled.Flag.Defs.{new_flag, set_bit, is_set}
use muddled.Importer.{
  done, outside, overflows, spent, before, fread_letter, fread_number, fread_flag, fread_to_eol,
  fread_word, fread_string,
}
use muddled.Importer.Numbers.{Part, plus, minus}
use muddled.Str.Compare.{str_cmp}
use muddled.Importer.Letters.{letter_of, fread_flag-letters_from}
use muddled.Importer.Strings.{
  IsPlain, fread_string-stored_form, fread_string_overflow, fread_to_eol_endless,
}
use muddled.Importer.Tables.{
  rom_resists_flag_convert, rom_act_flag_convert, rom_convert_obj_flags, rom_convert_room_flags,
  rom_convert_weapon_flags, rom_convert_container_flags, rom_convert_affect_flags,
  import_rom_convert_wear_flags, rom_convert_size, lookup_rom_obj_type, convert_rom_wear_loc,
  convert_affect_location, act_rows, obj_rows, room_rows, weapon_rows, container_rows, affect_rows,
}
use muddled.Importer.Convert.{any_row, rom_flags_lem}
use muddled.Affect.{Stats, apply_hit}

letter : fread_letter (before (codes "  #12")) ≡ (b'#', before (codes "12"))
unfolding fread_letter
letter = refl

word :
    fread_word (before (codes " 'magic missile' 3"))
    ≡ done (codes "magic missile") (before (codes " 3"))
unfolding fread_word
word = refl

bare_word : fread_word (before (codes "sword 3")) ≡ done (codes "sword") (before (codes " 3"))
unfolding fread_word
bare_word = refl

yes_flag : fread_flag (before (codes "+YnY\n")) ≡ done (pos 5) (before (codes "\n"))
unfolding fread_flag
yes_flag = refl

minus_flag : fread_flag (before (codes "-AB|3 x")) ≡ done (negsuc 5) (before (codes "x"))
unfolding fread_flag
minus_flag = refl

next_line : fread_to_eol 4 (before (codes "end\n\nnext")) ≡ done tt (before (codes "next"))
unfolding fread_to_eol
next_line = refl

neck : import_rom_convert_wear_flags 20 ≡ 2
unfolding import_rom_convert_wear_flags
neck = refl

sword_type : lookup_rom_obj_type (codes "Drink") ≡ 17
unfolding lookup_rom_obj_type str_cmp
sword_type = refl

large : rom_convert_size (codes "LARGE") ≡ 67
unfolding rom_convert_size str_cmp
large = refl

waist : convert_rom_wear_loc (pos 13) ≡ 13
unfolding convert_rom_wear_loc
waist = refl

on_hit : convert_affect_location (pos 13) ≡ apply_hit
unfolding convert_affect_location
on_hit = refl

abbrev first_part : Part
first_part = record { sign = minus; digit = b'1'; digits = codes "2" }

abbrev second_part : Part
second_part = record { sign = plus; digit = b'3'; digits = [] }

fread_flag-letters_from_example :
    fread_flag (before (codes "ACa\n")) ≡ done (pos 67108869) (before (codes "\n"))
unfolding letter_of
fread_flag-letters_from_example =
    fread_flag-letters_from 67108869 10 [] (omega arith) (omega arith) refl refl refl

byte-IsPlain : (b : ℕ) → 13 < b → b < 126 → IsPlain b
byte-IsPlain b lo hi = (λ e. omega arith, λ e. omega arith, λ e. omega arith)

fread_string-stored_form_example :
    fread_string (before (b'H' ∷ b'i' ∷ 10 ∷ b'!' ∷ b'~' ∷ 10 ∷ []))
    ≡ done (b'H' ∷ b'i' ∷ 10 ∷ 13 ∷ b'!' ∷ []) (before (10 ∷ []))
fread_string-stored_form_example =
    fread_string-stored_form b'H' (b'i' ∷ 10 ∷ b'!' ∷ []) (10 ∷ []) refl
      (byte-IsPlain b'H' (omega arith) (omega arith))
      (
        byte-IsPlain b'i' (omega arith) (omega arith),
        (
          (λ e. omega arith, λ e. omega arith, λ e. omega arith),
          (byte-IsPlain b'!' (omega arith) (omega arith), tt),
        ),
      )
      (omega arith)

long-IsPlain : (n : ℕ) → All (λ b. IsPlain b × ((b == 10) ≡ false)) (replicate n b'a')
long-IsPlain zero = tt
long-IsPlain (suc n) = ((byte-IsPlain b'a' (omega arith) (omega arith), refl), long-IsPlain n)

fread_string_overflow_example :
    fread_string (before (b'a' ∷ (replicate 8191 b'a' ++ (b'~' ∷ [])))) ≡ outside
fread_string_overflow_example =
    fread_string_overflow b'a' (replicate 8191 b'a') [] refl
      (byte-IsPlain b'a' (omega arith) (omega arith)) (long-IsPlain 8191)
      (rw (length-replicate {A = ℕ} 8191 b'a') (omega arith))

fread_to_eol_endless_example :
    (fread_to_eol 2 (before (b'S' ∷ 10 ∷ 13 ∷ b'#' ∷ [])) ≡ done tt (before (b'#' ∷ [])))
    × (fread_to_eol 99 (before (b'S' ∷ [])) ≡ spent)
fread_to_eol_endless_example =
    fread_to_eol_endless (b'S' ∷ []) 10 (13 ∷ []) b'#' [] 2 99 (refl, tt) refl (refl, tt) refl refl
      (omega arith)

too_long_number : fread_number (before (codes "9223372036854775807 ")) ≡ overflows
unfolding fread_number
too_long_number = refl

rom_flags_lem_example :
    (is_set (rom_act_flag_convert (set_bit new_flag 9) 6) 1
      ≡ (any_row act_rows 6 1 || is_set (set_bit new_flag 9) 1))
    × (is_set (rom_convert_obj_flags (set_bit new_flag 9) 6) 1
        ≡ (any_row obj_rows 6 1 || is_set (set_bit new_flag 9) 1))
    × (is_set (rom_convert_room_flags (set_bit new_flag 9) 6) 1
        ≡ (any_row room_rows 6 1 || is_set (set_bit new_flag 9) 1))
    × (is_set (rom_convert_weapon_flags 6) 1 ≡ any_row weapon_rows 6 1)
    × (is_set (rom_convert_container_flags 6) 1 ≡ any_row container_rows 6 1)
    × (is_set (rom_convert_affect_flags 6) 1 ≡ any_row affect_rows 6 1)
rom_flags_lem_example = rom_flags_lem 6 (set_bit new_flag 9) 1

abbrev average : Stats
average = record {
  stat_mods = λ i. pos 0;
  resists = λ i. pos 0;
  sex = pos 1;
  level = pos 5;
  max_mana = pos 100;
  max_move = pos 100;
  max_hit = pos 80;
  size = pos 6;
  alignment = negsuc 10;
}

fire_resist : (rom_resists_flag_convert average 128 (negsuc 1)).resists 9 ≡ negsuc 9
unfolding rom_resists_flag_convert
fire_resist = refl
