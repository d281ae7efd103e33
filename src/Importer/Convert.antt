-- ===== src/Importer/Convert.antt =====
-- What the converted flags of src/server/importer.c hold.
use muddled.Base.{
  ℕ, Bool, true, false, ◌&&◌, ◌||◌, [], ◌∷◌, ◌≡◌, refl, ◌∙◌, arith, ◌==◌, if◌then◌else◌,
}
use muddled.Flag.Defs.{Flag, new_flag, set_bit, is_set}
use muddled.Flag.Bits.{is_set_after}
use muddled.Importer.Tables.{
  Rows, has_letter, convert_rows, act_rows, weapon_rows, container_rows, obj_rows, affect_rows,
  room_rows, rom_act_flag_convert, rom_convert_weapon_flags, rom_convert_container_flags,
  rom_convert_obj_flags, rom_convert_affect_flags, rom_convert_room_flags,
}

-- some row of the table has a letter of the bits, and turns into the flag
abbrev pub any_row : Rows → ℕ → ℕ → Bool
any_row [] bits c = false
any_row ((letter, bit) ∷ rows) bits c = has_letter letter bits && bit == c || any_row rows bits c

set_if :
    (b : Bool) (f : Flag) (bit c : ℕ)
    → is_set (if b then set_bit f bit else f) c ≡ (b && bit == c || is_set f c)
set_if true f bit c = (is_set_after f bit c).0
set_if false f bit c = refl

or_swap : (a b c : Bool) → (a || (b || c)) ≡ (b || a || c)
or_swap true true c = refl
or_swap true false c = refl
or_swap false true c = refl
or_swap false false c = refl

-- A flag that is converted has just the bits it had and those of the rows whose letters are in `bits`.
pub is_set-convert_rows :
    (rows : Rows) (bits : ℕ) (f : Flag) (c : ℕ)
    → is_set (convert_rows rows bits f) c ≡ (any_row rows bits c || is_set f c)
unfolding convert_rows
is_set-convert_rows [] bits f c = refl
is_set-convert_rows ((letter, bit) ∷ rows) bits f c =
    is_set-convert_rows rows bits (if has_letter letter bits then set_bit f bit else f) c
    ∙ rw (set_if (has_letter letter bits) f bit c)
        (or_swap (any_row rows bits c) (has_letter letter bits && bit == c) (is_set f c))

or_false : (a : Bool) → (a || false) ≡ a
or_false true = refl
or_false false = refl

is_set-new_flag : (c : ℕ) → is_set new_flag c ≡ false
unfolding is_set new_flag
is_set-new_flag c = ground arith

from_new :
    (rows : Rows) (bits c : ℕ) → is_set (convert_rows rows bits new_flag) c ≡ any_row rows bits c
from_new rows bits c =
    is_set-convert_rows rows bits new_flag c
    ∙ rw (is_set-new_flag c) (or_false (any_row rows bits c))

-- Each of the six functions that convert flags sets just the bits of those rows of its table whose
-- letters are in `bits`; the three that are given a flag keep the bits it had.
pub rom_flags_lem :
    (bits : ℕ) (f : Flag) (c : ℕ)
    → (is_set (rom_act_flag_convert f bits) c ≡ (any_row act_rows bits c || is_set f c))
      × (is_set (rom_convert_obj_flags f bits) c ≡ (any_row obj_rows bits c || is_set f c))
      × (is_set (rom_convert_room_flags f bits) c ≡ (any_row room_rows bits c || is_set f c))
      × (is_set (rom_convert_weapon_flags bits) c ≡ any_row weapon_rows bits c)
      × (is_set (rom_convert_container_flags bits) c ≡ any_row container_rows bits c)
      × (is_set (rom_convert_affect_flags bits) c ≡ any_row affect_rows bits c)
unfolding rom_act_flag_convert rom_convert_obj_flags rom_convert_room_flags rom_convert_weapon_flags
    rom_convert_container_flags rom_convert_affect_flags
rom_flags_lem bits f c = (
  is_set-convert_rows act_rows bits f c,
  is_set-convert_rows obj_rows bits f c,
  is_set-convert_rows room_rows bits f c,
  from_new weapon_rows bits c,
  from_new container_rows bits c,
  from_new affect_rows bits c,
)
