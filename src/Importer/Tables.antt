-- ===== src/Importer/Tables.antt =====
-- src/server/importer.c: the tables that turn the values of the area files into those of the server.
-- A row is the number of a letter, which stands for a bit (0 for A, 26 for aa), and the number of what
-- it turns into in its enum.
use Prim.Native.Nat.{bit_and}
use muddled.Base.{ℕ, ◌^◌, Bool, not, List, [], ◌∷◌, some, Text, codes, get_or, ◌==◌, if◌then◌else◌}
use muddled.Base.Int.{ℤ, pos, negsuc, ◌*ℤ◌, ◌==ℤ◌}
use muddled.Flag.Defs.{Flag, new_flag, set_bit}
use muddled.Str.Compare.{str_cmp}
use muddled.Affect.{
  Stats, Callback, add_at, no_callback, apply_str, apply_dex, apply_int, apply_wis, apply_con,
  apply_sex, apply_level, apply_mana, apply_hit, apply_move,
}

abbrev pub Rows : Type 0
Rows = List (ℕ × ℕ)

-- `rombit & bits`
abbrev pub has_letter : ℕ → ℕ → Bool
has_letter letter bits = not (bit_and (2 ^ letter) bits == 0)

-- the loop of the functions that convert flags
unfoldable pub convert_rows : Rows → ℕ → Flag → Flag
unfolding set_bit
convert_rows [] bits flags = flags
convert_rows ((letter, bit) ∷ rows) bits flags =
    convert_rows rows bits (if has_letter letter bits then set_bit flags bit else flags)

abbrev pub act_rows : Rows
act_rows = (1, 0) ∷ (2, 1) ∷ (5, 2) ∷ (6, 4) ∷ (7, 3) ∷ []

abbrev pub weapon_rows : Rows
weapon_rows = (0, 0) ∷ (1, 1) ∷ (2, 2) ∷ (3, 3) ∷ (4, 4) ∷ (5, 5) ∷ (6, 6) ∷ (7, 7) ∷ []

abbrev pub container_rows : Rows
container_rows = (0, 0) ∷ (1, 1) ∷ (2, 2) ∷ (3, 3) ∷ (4, 4) ∷ []

abbrev pub obj_rows : Rows
obj_rows =
    (0, 0)
    ∷ (1, 1)
    ∷ (2, 2)
    ∷ (4, 3)
    ∷ (5, 4)
    ∷ (6, 5)
    ∷ (7, 6)
    ∷ (8, 7)
    ∷ (9, 8)
    ∷ (10, 9)
    ∷ (11, 10)
    ∷ (12, 11)
    ∷ (13, 12)
    ∷ (14, 13)
    ∷ (15, 14)
    ∷ (24, 16)
    ∷ []

abbrev pub affect_rows : Rows
affect_rows =
    (0, 0)
    ∷ (1, 1)
    ∷ (2, 2)
    ∷ (3, 3)
    ∷ (4, 4)
    ∷ (5, 5)
    ∷ (6, 6)
    ∷ (7, 7)
    ∷ (8, 8)
    ∷ (9, 9)
    ∷ (10, 10)
    ∷ (12, 11)
    ∷ (13, 12)
    ∷ (14, 13)
    ∷ (15, 14)
    ∷ (16, 15)
    ∷ (17, 16)
    ∷ (18, 17)
    ∷ (19, 18)
    ∷ (20, 19)
    ∷ (21, 20)
    ∷ (22, 21)
    ∷ (23, 22)
    ∷ (24, 23)
    ∷ (25, 24)
    ∷ (26, 25)
    ∷ (28, 26)
    ∷ (29, 27)
    ∷ []

abbrev pub room_rows : Rows
room_rows = (10, 0) ∷ (13, 1) ∷ []

abbrev pub wear_rows : Rows
wear_rows =
    (1, 10)
    ∷ (2, 2)
    ∷ (3, 12)
    ∷ (4, 1)
    ∷ (5, 14)
    ∷ (6, 15)
    ∷ (7, 7)
    ∷ (8, 6)
    ∷ (9, 19)
    ∷ (10, 16)
    ∷ (11, 13)
    ∷ (12, 8)
    ∷ (13, 17)
    ∷ (14, 21)
    ∷ (16, 22)
    ∷ []

abbrev pub resist_rows : Rows
resist_rows =
    (4, 0)
    ∷ (5, 1)
    ∷ (6, 2)
    ∷ (7, 9)
    ∷ (8, 4)
    ∷ (9, 3)
    ∷ (10, 16)
    ∷ (11, 12)
    ∷ (12, 10)
    ∷ (13, 8)
    ∷ (14, 13)
    ∷ (15, 6)
    ∷ (18, 11)
    ∷ []

unfoldable pub rom_act_flag_convert : Flag → ℕ → Flag
unfolding convert_rows
rom_act_flag_convert flags bits = convert_rows act_rows bits flags

unfoldable pub rom_convert_weapon_flags : ℕ → Flag
unfolding convert_rows new_flag
rom_convert_weapon_flags bits = convert_rows weapon_rows bits new_flag

unfoldable pub rom_convert_container_flags : ℕ → Flag
unfolding convert_rows new_flag
rom_convert_container_flags bits = convert_rows container_rows bits new_flag

unfoldable pub rom_convert_obj_flags : Flag → ℕ → Flag
unfolding convert_rows
rom_convert_obj_flags flags flag = convert_rows obj_rows flag flags

unfoldable pub rom_convert_affect_flags : ℕ → Flag
unfolding convert_rows new_flag
rom_convert_affect_flags bits = convert_rows affect_rows bits new_flag

unfoldable pub rom_convert_room_flags : Flag → ℕ → Flag
unfolding convert_rows
rom_convert_room_flags flags bits = convert_rows room_rows bits flags

-- the chain of tests, in their order
pub first_row : Rows → ℕ → ℕ
first_row [] flag = 0
first_row ((letter, wear) ∷ rows) flag =
    let more = first_row rows flag in if has_letter letter flag then wear else more

unfoldable pub import_rom_convert_wear_flags : ℕ → ℕ
unfolding first_row
import_rom_convert_wear_flags flag = first_row wear_rows flag

pub resist_loop : Rows → ℕ → ℤ → Stats → Stats
resist_loop [] bits mult ch = ch
resist_loop ((letter, resist) ∷ rows) bits mult ch = resist_loop rows bits mult (
    if has_letter letter bits
    then record ch { resists = add_at ch.resists resist (mult *ℤ ch.level) }
    else ch)

unfoldable pub rom_resists_flag_convert : Stats → ℕ → ℤ → Stats
unfolding resist_loop
rom_resists_flag_convert ch bits mult = resist_loop resist_rows bits mult ch

-- the value of the first name that is the word, up to the case of letters
pub named_row : List (ℕ × Text) → ℕ → Text → ℕ
named_row [] other word = other
named_row ((value, name) ∷ rows) other word =
    let more = named_row rows other word in
    if not (str_cmp (some word) (some name)) then value else more

-- sizes in tenths
abbrev pub size_rows : List (ℕ × Text)
size_rows =
    (18, codes "tiny")
    ∷ (27, codes "small")
    ∷ (48, codes "medium")
    ∷ (67, codes "large")
    ∷ (88, codes "huge1")
    ∷ (100, codes "giant")
    ∷ []

unfoldable pub rom_convert_size : Text → ℕ
unfolding named_row
rom_convert_size word = named_row size_rows 48 word

abbrev pub type_rows : List (ℕ × Text)
type_rows =
    (1, codes "light")
    ∷ (2, codes "scroll")
    ∷ (3, codes "wand")
    ∷ (4, codes "staff")
    ∷ (5, codes "weapon")
    ∷ (8, codes "treasure")
    ∷ (9, codes "armor")
    ∷ (10, codes "potion")
    ∷ (11, codes "clothing")
    ∷ (12, codes "furniture")
    ∷ (13, codes "trash")
    ∷ (15, codes "container")
    ∷ (17, codes "drink_cont")
    ∷ (17, codes "drink")
    ∷ (18, codes "key")
    ∷ (19, codes "food")
    ∷ (20, codes "money")
    ∷ (22, codes "boat")
    ∷ (23, codes "corpse_npc")
    ∷ (24, codes "corpse_pc")
    ∷ (25, codes "fountain")
    ∷ (26, codes "pill")
    ∷ (27, codes "protect")
    ∷ (28, codes "map")
    ∷ (29, codes "portal")
    ∷ (30, codes "warp_stone")
    ∷ (31, codes "room_key")
    ∷ (32, codes "gem")
    ∷ (33, codes "jewelry")
    ∷ (34, codes "jukebox")
    ∷ []

unfoldable pub lookup_rom_obj_type : Text → ℕ
unfolding named_row
lookup_rom_obj_type word = named_row type_rows 13 word

unfoldable pub convert_rom_wear_loc : ℤ → ℕ
convert_rom_wear_loc (pos val) =
    get_or
      (20 ∷ 10 ∷ 11 ∷ 2 ∷ 2 ∷ 12 ∷ 1 ∷ 14 ∷ 15 ∷ 7 ∷ 6 ∷ 19 ∷ 16 ∷ 13 ∷ 8 ∷ 9 ∷ 17 ∷ 21 ∷ 22 ∷ [])
      val 0
convert_rom_wear_loc (negsuc val) = 0

pub location_loop : List (ℕ × Callback) → ℤ → Callback
location_loop [] location = no_callback
location_loop ((l, callback) ∷ rows) location =
    let more = location_loop rows location in if pos l ==ℤ location then callback else more

unfoldable pub convert_affect_location : ℤ → Callback
unfolding location_loop
convert_affect_location location =
    location_loop
      ((1, apply_str)
        ∷ (2, apply_dex)
        ∷ (3, apply_int)
        ∷ (4, apply_wis)
        ∷ (5, apply_con)
        ∷ (6, apply_sex)
        ∷ (8, apply_level)
        ∷ (12, apply_mana)
        ∷ (13, apply_hit)
        ∷ (14, apply_move)
        ∷ [])
      location
