-- ===== src/Tests/Runs.antt =====
-- Runs of the operations that no theorem in this folder is about.
use muddled.Base.{true, false, List, [], ◌∷◌, ◌++◌, none, some, ◌≡◌, refl, codes}
use muddled.Base.Int.{pos}
use muddled.Affect.{Stats, Affect, apply_dex, affect_apply_resist, affect_apply_resists}
use muddled.Buffer.{
  Buffer, buffer_safe, buffer_overflow, new_buf, buf_addln, buf_addf, buf_addlnf, clear_buf,
}
use muddled.Color.{make_html_color, finish_html_color}
use muddled.Explored.{Room, roomcount, areacount, arearooms}
use muddled.Flag.Defs.{Flag, init_flag}
use muddled.Flag.Names.{parse_flags_toggle}
use muddled.Flag.Sets.{flag_toint}
use muddled.Hashmap.Defs.{
  Hashmap, blank, hm_count, hm_start, hm_next, hm_hasnext, sm_get, sm_remove, to_identifier,
  hash_key,
}
use muddled.Lookup.{Table, lookup_names, lookup_name}
use muddled.Str.Args.{is_name}
use muddled.Flag.Defs.{is_set, toggle_bit}
use muddled.Explored.{is_explorable}
use muddled.Str.Fill.{fillstr, align_string, align_left, align_right, align_center, strupper}
use muddled.Str.Replace.{done, str_ireplace_all}

bold_red : make_html_color (record { attr = pos 1; value = 31 }) ≡ codes "<span class=\"boldred\">"
unfolding make_html_color
bold_red = refl

-- a colour of the background has no class
red_background : make_html_color (record { attr = pos 0; value = 41 }) ≡ codes "<span class=\"\">"
unfolding make_html_color
red_background = refl

span_end : finish_html_color ≡ codes "</span>"
unfolding finish_html_color
span_end = refl

abbrev start : Buffer
start = record { state = buffer_safe; size = 1024; string = [] }

new_buf_run : new_buf ≡ some start
unfolding new_buf
new_buf_run = refl

buf_addln_run :
    buf_addln start (codes "hi")
    ≡ some (record start { string = codes "hi" ++ (b'\n' ∷ b'\r' ∷ []) }, true)
unfolding buf_addln
buf_addln_run = refl

buf_addf_run : buf_addf start (codes "10 hp") ≡ some (record start { string = codes "10 hp" }, true)
unfolding buf_addf
buf_addf_run = refl

buf_addlnf_run :
    buf_addlnf start (codes "ok")
    ≡ some (record start { string = codes "ok" ++ (b'\n' ∷ b'\r' ∷ []) }, true)
unfolding buf_addlnf
buf_addlnf_run = refl

clear_buf_run :
    clear_buf (record { state = buffer_overflow; size = 16; string = codes "x" })
    ≡ record { state = buffer_safe; size = 16; string = [] }
unfolding clear_buf
clear_buf_run = refl

abbrev no_bits : Flag
no_bits = record { bits = [] }

abbrev area : List Room
area =
    record { id = 1; flags = no_bits; area = some no_bits }
    ∷ record { id = 3; flags = record { bits = 4 ∷ [] }; area = some no_bits }
    ∷ record { id = 9; flags = no_bits; area = none }
    ∷ []

abbrev seen : Flag
seen = record { bits = 10 ∷ 3 ∷ [] }

roomcount_run : roomcount seen ≡ 4
unfolding roomcount
roomcount_run = refl

areacount_run : (areacount seen (some area) ≡ 3) × (areacount seen none ≡ 0)
unfolding areacount is_set
areacount_run = (refl, refl)

arearooms_run : arearooms (some area) ≡ 1
unfolding arearooms is_explorable
arearooms_run = refl

init_flag_run : init_flag 5 ≡ record { bits = 5 ∷ 0 ∷ [] }
unfolding init_flag
init_flag_run = refl

abbrev colours : Table
colours = record { name = codes "red"; value = 1 } ∷ record { name = codes "blue"; value = 9 } ∷ []

toggle_run :
    parse_flags_toggle (some seen) (some (codes "blue")) (some colours)
    ≡ some (some (record { bits = 10 ∷ 1 ∷ [] }), 1)
unfolding parse_flags_toggle is_name toggle_bit
toggle_run = refl

lookup_name_run : lookup_name colours 9 ≡ some (codes "blue")
unfolding lookup_name
lookup_name_run = refl

ireplace_all_run :
    str_ireplace_all 9 (codes "Cat, cAt") (codes "cat") (some (codes "dog"))
    ≡ done (codes "dog, dog")
unfolding str_ireplace_all
ireplace_all_run = refl

abbrev keyed : Hashmap
keyed = record {
  table =
      blank
      ∷ record { value = 70; active = true; key = to_identifier (hash_key (codes "a")) }
      ∷ blank
      ∷ blank
      ∷ blank
      ∷ [];
  count = 1;
  place = 0;
}

-- the hash of "a" is 177670, which is 0 modulo 5
sm_get_run : sm_get keyed (codes "a") ≡ some 0
unfolding sm_get hash_key
sm_get_run = refl

sm_remove_run : sm_remove keyed (codes "a") ≡ some (keyed, 0)
unfolding sm_remove hash_key
sm_remove_run = refl

iterate_run :
    (hm_count keyed ≡ 1)
    × (hm_start keyed ≡ (keyed, 0))
    × (hm_hasnext keyed ≡ false)
    × (hm_next keyed ≡ (record keyed { place = 1 }, 70))
unfolding hm_count hm_start hm_hasnext hm_next hash_key
iterate_run = (refl, refl, refl, refl)

flag_toint_run : (flag_toint seen ≡ 10) × (flag_toint no_bits ≡ 0)
unfolding flag_toint
flag_toint_run = (refl, refl)

lookup_names_run : lookup_names colours ≡ some (codes "red blue ")
unfolding lookup_names
lookup_names_run = refl

abbrev ward : Affect
ward = record { from = pos 3; modifier = pos 5; callback = apply_dex }

abbrev weak : Stats
weak = record {
  stat_mods = λ i. pos 0;
  resists = λ i. pos 1;
  sex = pos 0;
  level = pos 1;
  max_mana = pos 1;
  max_move = pos 1;
  max_hit = pos 1;
  size = pos 4;
  alignment = pos 0;
}

-- the one adds to three resistances, the other replaces one
resists_run :
    ((affect_apply_resists ward false weak).resists 2 ≡ pos 6)
    × ((affect_apply_resists ward false weak).resists 3 ≡ pos 1)
    × ((affect_apply_resist ward false 3 weak).resists 3 ≡ pos 5)
unfolding affect_apply_resists affect_apply_resist
resists_run = (refl, refl, refl)

fillstr_run :
    (fillstr (some (codes "~r-=")) 5 ≡ some (codes "~r-=~r-=~r-"))
    × (fillstr none 3 ≡ some (codes "---"))
    × (fillstr (some (codes "~r")) 3 ≡ none)
unfolding fillstr
fillstr_run = (refl, refl, refl)

align_run :
    (align_string align_left 5 none none (some (codes "abc")) ≡ some (codes "abc  ~x"))
    × (align_string align_center 7 (some (codes "~r")) none (some (codes "abc"))
        ≡ some (codes "~r  abc  ~x"))
    × (align_string align_right 6 none none (some (codes "abc")) ≡ some (codes "  abc ~x"))
unfolding align_string
align_run = (refl, refl, refl)

-- a text as wide as the field: the width of the fill wraps
align_right_run : align_string align_right 3 none none (some (codes "abc")) ≡ none
unfolding align_string
align_right_run = refl

strupper_run : strupper (codes "QUITE LONG") (some (codes "short")) ≡ codes "SHORT LONG"
unfolding strupper
strupper_run = refl
