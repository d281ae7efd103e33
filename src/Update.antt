-- ===== src/Update.antt =====
-- src/server/update.c: what the passing of time does to a character, and when it is done. The numbers
-- of src/util.c that it needs are here too.
pub mod Gains
pub mod Conditions
pub mod Pulses
pub mod Affects
use muddled.Base.{ℕ, ◌+◌, ◌-◌, ◌*◌, ◌/◌, Bool, not, ◌&&◌, ◌||◌, ltb, leb, ◌==◌, if◌then◌else◌}
use muddled.Base.Int.{ℤ, pos, negsuc, pos_part, ◌+ℤ◌, ◌-ℤ◌, ◌*ℤ◌, ltb_ℤ, ◌==ℤ◌, quot, umin, umax}

-- `position_t`, with its numbers
abbrev pub pos_fighting : ℕ
pos_fighting = 0

abbrev pub pos_resting : ℕ
pos_resting = 3

abbrev pub pos_stunned : ℕ
pos_stunned = 4

abbrev pub pos_sleeping : ℕ
pos_sleeping = 5

-- `condition_t`
abbrev pub cond_hunger : ℕ
cond_hunger = 0

abbrev pub cond_thirst : ℕ
cond_thirst = 1

abbrev pub cond_drunk : ℕ
cond_drunk = 2

-- `stat_t`
abbrev pub stat_int : ℕ
stat_int = 1

abbrev pub stat_wis : ℕ
stat_wis = 2

abbrev pub stat_dex : ℕ
stat_dex = 3

abbrev pub stat_con : ℕ
stat_con = 4

abbrev pub max_playable_level : ℕ
max_playable_level = 100

abbrev pub level_immortal : ℕ
level_immortal = 101

-- What the updates read and write of a character. Levels are not negative, and no number overflows
-- its C type; `stat` is the sum of the two arrays `stats` and `statMods`; `in_room` and `in_desert`
-- say whether `inRoom` is not NULL and its sector is the desert, `is_pc` whether `pc` is not NULL.
pub record Person : Type 0 where
  pub level : ℕ
  pub position : ℕ
  pub in_room : Bool
  pub in_desert : Bool
  pub is_pc : Bool
  pub stat : ℕ → ℤ
  pub condition : ℕ → ℤ
  pub hit : ℤ
  pub max_hit : ℤ
  pub mana : ℤ
  pub max_mana : ℤ
  pub move : ℤ
  pub max_move : ℤ

-- the largest value of a statistic; immortals have `MAX_STAT_VALUE`
pub get_max_train : Person → ℕ
get_max_train ch =
    let max = max_playable_level / 4 in
    let third =
      if ltb (max_playable_level / 3) ch.level
      then max + (ch.level - max_playable_level / 3)
      else max in
    if leb level_immortal ch.level
    then 500
    else if ltb ch.level (max_playable_level / 4)
    then max
    else if ltb (max_playable_level / 2) ch.level
    then third + (ch.level - max_playable_level / 2)
    else third

-- `URANGE(3, stat, max)`
pub get_curr_stat : Person → ℕ → ℕ
unfolding get_max_train
get_curr_stat ch stat =
    let value = ch.stat stat in
    let max = get_max_train ch in
    if ltb_ℤ value (pos 3)
    then 3
    else if ltb_ℤ (pos max) value
    then (if ltb 3 max then max else 3)
    else pos_part value

-- halved by hunger, and by thirst
pub starved : Person → ℕ → ℕ
starved ch gain =
    let gain' = if ltb_ℤ (ch.condition cond_hunger) (pos 20) then gain else gain / 2 in
    if ltb_ℤ (ch.condition cond_thirst) (pos 20) then gain' else gain' / 2

-- by the position of a character that is no player
pub rested : ℕ → ℕ → ℕ
rested position gain =
    if position == pos_sleeping
    then 3 * gain / 2
    else if position == pos_resting
    then gain
    else if position == pos_fighting
    then gain / 3
    else gain / 2

-- and of a player
pub rested_pc : ℕ → ℕ → ℕ
rested_pc position gain =
    if position == pos_sleeping
    then gain
    else if position == pos_resting
    then gain / 2
    else if position == pos_fighting
    then gain / 6
    else gain / 4

pub hit_gain : Person → ℤ
unfolding rested rested_pc starved get_curr_stat
hit_gain ch =
    let base = get_curr_stat ch stat_con - 3 + ch.level in
    let gain =
      if not ch.is_pc
      then rested ch.position (10 + ch.level)
      else starved ch (rested_pc ch.position (if ltb base 3 then 3 else base)) in
    if not ch.in_room then pos 0 else umin (pos gain) (ch.max_hit -ℤ ch.hit)

pub mana_gain : Person → ℤ
unfolding rested rested_pc starved get_curr_stat
mana_gain ch =
    let gain =
      if not ch.is_pc
      then rested ch.position (10 + ch.level)
      else starved ch (
          rested_pc ch.position
            (get_curr_stat ch stat_wis + get_curr_stat ch stat_int + ch.level)) in
    if not ch.in_room then pos 0 else umin (pos gain) (ch.max_mana -ℤ ch.mana)

pub move_gain : Person → ℤ
unfolding starved get_curr_stat
move_gain ch =
    let dex = get_curr_stat ch stat_dex in
    let base = ch.level + dex in
    let at_least = if ltb base 15 then 15 else base in
    let gain =
      if not ch.is_pc
      then ch.level
      else starved ch (
          if ch.position == pos_sleeping
          then at_least + dex
          else if ch.position == pos_resting
          then at_least + dex / 2
          else at_least) in
    if not ch.in_room then pos 0 else umin (pos gain) (ch.max_move -ℤ ch.move)

-- the part of `character_update` on hit points, mana and moves
abbrev pub refill : ℤ → ℤ → ℤ → ℤ
refill now most gain = if ltb_ℤ now most then now +ℤ gain else most

pub refresh : Person → Person
unfolding hit_gain mana_gain move_gain
refresh ch =
    if ltb ch.position pos_stunned
    then record ch {
      hit = refill ch.hit ch.max_hit (hit_gain ch);
      mana = refill ch.mana ch.max_mana (mana_gain ch);
      move = refill ch.move ch.max_move (move_gain ch);
    }
    else ch

abbrev pub set_condition : Person → ℕ → ℤ → Person
set_condition ch i v = record ch { condition = λ j. if i == j then v else ch.condition j }

-- `URANGE(a, b, c)`
abbrev pub urange : ℤ → ℤ → ℤ → ℤ
urange a b c = if ltb_ℤ b a then a else if ltb_ℤ c b then (if ltb_ℤ a c then c else a) else b

-- the change that the desert and a condition below 0 leave of `value`
pub condition_change : Person → ℕ → ℤ → ℤ
condition_change ch i value =
    let value' =
      if i == cond_thirst && ltb_ℤ value (pos 0) && (ch.in_room && ch.in_desert)
      then value *ℤ pos 2
      else value in
    if ltb_ℤ (ch.condition i) (pos 0) then quot value' 2 else value'

-- without the messages
pub gain_condition : Person → ℕ → ℤ → Person
unfolding condition_change
gain_condition ch i value =
    if value ==ℤ pos 0 || not ch.is_pc || leb level_immortal ch.level
    then ch
    else if ltb_ℤ (ch.condition i) (negsuc 49)
    then ch
    else set_condition ch i (
        urange (if i == cond_drunk then pos 0 else negsuc 49)
          (ch.condition i +ℤ condition_change ch i value) (pos 75))

-- the conditions in `character_update`
pub hunger : Person → Person
unfolding gain_condition
hunger ch =
    gain_condition (gain_condition (gain_condition ch cond_drunk (negsuc 0)) cond_thirst (negsuc 0))
      cond_hunger (negsuc 0)
