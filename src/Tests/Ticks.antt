-- ===== src/Tests/Ticks.antt =====
-- Runs of the updates in src/server/update.c, of src/fight.c and of the random numbers of src/util.c.
use muddled.Base.{
  ℕ, ◌-◌, ◌*◌, ◌%◌, true, false, List, [], ◌∷◌, ◌++◌, map, inl, inr, some, ◌≡◌, refl, arith, ◌==◌,
}
use muddled.Base.Int.{ℤ, pos, negsuc, ◌+ℤ◌, ◌≤ℤ◌, umax}
use muddled.Random.{number_range, number_percent, number_bits, number_fuzzy, dice}
use muddled.Random.Bounds.{number_range_lem}
use muddled.Update.{Person, hunger, pos_resting}
use muddled.Update.Conditions.{InRange, hunger-InRange, hunger_for, hunger_stops}
use muddled.Update.Pulses.{
  area_update, character_update, hint_update, violence_update, made, only, made_lem,
}
use muddled.Affect.{Affect, Stats, apply_dex}
use muddled.Update.Affects.{Timed, shown, age_for, age_for_lem}
use muddled.Fight.{exp_by_alignment, advance_level, Fighter, gain_exp}
use muddled.Fight.Levels.{gain_exp_lem}

abbrev draws : List ℕ
draws = 1000 ∷ 320 ∷ 64 ∷ 7000 ∷ []

percent : number_percent draws ≡ some (16, 320 ∷ 64 ∷ 7000 ∷ [])
unfolding number_percent
percent = refl

two_dice : dice 2 6 draws ≡ some (pos 8, 7000 ∷ [])
unfolding dice
two_dice = refl

bits : number_bits 3 draws ≡ some (7, 320 ∷ 64 ∷ 7000 ∷ [])
unfolding number_bits
bits = refl

fuzzy : number_fuzzy (pos 10) (pos 2) draws ≡ some (pos 9, 7000 ∷ [])
unfolding number_fuzzy
fuzzy = refl

number_range_lem_example :
    (r : ℤ) × (rest : List ℕ) × (number_range (negsuc 2) (pos 3) draws ≡ some (r, rest))
    × (negsuc 2 ≤ℤ r)
    × (r ≤ℤ pos 3)
number_range_lem_example =
    number_range_lem (negsuc 2) (pos 3) draws (omega arith) (omega arith) (inr (inl (omega arith)))

abbrev wounded : Person
wounded = record {
  level = 12;
  position = pos_resting;
  in_room = true;
  in_desert = false;
  is_pc = true;
  stat = λ i. pos 15;
  condition = λ i. pos 10;
  hit = pos 20;
  max_hit = pos 90;
  mana = pos 100;
  max_mana = pos 100;
  move = pos 70;
  max_move = pos 80;
}

hunger-InRange_example : InRange (hunger wounded)
hunger-InRange_example = hunger-InRange wounded (λ j l. ground arith)

hunger_stops_example : negsuc 0 ≤ℤ (hunger_for 100 wounded).condition 0
hunger_stops_example = hunger_stops 100 wounded (omega arith)

made_lem_example :
    made 240
    ≡ only (240 % 480 == 0) area_update
      ++ (only (240 % 240 == 0) character_update
          ++ (only (240 % 720 == 0) hint_update ++ only (240 % 12 == 0) violence_update))
made_lem_example = made_lem 240

abbrev hero : Fighter
hero = record {
  level = 10;
  alignment = pos 900;
  is_pc = true;
  experience = pos 5000;
  max_hit = pos 120;
  max_mana = pos 100;
  max_move = pos 100;
  perm_hit = pos 120;
  perm_mana = pos 100;
  perm_move = pos 100;
}

abbrev goblin : Fighter
goblin = record hero { level = 9; alignment = negsuc 799; is_pc = false }

gain_exp_lem_example :
    (d : Fighter) × (gain_exp hero (pos 6000) (pos 1) ≡ some d)
    × (d.level ≡ 100)
    × (d.experience ≡ umax (pos 6000) (pos 5000 +ℤ pos 1))
    × (pos 120 +ℤ pos (2 * (100 - 10)) ≤ℤ d.max_hit)
gain_exp_lem_example = gain_exp_lem hero (pos 6000) (pos 1) refl (omega arith)

abbrev haste : Affect
haste = record { from = pos 12; modifier = pos 3; callback = apply_dex }

abbrev spells : List Timed
spells =
    record { affect = haste; duration = pos 2; level = pos 5 }
    ∷ record { affect = haste; duration = negsuc 0; level = pos 5 }
    ∷ record { affect = haste; duration = pos 4; level = pos 1 }
    ∷ []

abbrev average : Stats
average = record {
  stat_mods = λ i. pos 0;
  resists = λ i. pos 0;
  sex = pos 1;
  level = pos 5;
  max_mana = pos 100;
  max_move = pos 100;
  max_hit = pos 80;
  size = pos 6;
  alignment = negsuc 10;
}

age_for_lem_example :
    map shown (age_for (λ n k. k) 3 spells average).0 ≡ (haste, negsuc 0) ∷ (haste, pos 1) ∷ []
age_for_lem_example = age_for_lem (λ n k. k) 3 spells average

levelled : (advance_level hero).max_hit ≡ pos 123
unfolding advance_level
levelled = refl

by_alignment : exp_by_alignment (pos 900) (negsuc 799) 66 ≡ 88
unfolding exp_by_alignment
by_alignment = refl
