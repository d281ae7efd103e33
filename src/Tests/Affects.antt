-- ===== src/Tests/Affects.antt =====
-- Inputs for the theorems about src/affect.c.
use muddled.Base.{[], ◌∷◌, some, ◌≡◌, refl, arith, ◌==◌, if◌then◌else◌}
use muddled.Base.Int.{pos, negsuc}
use muddled.World.Links.{IsList}
use muddled.Affect.{Stats, apply_dex, Affect, Character, affect_to_char, affect_remove, affect_find}
use muddled.Affect.Laws.{affect_remove-affect_to_char}

abbrev average : Stats
average = record {
  stat_mods = λ i. pos 0;
  resists = λ i. pos 0;
  sex = pos 1;
  level = pos 5;
  max_mana = pos 100;
  max_move = pos 100;
  max_hit = pos 80;
  size = pos 6;
  alignment = negsuc 10;
}

abbrev haste : Affect
haste = record { from = pos 12; modifier = pos 3; callback = apply_dex }

-- with the affects 4 and 6
abbrev hero : Character
hero = record {
  stats = average;
  affects = 4;
  next = λ p. if p == 4 then 6 else 0;
  affect = λ p. if p == 9 then haste else record haste { from = pos 1 };
}

affect_remove-affect_to_char_example :
    (ch' : Character) × (affect_remove 4 (affect_to_char hero 9) 9 ≡ some ch')
    × (ch'.stats ≡ hero.stats)
    × IsList ch'.next ch'.affects (4 ∷ 6 ∷ [])
affect_remove-affect_to_char_example =
    affect_remove-affect_to_char hero 9 (4 ∷ 6 ∷ []) 4 (omega arith) (omega arith) tt
      (refl, omega arith, (refl, omega arith, refl)) ((refl, tt), (tt, tt)) (refl, (refl, tt))

is_affected : affect_find 4 (affect_to_char hero 9) 9 (pos 12) ≡ some (some 9)
unfolding affect_find affect_to_char
is_affected = refl
