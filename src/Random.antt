-- ===== src/Random.antt =====
-- src/util.c: random numbers, and dice. What rand() gives is an argument, the list of its results in
-- order; where the list ends before a function does, the function gives `none`.
pub mod Bounds
use Prim.Native.Nat.{bit_and}
use muddled.Base.{
  ℕ, zero, suc, ◌+◌, ◌-◌, ◌*◌, ◌/◌, ◌^◌, not, ◌&&◌, List, [], ◌∷◌, Option, none, some, ◌>>=◌, ltb,
  ◌==◌, if◌then◌else◌,
}
use muddled.Base.Int.{ℤ, pos, pos_part, ◌+ℤ◌, ◌-ℤ◌, ◌==ℤ◌, ltb_ℤ}

-- a result and the draws left
abbrev pub Draws : Type 0 → Type 0
Draws A = Option (A × List ℕ)

abbrev pub number_mm : ℕ → ℕ
number_mm draw = draw / 2 ^ 6

-- `for (power = 2; power < to; power <<= 1)`, on fuel; `none` is an overflow of the int
pub power_loop : ℕ → ℕ → ℕ → Option ℕ
power_loop zero power to = none
power_loop (suc fuel) power to =
    let rest = power_loop fuel (power * 2) to in
    if ltb power to then (if ltb power (2 ^ 30) then rest else none) else some power

-- `while ((number = number_mm() & mask) > last)`
pub draw_loop : ℕ → ℕ → List ℕ → Draws ℕ
draw_loop mask last [] = none
draw_loop mask last (d ∷ ds) =
    let rest = draw_loop mask last ds in
    let number = bit_and (number_mm d) mask in if ltb last number then rest else some (number, ds)

pub number_range : ℤ → ℤ → List ℕ → Draws ℤ
unfolding power_loop draw_loop
number_range from to draws =
    let n = to -ℤ from +ℤ pos 1 in
    if from ==ℤ pos 0 && to ==ℤ pos 0
    then some (pos 0, draws)
    else if not (ltb_ℤ (pos 1) n)
    then some (from, draws)
    else do
      power ← power_loop 31 2 (pos_part n)
      (number, rest) ← draw_loop (power - 1) (pos_part n - 1) draws
      some (from +ℤ pos number, rest)

unfoldable pub number_percent : List ℕ → Draws ℕ
unfolding draw_loop
number_percent draws = do (percent, rest) ← draw_loop (128 - 1) 99 draws; some (1 + percent, rest)

-- `width` bits
unfoldable pub number_bits : ℕ → List ℕ → Draws ℕ
number_bits width [] = none
number_bits width (d ∷ ds) = some (bit_and (number_mm d) (2 ^ width - 1), ds)

-- the loop over `idice`, by the dice left
pub dice_loop : ℕ → ℕ → ℤ → List ℕ → Draws ℤ
unfolding number_range
dice_loop zero size sum draws = some (sum, draws)
dice_loop (suc left) size sum draws = do
  (number, rest) ← number_range (pos 1) (pos size) draws
  dice_loop left size (sum +ℤ number) rest

unfoldable pub dice : ℕ → ℕ → List ℕ → Draws ℤ
unfolding dice_loop
dice number size draws =
    if size == 0
    then some (pos 0, draws)
    else if size == 1
    then some (pos number, draws)
    else dice_loop number size (pos 0) draws

unfoldable pub number_fuzzy : ℤ → ℤ → List ℕ → Draws ℤ
unfolding number_range
number_fuzzy num fuzziness draws = number_range (num -ℤ fuzziness) (num +ℤ fuzziness) draws
