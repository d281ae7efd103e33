-- ===== src/Random/Bounds.antt =====
-- The range of the random numbers and dice of src/util.c.
use Prim.Native.Nat.{bit_and}
use muddled.Base.{
  ℕ, zero, suc, ◌-◌, ◌*◌, ◌/◌, ◌^◌, ◌≤◌, ◌<◌, true, ◌&&◌, List, [], ◌∷◌, ◌⊎◌, inl, inr, some, ◌≡◌,
  refl, arith, ◌>>=◌, ltb, ltb→lt, lt→ltb, Bool-cases,
}
use native.Mathlib.Nat.{pow-suc}
use muddled.Base.Bits.{bit_and-le}
use muddled.Base.Int.{ℤ, pos, negsuc, pos_part, ◌+ℤ◌, ◌-ℤ◌, ◌≤ℤ◌, ◌==ℤ◌, ltb_ℤ}
use muddled.Random.{number_range, draw_loop, power_loop}

-- A draw that is small enough for every power of two: its upper bits are below `n`.
abbrev pub HasDraw : ℕ → List ℕ → Type 0
HasDraw n [] = ⊥
HasDraw n (d ∷ ds) = (d / 2 ^ 6 < n) ⊎ HasDraw n ds

pub draw_loop_lem :
    (mask last : ℕ) (draws : List ℕ)
    → HasDraw (suc last) draws
    → (n : ℕ) × (rest : List ℕ) × (draw_loop mask last draws ≡ some (n, rest)) × (n ≤ last)
unfolding draw_loop
draw_loop_lem mask last [] h = absurd h
draw_loop_lem mask last (d ∷ ds) h = elim (Bool-cases (ltb last (bit_and (d / 2 ^ 6) mask))) [
  | inr fits ↦ (bit_and (d / 2 ^ 6) mask, ds, rw fits refl, ground arith)
  | inl large ↦ elim h [
    | inl small ↦ absurd (ground (arith, bit_and-le (d / 2 ^ 6) mask))
    | inr more ↦ let (n, rest, q, b) = draw_loop_lem mask last ds more in (n, rest, rw large q, b)
  ]
]

power_step : (p f : ℕ) → p * 2 ^ suc f ≡ p * 2 * 2 ^ f
power_step p f = rw (pow-suc 2 f) (grind arith)

-- counts up to 2 ^ 30 have a power of two
pub power_loop_lem :
    (fuel power to : ℕ)
    → to ≤ 2 ^ 30
    → 2 ^ 31 ≤ power * 2 ^ fuel
    → power < 2 ^ 31
    → (p : ℕ) × (power_loop fuel power to ≡ some p)
unfolding power_loop
power_loop_lem zero power to h e l = absurd (omega arith)
power_loop_lem (suc fuel) power to h e l = elim (Bool-cases (ltb power to)) [
  | inr done ↦ (power, rw done refl)
  | inl go ↦
      let lt = ltb→lt power to go in
      let (p, q) =
        power_loop_lem fuel (power * 2) to h (rw (← power_step power fuel) e) (omega arith) in
      (p, rw (go, lt→ltb power (2 ^ 30) (omega arith)) q)
]

zero_range :
    (from to : ℤ) → (from ==ℤ pos 0 && to ==ℤ pos 0) ≡ true → (from ≤ℤ pos 0) × (pos 0 ≤ℤ to)
zero_range (pos a) (pos b) h = ground arith
zero_range (pos a) (negsuc b) h = ground arith
zero_range (negsuc a) to h = cc

one_lt : (n : ℤ) → ltb_ℤ (pos 1) n ≡ true → pos_part n ≡ suc (pos_part n - 1)
one_lt (pos n) h = ground arith
one_lt (negsuc n) h = ground arith

le_add : (a : ℤ) (k : ℕ) → a ≤ℤ a +ℤ pos k
le_add a k = ground arith

-- stays in the range
add_le : (from to : ℤ) (k : ℕ) → k < pos_part (to -ℤ from +ℤ pos 1) → from +ℤ pos k ≤ℤ to
add_le (pos a) (pos b) k h = ground arith
add_le (pos a) (negsuc b) k h = ground arith
add_le (negsuc a) (pos b) k h = ground arith
add_le (negsuc a) (negsuc b) k h = ground arith

-- A range of at most 2 ^ 30 numbers gives a number of the range, as soon as one of the draws is small
-- enough.
pub number_range_lem :
    (from to : ℤ) (draws : List ℕ)
    → from ≤ℤ to
    → let n = pos_part (to -ℤ from +ℤ pos 1) in
      n ≤ 2 ^ 30
      → HasDraw n draws
      → (r : ℤ) × (rest : List ℕ) × (number_range from to draws ≡ some (r, rest))
        × (from ≤ℤ r)
        × (r ≤ℤ to)
unfolding number_range
number_range_lem from to draws le small has =
    let n = pos_part (to -ℤ from +ℤ pos 1) in
    elim (Bool-cases (from ==ℤ pos 0 && to ==ℤ pos 0)) [
      | inl zeros ↦
          (pos 0, draws, rw zeros refl, (zero_range from to zeros).0, (zero_range from to zeros).1)
      | inr some_range ↦ elim (Bool-cases (ltb_ℤ (pos 1) (to -ℤ from +ℤ pos 1))) [
        | inr single ↦ (from, draws, rw (some_range, single) refl, omega arith, le)
        | inl more ↦
            let sized : n ≡ suc (n - 1) = one_lt (to -ℤ from +ℤ pos 1) more in
            let (p, q) = power_loop_lem 31 2 n small (omega arith) (omega arith) in
            let (k, rest, e, b) = draw_loop_lem (p - 1) (n - 1) draws (rw (← sized) has) in
            (
              from +ℤ pos k,
              rest,
              rw (some_range, more, q, ◌>>=◌, e) refl,
              le_add from k,
              add_le from to k (omega arith),
            )
      ]
    ]
