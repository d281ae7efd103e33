-- ===== src/Update/Conditions.antt =====
-- Hunger, thirst and drink in src/server/update.c.
use muddled.Base.{
  ℕ, zero, suc, ◌<◌, false, not, ◌||◌, inl, inr, ◌≡◌, refl, arith, leb, ◌==◌, if◌then◌else◌, ==_iff,
  ==_refl, Bool-cases,
}
use muddled.Base.Int.{ℤ, pos, negsuc, ◌==ℤ◌, ◌+ℤ◌, ◌≤ℤ◌, ltb_ℤ, quot}
use muddled.Update.{
  Person, cond_hunger, cond_thirst, cond_drunk, level_immortal, urange, condition_change,
  gain_condition, hunger,
}

-- the least value of a condition, which is 0 for drink only
abbrev pub lowest : ℕ → ℤ
lowest i = if i == cond_drunk then pos 0 else negsuc 49

-- the ranges of hunger, thirst and drink
abbrev pub InRange : Person → Type 0
InRange ch = (j : ℕ) → j < 3 → (lowest j ≤ℤ ch.condition j) × (ch.condition j ≤ℤ pos 75)

urange_bounds : (a b c : ℤ) → a ≤ℤ c → (a ≤ℤ urange a b c) × (urange a b c ≤ℤ c)
urange_bounds a b c h = ground arith

lowest-le : (i : ℕ) → lowest i ≤ℤ pos 75
lowest-le i = ground arith

gain_condition_at :
    (ch : Person) (i : ℕ) (value : ℤ)
    → lowest i ≤ℤ ch.condition i
    → ch.condition i ≤ℤ pos 75
    → (lowest i ≤ℤ (gain_condition ch i value).condition i)
      × ((gain_condition ch i value).condition i ≤ℤ pos 75)
unfolding gain_condition
gain_condition_at ch i value lo hi =
    elim (Bool-cases (value ==ℤ pos 0 || not ch.is_pc || leb level_immortal ch.level)) [
      | inl kept ↦ rw kept (lo, hi)
      | inr on ↦ elim (Bool-cases (ltb_ℤ (ch.condition i) (negsuc 49))) [
        | inl low ↦ rw (on, low) (lo, hi)
        | inr other ↦
            rw (on, other, ==_refl i)
              (urange_bounds (lowest i) (ch.condition i +ℤ condition_change ch i value) (pos 75)
                (lowest-le i))
      ]
    ]

gain_condition_other :
    (ch : Person) (i j : ℕ) (value : ℤ)
    → (i == j) ≡ false
    → (gain_condition ch i value).condition j ≡ ch.condition j
unfolding gain_condition
gain_condition_other ch i j value h = ground arith

pub gain_condition-InRange :
    (ch : Person) (i : ℕ) (value : ℤ) → InRange ch → InRange (gain_condition ch i value)
gain_condition-InRange ch i value h j l = elim (Bool-cases (i == j)) [
  | inl same ↦
      rw (← (==_iff i j).0 same)
        (let r = h i (ground arith) in gain_condition_at ch i value r.0 r.1)
  | inr other ↦ rw (gain_condition_other ch i j value other) (h j l)
]

-- The conditions stay in their ranges in an update.
pub hunger-InRange : (ch : Person) → InRange ch → InRange (hunger ch)
unfolding hunger
hunger-InRange ch h =
    gain_condition-InRange
      (gain_condition (gain_condition ch cond_drunk (negsuc 0)) cond_thirst (negsuc 0)) cond_hunger
      (negsuc 0)
      (gain_condition-InRange (gain_condition ch cond_drunk (negsuc 0)) cond_thirst (negsuc 0)
        (gain_condition-InRange ch cond_drunk (negsuc 0) h))

-- `n` updates
abbrev pub hunger_for : ℕ → Person → Person
hunger_for zero ch = ch
hunger_for (suc n) ch = hunger (hunger_for n ch)

least_step :
    (x : ℤ)
    → negsuc 0 ≤ℤ x
    → negsuc 0
      ≤ℤ urange
          (negsuc 49)
          (x +ℤ (if ltb_ℤ x (pos 0) then quot (negsuc 0) 2 else negsuc 0))
          (pos 75)
least_step (pos n) h = ground arith
least_step (negsuc n) h = ground arith

-- below 0 one point is cut to none
gain_condition_hunger :
    (ch : Person)
    → negsuc 0 ≤ℤ ch.condition cond_hunger
    → negsuc 0 ≤ℤ (gain_condition ch cond_hunger (negsuc 0)).condition cond_hunger
unfolding gain_condition condition_change
gain_condition_hunger ch h = elim (Bool-cases (not ch.is_pc || leb level_immortal ch.level)) [
  | inl kept ↦ rw kept h
  | inr on ↦ elim (Bool-cases (ltb_ℤ (ch.condition 0) (negsuc 49))) [
    | inl low ↦ rw (on, low) h
    | inr other ↦ rw (on, other) (least_step (ch.condition 0) h)
  ]
]

hunger_step :
    (ch : Person)
    → negsuc 0 ≤ℤ ch.condition cond_hunger
    → negsuc 0 ≤ℤ (hunger ch).condition cond_hunger
unfolding hunger
hunger_step ch h =
    let drunk = gain_condition ch cond_drunk (negsuc 0) in
    gain_condition_hunger (gain_condition drunk cond_thirst (negsuc 0)) (
      rw
        (
          gain_condition_other drunk cond_thirst cond_hunger (negsuc 0) refl,
          gain_condition_other ch cond_drunk cond_hunger (negsuc 0) refl,
        )
        h)

-- Hunger that is at most one point below 0 gets no worse than that, however many updates there are.
pub hunger_stops :
    (n : ℕ) (ch : Person)
    → negsuc 0 ≤ℤ ch.condition cond_hunger
    → negsuc 0 ≤ℤ (hunger_for n ch).condition cond_hunger
hunger_stops zero ch h = h
hunger_stops (suc n) ch h = hunger_step (hunger_for n ch) (hunger_stops n ch h)
