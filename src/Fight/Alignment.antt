-- ===== src/Fight/Alignment.antt =====
-- The alignment of the killer in src/fight.c.
use native.Mathlib.Nat.{
  div-le_of_le-mul, mul-le-mul_left, mul-zero, zero-mul, zero-div, zero-add, mul_comm, le_trans,
}
use muddled.Base.{
  ℕ, zero, suc, ◌+◌, ◌*◌, ◌/◌, ◌≤◌, List, [], ◌∷◌, inl, inr, ◌≡◌, refl, ap, ◌∙◌, arith, All, get_or,
  Bool-cases,
}
use muddled.Base.Int.{ℤ, pos, negsuc, sub_ℕ, ◌+ℤ◌, ◌-ℤ◌, ◌*ℤ◌, ◌≤ℤ◌, ltb_ℤ, quot, umin, umax}
use muddled.Fight.{share, new_alignment, base_exp, min_align, max_align}

pub mul_pos : (a b : ℕ) → pos a *ℤ pos b ≡ pos (a * b)
mul_pos a b = rw (mul-zero a, zero-mul b) (ground arith)

sub_suc : (a : ℕ) → sub_ℕ 0 (suc a) ≡ negsuc a
sub_suc a = ground arith

mul_neg : (a b : ℕ) → negsuc a *ℤ pos b ≡ sub_ℕ 0 (suc a * b)
mul_neg a b =
    let none_up : 0 * b + suc a * 0 ≡ 0 = omega arith in
    let all_down : 0 + suc a * b ≡ suc a * b = zero-add (suc a * b) in
    ap (λ x. sub_ℕ x (0 + suc a * b)) none_up ∙ ap (sub_ℕ 0) all_down

mul_sub : (a b : ℕ) → sub_ℕ 0 a *ℤ pos b ≡ sub_ℕ 0 (a * b)
mul_sub zero b = rw (mul-zero 0, zero-mul b) (ground arith)
mul_sub (suc a) b = ap (λ z. z *ℤ pos b) (sub_suc a) ∙ mul_neg a b

quot_sub : (a n : ℕ) → quot (sub_ℕ 0 a) n ≡ sub_ℕ 0 (a / n)
quot_sub zero n = rw (zero-div n) refl
quot_sub (suc a) n = ap (λ z. quot z n) (sub_suc a)

-- the size of a share
abbrev part : ℕ → ℕ → ℕ → ℕ → ℕ
part a base level total = a * base / 500 * level / total

share_pos :
    (a base level total : ℕ) → share (pos a) base level total ≡ pos (part a base level total)
unfolding share
share_pos a base level total = rw (mul_pos a base, mul_pos (a * base / 500) level) refl

share_neg :
    (a base level total : ℕ)
    → share (negsuc a) base level total ≡ sub_ℕ 0 (part (suc a) base level total)
unfolding share
share_neg a base level total =
    ap (λ z. quot (quot z 500 *ℤ pos level) total) (mul_neg a base)
    ∙ ap (λ z. quot (z *ℤ pos level) total) (quot_sub (suc a * base) 500)
    ∙ ap (λ z. quot z total) (mul_sub (suc a * base / 500) level)
    ∙ quot_sub (suc a * base / 500 * level) total

half : (a base : ℕ) → base ≤ 1000 → a * base ≤ 500 * (2 * a)
half a base h = let le = mul-le-mul_left a h in omega (arith, le)

scaled : (x level total : ℕ) → level ≤ total → x * level ≤ total * x
scaled x level total h = rw (mul_comm total x) (mul-le-mul_left x h)

part-le : (a base level total : ℕ) → base ≤ 1000 → level ≤ total → part a base level total ≤ 2 * a
part-le a base level total b l =
    let inner = div-le_of_le-mul 500 {n = 2 * a} (half a base b) in
    let outer =
      div-le_of_le-mul total {n = a * base / 500} (scaled (a * base / 500) level total l) in
    le_trans outer inner

abbrev pub InRange : ℤ → Type 0
InRange a = (min_align ≤ℤ a) × (a ≤ℤ max_align)

-- a change of at most twice the value, away from it
kept_pos : (a p : ℕ) → p ≤ 2 * a → a ≤ 2500 → InRange (pos a -ℤ pos p)
kept_pos a p h l = ground arith

kept_neg : (a p : ℕ) → p ≤ 2 * suc a → suc a ≤ 2500 → InRange (negsuc a -ℤ sub_ℕ 0 p)
kept_neg a p h l = ground arith

one_le : (change : ℤ) → pos 1 ≤ℤ umax (pos 1) change
one_le change = ground arith

lowered_by : (own d : ℤ) → pos 1 ≤ℤ d → InRange own → InRange (umax min_align (own -ℤ d))
lowered_by (pos a) (pos d) l h = ground arith
lowered_by (negsuc a) (pos d) l h = ground arith
lowered_by own (negsuc d) l h = absurd (omega arith)

raised_by : (own d : ℤ) → pos 1 ≤ℤ d → InRange own → InRange (umin max_align (own +ℤ d))
raised_by (pos a) (pos d) l h = ground arith
raised_by (negsuc a) (pos d) l h = ground arith
raised_by own (negsuc d) l h = absurd (omega arith)

lowered : (own change : ℤ) → InRange own → InRange (umax min_align (own -ℤ umax (pos 1) change))
lowered own change h = lowered_by own (umax (pos 1) change) (one_le change) h

raised : (own change : ℤ) → InRange own → InRange (umin max_align (own +ℤ umax (pos 1) change))
raised own change h = raised_by own (umax (pos 1) change) (one_le change) h

-- the third case
own_share :
    (own : ℤ) (base level total : ℕ)
    → base ≤ 1000
    → level ≤ total
    → InRange own
    → InRange (own -ℤ share own base level total)
own_share (pos a) base level total b l h =
    rw (share_pos a base level total)
      (kept_pos a (part a base level total) (part-le a base level total b l) (omega arith))
own_share (negsuc a) base level total b l h = rw (share_neg a base level total) (
    kept_neg a (part (suc a) base level total) (part-le (suc a) base level total b l) (omega arith))

-- The alignment of the killer stays between -2500 and 2500 if the killer's level is at most the total
-- and the base of the experience is at most 1000, which is 46 levels between the two.
pub new_alignment-InRange :
    (own other : ℤ) (base level total : ℕ)
    → base ≤ 1000
    → level ≤ total
    → InRange own
    → InRange (new_alignment own other base level total)
unfolding new_alignment
new_alignment-InRange own other base level total b l h =
    let align = other -ℤ own in
    elim (Bool-cases (ltb_ℤ (pos 500) align)) [
      | inl good ↦ rw good (lowered own (share (align -ℤ pos 500) base level total) h)
      | inr rest ↦ elim (Bool-cases (ltb_ℤ align (negsuc 499))) [
        | inl bad ↦
            rw (rest, bad) (raised own (share (pos 0 -ℤ align -ℤ pos 500) base level total) h)
        | inr near ↦ rw (rest, near) (own_share own base level total b l h)
      ]
    ]

get_or-le : (m : ℕ) (xs : List ℕ) (i : ℕ) → All (λ x. x ≤ m) xs → get_or xs i 0 ≤ m
get_or-le m [] i h = omega arith
get_or-le m (x ∷ xs) zero h = h.0
get_or-le m (x ∷ xs) (suc i) h = get_or-le m xs i h.1

pub base_exp-le : (range : ℤ) → range ≤ℤ pos 46 → base_exp range ≤ 1000
unfolding base_exp
base_exp-le (pos r) h =
    let small = get_or-le 1000 (83 ∷ 99 ∷ 121 ∷ 143 ∷ 165 ∷ []) r (omega arith) in ground arith
base_exp-le (negsuc r) h =
    get_or-le 1000 (66 ∷ 50 ∷ 33 ∷ 22 ∷ 11 ∷ 9 ∷ 5 ∷ 2 ∷ 1 ∷ []) r (omega arith)
