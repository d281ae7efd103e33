-- ===== src/Importer/Letters.antt =====
-- The letters of a flag in src/server/importer.c.
use native.Mathlib.Nat.{pow-suc, two-pow-succ, zero-mul, one-mul}
use muddled.Base.{
  ℕ, zero, suc, ◌+◌, ◌-◌, ◌*◌, ◌/◌, ◌%◌, ◌^◌, ◌≤◌, ◌<◌, Bool, true, false, ◌||◌, List, [], ◌∷◌,
  ◌++◌, inl, inr, ◌≡◌, refl, ap, ◌∙◌, arith, Text, is_upper, is_lower, is_digit, length, ltb, leb,
  ◌==◌, if◌then◌else◌, ltb→lt, Bool-cases,
}
use muddled.Base.Int.{pos}
use muddled.Str.Numbers.{skip_space}
use muddled.Importer.{
  done, before, ungetc, double_loop, flag_convert, letter_loop, digit_loop, flag_loop, fread_flag,
  read_minus, starts_plus, long_end,
}

unfoldable pub letter_of : ℕ → ℕ
letter_of k = if ltb k 26 then b'A' + k else b'a' + (k - 26)

-- the letters of the `n` lowest digits of `x`, from the letter of the number `k` on
abbrev pub letters_from : ℕ → ℕ → ℕ → Text
letters_from k zero x = []
letters_from k (suc n) x =
    let rest = letters_from (suc k) n (x / 2) in if x % 2 == 0 then rest else letter_of k ∷ rest

abbrev pub is_letter : ℕ → Bool
is_letter c = is_upper c || is_lower c

double_lem : (k b : ℕ) → double_loop k b ≡ b * 2 ^ k
double_lem zero b = omega arith
double_lem (suc k) b = double_lem k (b * 2) ∙ rw (pow-suc 2 k) (grind arith)

upper_letter : (k : ℕ) → k < 26 → (is_upper (b'A' + k) ≡ true) × (b'A' + k - b'A' ≡ k)
upper_letter k h = ground arith

lower_letter : (k : ℕ) → (is_upper (b'a' + k) ≡ false)
lower_letter k = ground arith

lower_letter' : (k : ℕ) → k < 26 → (is_lower (b'a' + k) ≡ true) × (b'a' + k - b'a' ≡ k)
lower_letter' k h = ground arith

pow_split : (j : ℕ) → 67108864 * 2 ^ j ≡ 2 ^ (26 + j)
pow_split zero = refl
pow_split (suc j) =
    let e : 2 ^ (26 + suc j) ≡ 2 ^ suc (26 + j) = ap (λ i. 2 ^ i) (omega arith) in
    omega (arith, e, two-pow-succ j, two-pow-succ (26 + j), pow_split j)

flag_convert_lem : (k : ℕ) → k < 52 → flag_convert (letter_of k) ≡ 2 ^ k
unfolding flag_convert letter_of
flag_convert_lem k h = elim (Bool-cases (ltb k 26)) [
  | inl low ↦
      let (u, d) = upper_letter k (ltb→lt k 26 low) in rw (low, u, d, double_lem k 1) (omega arith)
  | inr high ↦
      let (l, d) = lower_letter' (k - 26) (ground arith) in
      rw (high, lower_letter (k - 26), l, d, double_lem (k - 26) 67108864)
        (pow_split (k - 26) ∙ ap (λ e. 2 ^ e) (ground arith))
]

letter_of_letter : (k : ℕ) → k < 52 → is_letter (letter_of k) ≡ true
unfolding letter_of
letter_of_letter k h = ground arith

letter_loop_end :
    (number e : ℕ) (rest : List ℕ)
    → is_letter e ≡ false
    → letter_loop number (e ∷ rest) ≡ (number, e ∷ rest)
unfolding letter_loop
letter_loop_end number e rest h = rw h refl

letter_loop_more :
    (number c : ℕ) (s : List ℕ)
    → is_letter c ≡ true
    → letter_loop number (c ∷ s) ≡ letter_loop (number + flag_convert c) s
unfolding letter_loop
letter_loop_more number c s h = rw h refl

regroup : (q p r : ℕ) → r * p + q * (p * 2) ≡ (q * 2 + r) * p
regroup q p r = grind arith

halved : (number k x : ℕ) → number + x % 2 * 2 ^ k + x / 2 * 2 ^ suc k ≡ number + x * 2 ^ k
halved number k x =
    let back : x / 2 * 2 + x % 2 ≡ x = omega arith in
    let e = regroup (x / 2) (2 ^ k) (x % 2) ∙ ap (λ y. y * 2 ^ k) back in
    let q = pow-suc 2 k in
    let f : x / 2 * 2 ^ suc k ≡ x / 2 * (2 ^ k * 2) = ap (λ y. x / 2 * y) q in omega (arith, e, f)

halved_even : (number k x : ℕ) → x % 2 ≡ 0 → number + x / 2 * 2 ^ suc k ≡ number + x * 2 ^ k
halved_even number k x h =
    let e : x % 2 * 2 ^ k ≡ 0 = rw h (zero-mul (2 ^ k)) in omega (arith, e, halved number k x)

halved_odd : (number k x : ℕ) → x % 2 ≡ 1 → number + 2 ^ k + x / 2 * 2 ^ suc k ≡ number + x * 2 ^ k
halved_odd number k x h =
    let e : x % 2 * 2 ^ k ≡ 2 ^ k = rw h (one-mul (2 ^ k)) in omega (arith, e, halved number k x)

-- the letters add their powers of two
letter_loop_lem :
    (n k x number e : ℕ) (rest : List ℕ)
    → k + n ≤ 52
    → x < 2 ^ n
    → is_letter e ≡ false
    → letter_loop number (letters_from k n x ++ e ∷ rest) ≡ (number + x * 2 ^ k, e ∷ rest)
letter_loop_lem zero k x number e rest h lt l =
    let none_left : x * 2 ^ k ≡ 0 = ap (λ y. y * 2 ^ k) (omega arith) ∙ zero-mul (2 ^ k) in
    rw (letter_loop_end number e rest l) (ap (λ v. (v, e ∷ rest)) (omega (arith, none_left)))
letter_loop_lem (suc n) k x number e rest h lt l =
    let small : x / 2 < 2 ^ n = let p = pow-suc 2 n in omega (arith, p) in
    elim (Bool-cases (x % 2 == 0)) [
      | inl even ↦
          let ih = letter_loop_lem n (suc k) (x / 2) number e rest (omega arith) small l in
          rw (even, ih) (ap (λ v. (v, e ∷ rest)) (halved_even number k x (ground arith)))
      | inr odd ↦
          let ih =
            letter_loop_lem n (suc k) (x / 2) (number + 2 ^ k) e rest (omega arith) small l in
          rw
            (
              odd,
              letter_loop_more number (letter_of k) (letters_from (suc k) n (x / 2) ++ e ∷ rest)
                  (letter_of_letter k (omega arith)),
              flag_convert_lem k (omega arith),
              ih,
            )
            (ap (λ v. (v, e ∷ rest)) (halved_odd number k x (ground arith)))
    ]

digit_loop_none :
    (n e : ℕ) (rest : List ℕ) → is_digit e ≡ false → digit_loop n (e ∷ rest) ≡ (n, e, before rest)
unfolding digit_loop
digit_loop_none n e rest h = rw h refl

-- a letter stands in front
first_letter :
    (n k x : ℕ) (rest : List ℕ)
    → k + n ≤ 52
    → x < 2 ^ n
    → 0 < x
    → (c : ℕ) × (s : List ℕ) × (is_letter c ≡ true) × (letters_from k n x ++ rest ≡ c ∷ s)
first_letter zero k x rest h lt p = absurd (omega arith)
first_letter (suc n) k x rest h lt p =
    let small : x / 2 < 2 ^ n = let q = pow-suc 2 n in omega (arith, q) in
    elim (Bool-cases (x % 2 == 0)) [
      | inl even ↦ rw even (first_letter n (suc k) (x / 2) rest (omega arith) small (ground arith))
      | inr odd ↦ (
        letter_of k,
        letters_from (suc k) n (x / 2) ++ rest,
        letter_of_letter k (omega arith),
        rw odd refl,
      )
    ]

at_letter :
    (c : ℕ) (s : List ℕ)
    → is_letter c ≡ true
    → (skip_space (c ∷ s) ≡ c ∷ s)
      × (read_minus (c ∷ s) ≡ (false, c ∷ s))
      × (starts_plus (c ∷ s) ≡ false)
unfolding skip_space
at_letter c s h = ground arith

flag_loop_letters :
    (fuel : ℕ) (s : List ℕ) (number e : ℕ) (rest : List ℕ)
    → skip_space s ≡ s
    → read_minus s ≡ (false, s)
    → starts_plus s ≡ false
    → letter_loop 0 s ≡ (number, e ∷ rest)
    → is_digit e ≡ false
    → (e == b'|') ≡ false
    → number < long_end
    → flag_loop (suc fuel) s
      ≡ done (pos number) (if e == b' ' then before rest else ungetc e (before rest))
unfolding flag_loop
flag_loop_letters fuel s number e rest a b c l d f small =
    let fits : leb long_end number ≡ false = ground arith in
    rw (a, b, c, l, digit_loop_none number e rest d, d, fits, f) refl

-- A flag of at most 52 bits, and not 0, that is written as the letters of its bits and ends at a byte
-- that is neither a letter nor a digit nor a bar, is read back; a blank behind it is read too.
pub fread_flag-letters_from :
    (x e : ℕ) (rest : List ℕ)
    → 0 < x
    → x < 2 ^ 52
    → is_letter e ≡ false
    → is_digit e ≡ false
    → (e == b'|') ≡ false
    → fread_flag (before (letters_from 0 52 x ++ e ∷ rest))
      ≡ done (pos x) (if e == b' ' then before rest else ungetc e (before rest))
unfolding fread_flag
fread_flag-letters_from x e rest p small l d b =
    let s = letters_from 0 52 x ++ e ∷ rest in
    let (c, t, letter, q) = first_letter 52 0 x (e ∷ rest) (omega arith) small p in
    let (skipped, minus, plus) = at_letter c t letter in
    let all = letter_loop_lem 52 0 x 0 e rest (omega arith) small l in
    flag_loop_letters (length s) s x e rest (rw q skipped) (rw q minus) (rw q plus)
      (all ∙ ap (λ v. (v, e ∷ rest)) (omega arith)) d b (omega arith)
