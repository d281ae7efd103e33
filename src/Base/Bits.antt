-- ===== src/Base/Bits.antt =====
-- Single binary digits of a word, and what the native operations on words do to them.
use Prim.Native.Nat.{
  ℕ, zero, suc, ◌+◌, ◌*◌, ◌/◌, ◌%◌, ◌^◌, ◌-◌, ◌≤◌, ◌<◌, min, max, bit_and, bit_or, bit_xor, digits,
  bitwise, bit_and-bitwise, bit_or-bitwise, bit_xor-bitwise, differ,
}
use mathlib.Core.Path.{◌≡◌, refl, ap}
use mathlib.Core.Logic.{◌⊎◌, inl, inr}
use native.Mathlib.Nat.{pow-suc, one-le-pow}
use native.Mathlib.Omega.{arith}
use muddled.Base.Tests.{ltb, ◌==◌, if◌then◌else◌}

-- the digit `i` of a word
abbrev pub bit_at : ℕ → ℕ → ℕ
bit_at x zero = x % 2
bit_at x (suc i) = bit_at (x / 2) i

pub bit_at-le-one : (x i : ℕ) → bit_at x i ≤ 1
bit_at-le-one x zero = omega arith
bit_at-le-one x (suc i) = bit_at-le-one (x / 2) i

-- The native operations are `bitwise` for some `f` on digits; the fuel of that recursion plays no
-- part, so that there is one equation for the lowest digit and the rest of the word.
module _ (z : ℕ → ℕ) (f : ℕ → ℕ → ℕ) where
  same_digits : (x y k l : ℕ) → (x ≤ k) × (x ≤ l) → digits z f k x y ≡ digits z f l x y
  same_digits zero y zero zero h = refl
  same_digits zero y zero (suc l) h = refl
  same_digits zero y (suc k) zero h = refl
  same_digits zero y (suc k) (suc l) h = refl
  same_digits (suc x) y zero l h = absurd (omega (arith, h.0))
  same_digits (suc x) y (suc k) zero h = absurd (omega (arith, h.1))
  same_digits (suc x) y (suc k) (suc l) (p, q) =
      rw (same_digits (suc x / 2) (y / 2) k l (omega arith, omega arith)) refl

  -- for an operation that is `bitwise`, and has `0 op y` as `z` says
  halves :
      (op : ℕ → ℕ → ℕ)
      → ((x y : ℕ) → op x y ≡ bitwise z f x y)
      → ((y : ℕ) → z y ≡ f 0 (y % 2) + 2 * z (y / 2))
      → (x y : ℕ) → op x y ≡ f (x % 2) (y % 2) + 2 * op (x / 2) (y / 2)
  halves op def below zero y = rw (def 0 y, def 0 (y / 2)) (below y)
  halves op def below (suc x) y =
      let fuel = same_digits (suc x / 2) (y / 2) x (suc x / 2) (omega arith, omega arith) in
      omega (arith, def (suc x) y, def (suc x / 2) (y / 2), fuel)

differ_digits : (x y : ℕ) → x ≤ 1 → y ≤ 1 → differ x y ≡ (if x == y then 0 else 1)
differ_digits zero zero p q = refl
differ_digits zero (suc zero) p q = refl
differ_digits zero (suc (suc y)) p q = absurd (omega arith)
differ_digits (suc zero) zero p q = refl
differ_digits (suc zero) (suc zero) p q = refl
differ_digits (suc zero) (suc (suc y)) p q = absurd (omega arith)
differ_digits (suc (suc x)) y p q = absurd (omega arith)

bit_or_halves : (x y : ℕ) → bit_or x y ≡ max (x % 2) (y % 2) + 2 * bit_or (x / 2) (y / 2)
bit_or_halves = halves (λ y. y) max bit_or bit_or-bitwise (λ y. omega arith)

bit_and_halves : (x y : ℕ) → bit_and x y ≡ min (x % 2) (y % 2) + 2 * bit_and (x / 2) (y / 2)
bit_and_halves = halves (λ y. 0) min bit_and bit_and-bitwise (λ y. omega arith)

bit_xor_halves : (x y : ℕ) → bit_xor x y ≡ differ (x % 2) (y % 2) + 2 * bit_xor (x / 2) (y / 2)
bit_xor_halves =
    halves (λ y. y) differ bit_xor bit_xor-bitwise λ y. ground (arith, differ_digits 0 (y % 2))

pub bit_at-bit_or : (a b i : ℕ) → bit_at (bit_or a b) i ≡ max (bit_at a i) (bit_at b i)
bit_at-bit_or a b zero = omega (arith, bit_or_halves a b)
bit_at-bit_or a b (suc i) =
    let half : bit_or a b / 2 ≡ bit_or (a / 2) (b / 2) = omega (arith, bit_or_halves a b) in
    rw half (bit_at-bit_or (a / 2) (b / 2) i)

pub bit_at-bit_and : (a b i : ℕ) → bit_at (bit_and a b) i ≡ min (bit_at a i) (bit_at b i)
bit_at-bit_and a b zero = omega (arith, bit_and_halves a b)
bit_at-bit_and a b (suc i) =
    let half : bit_and a b / 2 ≡ bit_and (a / 2) (b / 2) = omega (arith, bit_and_halves a b) in
    rw half (bit_at-bit_and (a / 2) (b / 2) i)

pub bit_at-bit_xor :
    (a b i : ℕ) → bit_at (bit_xor a b) i ≡ (if bit_at a i == bit_at b i then 0 else 1)
bit_at-bit_xor a b zero = ground (arith, bit_xor_halves a b, differ_digits (a % 2) (b % 2))
bit_at-bit_xor a b (suc i) =
    let half : bit_xor a b / 2 ≡ bit_xor (a / 2) (b / 2) =
      ground (arith, bit_xor_halves a b, differ_digits (a % 2) (b % 2)) in
    rw half (bit_at-bit_xor (a / 2) (b / 2) i)

pub bit_at-zero : (i : ℕ) → bit_at 0 i ≡ 0
bit_at-zero zero = refl
bit_at-zero (suc i) = bit_at-zero i

-- `1 << k`
pub bit_at-pow : (k i : ℕ) → bit_at (2 ^ k) i ≡ (if k == i then 1 else 0)
bit_at-pow zero zero = refl
bit_at-pow zero (suc i) = rw (bit_at-zero i) (ground arith)
bit_at-pow (suc k) zero = ground (arith, pow-suc 2 k)
bit_at-pow (suc k) (suc i) =
    let half : 2 ^ suc k / 2 ≡ 2 ^ k = omega (arith, pow-suc 2 k) in
    rw half (ground (arith, bit_at-pow k i))

bit_and-zero : (n a : ℕ) → a ≤ n → bit_and a 0 ≡ 0
bit_and-zero zero zero h = refl
bit_and-zero zero (suc a) h = absurd (omega arith)
bit_and-zero (suc n) zero h = refl
bit_and-zero (suc n) (suc a) h =
    omega (arith, bit_and_halves (suc a) 0, bit_and-zero n (suc a / 2) (omega arith))

-- `x & (1 << k)` is the digit `k` in its place.
pub bit_and-pow : (k x : ℕ) → bit_and x (2 ^ k) ≡ bit_at x k * 2 ^ k
bit_and-pow zero x = omega (arith, bit_and_halves x 1, bit_and-zero (x / 2) (x / 2) (omega arith))
bit_and-pow (suc k) x =
    let half : 2 ^ suc k / 2 ≡ 2 ^ k = omega (arith, pow-suc 2 k) in
    let even : 2 ^ suc k % 2 ≡ 0 = omega (arith, pow-suc 2 k) in
    let step : bit_and x (2 ^ suc k) ≡ bit_and (x / 2) (2 ^ k) * 2 =
      omega (arith, bit_and_halves x (2 ^ suc k), ap (bit_and (x / 2)) half) in
    omega (arith, bit_and-pow k (x / 2), ap (λ (t : ℕ). bit_at (x / 2) k * t) (pow-suc 2 k))

bit_at_cases : (x k : ℕ) → (bit_at x k ≡ 0) ⊎ (bit_at x k ≡ 1)
bit_at_cases x k = omega (arith, bit_at-le-one x k)

-- the test of the digit `k`
pub bit_and-pow_iff : (k x : ℕ) → (bit_and x (2 ^ k) == 0) ≡ (bit_at x k == 0)
bit_and-pow_iff k x =
    let positive = one-le-pow k 2 (omega arith) in
    let digit = bit_at-le-one x k in
    elim (bit_at_cases x k) [
      | inl e ↦ rw (bit_and-pow k x, e) (ground arith)
      | inr e ↦ rw (bit_and-pow k x, e) (ground arith)
    ]

-- `~(1 << k)` in a word of `w` digits
pub bit_at-ones : (w i : ℕ) → bit_at (2 ^ w - 1) i ≡ (if ltb i w then 1 else 0)
bit_at-ones zero i = rw (bit_at-zero i) (ground arith)
bit_at-ones (suc w) zero = ground (arith, pow-suc 2 w, one-le-pow w 2)
bit_at-ones (suc w) (suc i) =
    let half : (2 ^ suc w - 1) / 2 ≡ 2 ^ w - 1 = omega (arith, pow-suc 2 w) in
    rw half (ground (arith, bit_at-ones w i))

-- The operations keep the width of a word.
pub bit_or-lt-pow : (n a b : ℕ) → a < 2 ^ n → b < 2 ^ n → bit_or a b < 2 ^ n
bit_or-lt-pow zero zero zero h k = omega arith
bit_or-lt-pow zero zero (suc b) h k = absurd (omega arith)
bit_or-lt-pow zero (suc a) b h k = absurd (omega arith)
bit_or-lt-pow (suc n) a b h k = omega (
  arith,
  bit_or_halves a b,
  pow-suc 2 n,
  bit_or-lt-pow n (a / 2) (b / 2) (omega (arith, pow-suc 2 n)) (omega (arith, pow-suc 2 n)),
)

pub bit_xor-lt-pow : (n a b : ℕ) → a < 2 ^ n → b < 2 ^ n → bit_xor a b < 2 ^ n
bit_xor-lt-pow zero zero zero h k = omega arith
bit_xor-lt-pow zero zero (suc b) h k = absurd (omega arith)
bit_xor-lt-pow zero (suc a) b h k = absurd (omega arith)
bit_xor-lt-pow (suc n) a b h k = ground (
  arith,
  bit_xor_halves a b,
  differ_digits (a % 2) (b % 2),
  pow-suc 2 n,
  bit_xor-lt-pow n (a / 2) (b / 2) (omega (arith, pow-suc 2 n)) (omega (arith, pow-suc 2 n)),
)

bit_and-le_fuel : (n a b : ℕ) → a ≤ n → bit_and a b ≤ a
bit_and-le_fuel zero zero b h = omega (arith, bit_and-bitwise 0 b)
bit_and-le_fuel zero (suc a) b h = absurd (omega arith)
bit_and-le_fuel (suc n) zero b h = omega (arith, bit_and-bitwise 0 b)
bit_and-le_fuel (suc n) (suc a) b h =
    omega (arith, bit_and_halves (suc a) b, bit_and-le_fuel n (suc a / 2) (b / 2) (omega arith))

pub bit_and-le : (a b : ℕ) → bit_and a b ≤ a
bit_and-le a b = bit_and-le_fuel a a b (omega arith)
