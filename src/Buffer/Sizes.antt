-- ===== src/Buffer/Sizes.antt =====
-- The table of sizes of src/buffer.c, and the loop that increases a size.
use muddled.Base.{
  ℕ, zero, suc, ◌+◌, ◌≤◌, ◌<◌, List, [], ◌∷◌, ◌⊎◌, inl, inr, none, some, ◌≡◌, refl, arith, ltb, leb,
  if◌then◌else◌, leb→le, Bool-cases, Option-cases,
}
use muddled.Buffer.{buf_size, size_loop, get_size, grow_loop}

-- a size of the table
abbrev pub IsIn : List ℕ → ℕ → Type 0
IsIn [] n = ⊥
IsIn (m ∷ ms) n = (n ≡ m) ⊎ IsIn ms n

-- how many entries are larger than `n`
abbrev pub larger : List ℕ → ℕ → ℕ
larger [] n = 0
larger (m ∷ ms) n = (if ltb n m then 1 else 0) + larger ms n

larger-le : (ms : List ℕ) (n k : ℕ) → n ≤ k → larger ms k ≤ larger ms n
larger-le [] n k h = omega arith
larger-le (m ∷ ms) n k h = ground (arith, larger-le ms n k h)

larger-lt : (ms : List ℕ) (n k : ℕ) → n < k → IsIn ms k → larger ms k < larger ms n
larger-lt [] n k h i = absurd i
larger-lt (m ∷ ms) n k h (inl e) = ground (arith, larger-le ms n k (omega arith))
larger-lt (m ∷ ms) n k h (inr i) = ground (arith, larger-lt ms n k h i)

size_loop-some : (ms : List ℕ) (v n : ℕ) → size_loop ms v ≡ some n → (v ≤ n) × IsIn ms n
unfolding size_loop
size_loop-some [] v n e = absurd (ground arith)
size_loop-some (m ∷ ms) v n e = elim (Bool-cases (leb v m)) [
  | inl fits ↦ (ground arith, inl (ground arith))
  | inr small ↦
      let e' : size_loop ms v ≡ some n = ground (arith, e) in
      let (le, i) = size_loop-some ms v n e' in (le, inr i)
]

size_loop-none : (ms : List ℕ) (v n : ℕ) → size_loop ms v ≡ none → IsIn ms n → n < v
unfolding size_loop
size_loop-none [] v n e i = absurd i
size_loop-none (m ∷ ms) v n e (inl h) = ground arith
size_loop-none (m ∷ ms) v n e (inr i) = size_loop-none ms v n (ground arith) i

-- From a size of the table the loop ends, within as many rounds as there are larger sizes and one:
-- with a size that is larger than `len`, or, if the largest size is not, with none.
pub grow_loop_lem :
    (fuel len size : ℕ)
    → larger buf_size size < fuel
    → IsIn buf_size size
    → ((grow_loop fuel len size ≡ some none) × (16384 ≤ len))
      ⊎ ((n : ℕ) × (grow_loop fuel len size ≡ some (some n)) × (len < n) × IsIn buf_size n)
unfolding grow_loop get_size
grow_loop_lem zero len size h i = absurd (omega arith)
grow_loop_lem (suc fuel) len size h i = elim (Bool-cases (leb size len)) [
  | inr fits ↦ inr (size, rw (fits) refl, ground arith, i)
  | inl small ↦ elim (Option-cases (get_size (size + 1))) [
    | inl full ↦
        let top : 16384 < size + 1 =
          size_loop-none buf_size (size + 1) 16384 full
            (inr (inr (inr (inr (inr (inr (inr (inr (inr (inl refl)))))))))) in
        inl (rw (small, full) refl, omega (arith, top, leb→le size len small))
    | inr (n, e) ↦
        let (le, at) = size_loop-some buf_size (size + 1) n e in
        let fewer = larger-lt buf_size size n (omega arith) at in
        elim (grow_loop_lem fuel len n (omega (arith, fewer)) at) [
          | inl (none_left, long) ↦ inl (rw (small, e) none_left, long)
          | inr (k, ek, lt, there) ↦ inr (k, rw (small, e) ek, lt, there)
        ]
  ]
]

pub larger-buf_size : (n : ℕ) → larger buf_size n < 11
larger-buf_size n = ground arith
