-- ===== src/Flag/Invariant.antt =====
-- The words that the operations of src/flag.c build hold 8 bits each, so an empty flag is one with no
-- bit set.
use Prim.Native.Nat.{bit_and, bit_or, bit_xor}
use native.Mathlib.Nat.{pow-le-pow_right}
use muddled.Base.Bits.{bit_at, bit_or-lt-pow, bit_xor-lt-pow, bit_and-le, bit_at-zero}
use muddled.Base.{
  ℕ, zero, suc, ◌+◌, ◌-◌, ◌*◌, ◌/◌, ◌%◌, ◌^◌, ◌≤◌, ◌<◌, Bool, true, false, ◌&&◌, List, [], ◌∷◌, ◌↔◌,
  inl, inr, ◌≡◌, refl, arith, All, All-append, length, get_or, set, replicate, ltb, leb, ◌==◌,
  if◌then◌else◌, Bool-cases,
}
use muddled.Flag.Bits.{holds, is_set_lem, resize_bits_lem}
use muddled.Flag.Defs.{
  Flag, size, word, new_flag, resize_bits, make_room, set_bit, remove_bit, toggle_bit, is_set,
  sizeof_bit_t,
}
use muddled.Flag.Sets.{
  merge_words, make_room_for, set_flags, toggle_flags, remove_flags, is_empty_loop, is_empty,
}

-- every word is below 2 ^ 8
abbrev pub IsSmall : Flag → Type 0
IsSmall f = All (λ w. w < 2 ^ 8) f.bits

get_or-small : (ws : List ℕ) (i : ℕ) → All (λ w. w < 2 ^ 8) ws → get_or ws i 0 < 2 ^ 8
get_or-small [] i h = omega arith
get_or-small (w ∷ ws) zero h = h.0
get_or-small (w ∷ ws) (suc i) h = get_or-small ws i h.1

set-small :
    (ws : List ℕ) (i v : ℕ)
    → All (λ w. w < 2 ^ 8) ws
    → v < 2 ^ 8
    → All (λ w. w < 2 ^ 8) (set ws i v)
set-small [] i v h k = tt
set-small (w ∷ ws) zero v h k = (k, h.1)
set-small (w ∷ ws) (suc i) v h k = (h.0, set-small ws i v h.1 k)

replicate-small : (n : ℕ) → All (λ w. w < 2 ^ 8) (replicate n 0)
replicate-small zero = tt
replicate-small (suc n) = (omega arith, replicate-small n)

resize_bits-IsSmall : (f : Flag) (p : ℕ) → size f ≤ p + 1 → IsSmall f → IsSmall (resize_bits f p)
resize_bits-IsSmall f p le h =
    rw (resize_bits_lem f p le)
      (All-append _ f.bits (replicate (p + 1 - size f) 0) h (replicate-small (p + 1 - size f)))

make_room-IsSmall : (f : Flag) (p : ℕ) → IsSmall f → IsSmall (make_room f p)
unfolding make_room
make_room-IsSmall f p h = elim (Bool-cases (leb (size f) p)) [
  | inl e ↦ rw e (resize_bits-IsSmall f p (ground arith) h)
  | inr e ↦ rw e h
]

pow_below : (k : ℕ) → k < 8 → 2 ^ k < 2 ^ 8
pow_below k h = omega (arith, pow-le-pow_right {n = 2} (omega arith) {i = k} {j = 7} (omega arith))

pow-small : (b : ℕ) → 2 ^ (b % sizeof_bit_t) < 2 ^ 8
pow-small b = pow_below (b % sizeof_bit_t) (omega arith)

-- The operations on one bit keep the width of the words, from the empty flag on.
pub bits-IsSmall :
    (f : Flag) (b : ℕ)
    → IsSmall f
    → IsSmall new_flag × IsSmall (set_bit f b) × IsSmall (remove_bit f b) × IsSmall (toggle_bit f b)
unfolding new_flag set_bit remove_bit toggle_bit
bits-IsSmall f b h =
    let p = b / sizeof_bit_t in
    let grown = make_room-IsSmall f p h in
    let w = get_or-small (make_room f p).bits p grown in
    let flip = pow-small b in
    (
      tt,
      set-small _ p _ grown
          (bit_or-lt-pow 8 (word (make_room f p) p) (2 ^ (b % sizeof_bit_t)) w flip),
      elim (Bool-cases (leb (size f) p)) [
        | inl e ↦ rw e h
        | inr e ↦ rw e (
            set-small f.bits p _ h (
              omega (
                arith,
                get_or-small f.bits p h,
                bit_and-le (word f p) (bit_xor (2 ^ (b % sizeof_bit_t)) (2 ^ 32 - 1)),
              )))
      ],
      set-small _ p _ grown
          (bit_xor-lt-pow 8 (word (make_room f p) p) (2 ^ (b % sizeof_bit_t)) w flip),
    )

merge_words-small :
    (op : ℕ → ℕ → ℕ) (ws vs : List ℕ)
    → ((a b : ℕ) → a < 2 ^ 8 → b < 2 ^ 8 → op a b < 2 ^ 8)
    → All (λ w. w < 2 ^ 8) ws
    → All (λ w. w < 2 ^ 8) vs
    → All (λ w. w < 2 ^ 8) (merge_words op ws vs)
unfolding merge_words
merge_words-small op [] vs k h g = tt
merge_words-small op (w ∷ ws) [] k h g = h
merge_words-small op (w ∷ ws) (v ∷ vs) k h g = (k w v h.0 g.0, merge_words-small op ws vs k h.1 g.1)

make_room_for-IsSmall : (f v : Flag) → IsSmall f → IsSmall (make_room_for f v)
unfolding make_room_for
make_room_for-IsSmall f v h = elim (Bool-cases (ltb (size f) (size v))) [
  | inl e ↦ rw e (resize_bits-IsSmall f (size v - 1) (ground arith) h)
  | inr e ↦ rw e h
]

-- So do the operations on whole flags.
pub flags-IsSmall :
    (f v : Flag)
    → IsSmall f
    → IsSmall v
    → IsSmall (set_flags f v) × IsSmall (toggle_flags f v) × IsSmall (remove_flags f v)
unfolding set_flags toggle_flags remove_flags
flags-IsSmall f v h g = (
  merge_words-small bit_or _ v.bits (bit_or-lt-pow 8) (make_room_for-IsSmall f v h) g,
  merge_words-small bit_xor _ v.bits (bit_xor-lt-pow 8) (make_room_for-IsSmall f v h) g,
  merge_words-small bit_and f.bits v.bits (λ a b p q. omega (arith, bit_and-le a b)) h g,
)

loop_sound : (b : Bool) (ws : List ℕ) (i : ℕ) → is_empty_loop b ws ≡ true → get_or ws i 0 ≡ 0
unfolding is_empty_loop
loop_sound b [] i h = refl
loop_sound b (w ∷ ws) zero h = first b w ws h
  where
    keeps : (b : Bool) (ws : List ℕ) → is_empty_loop b ws ≡ true → b ≡ true
    keeps b [] h = h
    keeps b (v ∷ vs) h = let both = keeps (b && v == 0) vs h in ground arith

    first : (b : Bool) (w : ℕ) (ws : List ℕ) → is_empty_loop (b && w == 0) ws ≡ true → w ≡ 0
    first b w ws h = let both = keeps (b && w == 0) ws h in ground arith
loop_sound b (w ∷ ws) (suc i) h = loop_sound (b && w == 0) ws i h

loop_complete : (ws : List ℕ) → ((i : ℕ) → get_or ws i 0 ≡ 0) → is_empty_loop true ws ≡ true
unfolding is_empty_loop
loop_complete [] h = refl
loop_complete (w ∷ ws) h = rw (h 0) (loop_complete ws (λ i. h (suc i)))

digits_zero : (w : ℕ) → w < 2 ^ 8 → ((k : ℕ) → k < 8 → bit_at w k ≡ 0) → w ≡ 0
digits_zero w h z = omega (
  arith,
  z 0 (omega arith),
  z 1 (omega arith),
  z 2 (omega arith),
  z 3 (omega arith),
  z 4 (omega arith),
  z 5 (omega arith),
  z 6 (omega arith),
  z 7 (omega arith),
)

is_empty_lem :
    (ws : List ℕ) → (if length ws == 0 then true else is_empty_loop true ws) ≡ is_empty_loop true ws
unfolding is_empty_loop
is_empty_lem [] = refl
is_empty_lem (w ∷ ws) = ground arith

-- bit `k` of word `i`
digit_at : (f : Flag) (i k : ℕ) → k < 8 → is_set f (8 * i + k) ≡ false → bit_at (word f i) k ≡ 0
digit_at f i k h e =
    let at : (8 * i + k) / sizeof_bit_t ≡ i = omega arith in
    let place : (8 * i + k) % sizeof_bit_t ≡ k = omega arith in
    let digit : holds f (8 * i + k) ≡ 0 = ground (arith, is_set_lem f (8 * i + k)) in
    rw (at, place) at digit

-- A flag whose words hold 8 bits each is reported as empty exactly when none of its bits is set.
pub is_empty_iff : (f : Flag) → IsSmall f → (is_empty f ≡ true) ↔ ((c : ℕ) → is_set f c ≡ false)
unfolding is_empty
is_empty_iff f small = rw (is_empty_lem f.bits) (
  λ h c.
      let zeros = loop_sound true f.bits (c / sizeof_bit_t) h in
      rw (is_set_lem f c, zeros, bit_at-zero (c % sizeof_bit_t)),
  λ h. loop_complete f.bits λ i.
      digits_zero (word f i) (get_or-small f.bits i small)
        λ k below. digit_at f i k below (h (8 * i + k)),
)
