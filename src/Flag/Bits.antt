-- ===== src/Flag/Bits.antt =====
-- What the operations on one bit of src/flag.c do to every bit.
use Prim.Native.Nat.{bit_or, bit_and, bit_xor}
use muddled.Base.Bits.{
  bit_at, bit_at-le-one, bit_at-bit_or, bit_at-bit_and, bit_at-bit_xor, bit_at-pow, bit_at-ones,
  bit_and-pow_iff, bit_at-zero,
}
use muddled.Base.{
  ℕ, zero, suc, ◌+◌, ◌-◌, ◌/◌, ◌%◌, ◌^◌, ◌≤◌, ◌<◌, not, ◌&&◌, ◌||◌, List, [], ◌∷◌, ◌++◌, inl, inr,
  ◌≡◌, refl, ap, arith, length, set, take, replicate, length-append, length-replicate,
  get_or_beyond, get_or-append_replicate, get_or-set, leb, ◌==◌, if◌then◌else◌, leb→le, Bool-cases,
}
use muddled.Flag.Defs.{
  Flag, size, word, resize_bits, make_room, set_bit, remove_bit, toggle_bit, is_set, sizeof_bit_t,
}

-- a flag as the set of its bits
abbrev pub holds : Flag → ℕ → ℕ
holds flags bit = bit_at (word flags (bit / sizeof_bit_t)) (bit % sizeof_bit_t)

take_all : (n : ℕ) (xs : List ℕ) → n ≡ length xs → take n xs ≡ xs
take_all zero [] h = refl
take_all zero (x ∷ xs) h = absurd (omega arith)
take_all (suc n) [] h = refl
take_all (suc n) (x ∷ xs) h = ap (λ r. x ∷ r) (take_all n xs (omega arith))

pub resize_bits_lem :
    (f : Flag) (p : ℕ)
    → size f ≤ p + 1
    → (resize_bits f p).bits ≡ f.bits ++ replicate (p + 1 - size f) 0
unfolding resize_bits
resize_bits_lem f p h = take_all (p + 1) (f.bits ++ replicate (p + 1 - size f) 0) (
    omega (
      arith,
      length-append f.bits (replicate (p + 1 - size f) 0),
      length-replicate {A = ℕ} (p + 1 - size f) 0,
    ))

pub size-resize_bits : (f : Flag) (p : ℕ) → size f ≤ p + 1 → size (resize_bits f p) ≡ p + 1
size-resize_bits f p h =
    rw (resize_bits_lem f p h, length-append {A = ℕ}, length-replicate {A = ℕ}) (omega arith)

pub word-resize_bits : (f : Flag) (p i : ℕ) → size f ≤ p + 1 → word (resize_bits f p) i ≡ word f i
word-resize_bits f p i h =
    rw (resize_bits_lem f p h) (get_or-append_replicate f.bits (p + 1 - size f) i 0)

size-make_room : (f : Flag) (p : ℕ) → p < size (make_room f p)
unfolding make_room
size-make_room f p = ground (arith, size-resize_bits f p)

word-make_room : (f : Flag) (p i : ℕ) → word (make_room f p) i ≡ word f i
unfolding make_room
word-make_room f p i = ground (arith, word-resize_bits f p i)

pub is_set_lem : (f : Flag) (b : ℕ) → is_set f b ≡ not (holds f b == 0)
unfolding is_set
is_set_lem f b =
    let pos = b / sizeof_bit_t in
    elim (Bool-cases (leb (size f) pos)) [
      | inl beyond ↦
          let zeros : word f pos ≡ 0 = get_or_beyond f.bits pos 0 (leb→le _ _ beyond) in
          rw (beyond, zeros, bit_at-zero (b % sizeof_bit_t))
      | inr here ↦ rw (here, bit_and-pow_iff (b % sizeof_bit_t) (word f pos))
    ]

-- a bit is found by its word and its place there
same_bit :
    (b c : ℕ)
    → (b == c) ≡ (b / sizeof_bit_t == c / sizeof_bit_t && b % sizeof_bit_t == c % sizeof_bit_t)
same_bit b c = ground arith

-- a write of one word
holds_update :
    (f : Flag) (p v c : ℕ)
    → p < size f
    → holds (record { bits = set f.bits p v }) c
      ≡ (if p == c / sizeof_bit_t then bit_at v (c % sizeof_bit_t) else holds f c)
holds_update f p v c h = rw (get_or-set f.bits p (c / sizeof_bit_t) v 0 h) (ground arith)

holds-set_bit : (f : Flag) (b c : ℕ) → holds (set_bit f b) c ≡ (if b == c then 1 else holds f c)
unfolding set_bit
holds-set_bit f b c =
    let p = b / sizeof_bit_t in
    let q = c / sizeof_bit_t in
    let d = c % sizeof_bit_t in
    rw
      (holds_update (make_room f p) p (bit_or (word (make_room f p) p) (2 ^ (b % sizeof_bit_t))) c
        (size-make_room f p))
      (ground (
        arith,
        word-make_room f p p,
        word-make_room f p q,
        bit_at-bit_or (word f p) (2 ^ (b % sizeof_bit_t)) d,
        bit_at-pow (b % sizeof_bit_t) d,
        bit_at-le-one (word f p) d,
      ))

holds-remove_bit :
    (f : Flag) (b c : ℕ) → holds (remove_bit f b) c ≡ (if b == c then 0 else holds f c)
unfolding remove_bit
holds-remove_bit f b c =
    let p = b / sizeof_bit_t in
    let d = c % sizeof_bit_t in
    let k = b % sizeof_bit_t in
    elim (Bool-cases (leb (size f) p)) [
      | inl beyond ↦
          let zeros : word f p ≡ 0 = get_or_beyond f.bits p 0 (leb→le _ _ beyond) in
          rw beyond (ground (arith, bit_at-zero d, zeros))
      | inr here ↦
          rw
            (
              here,
              holds_update f p (bit_and (word f p) (bit_xor (2 ^ k) (2 ^ 32 - 1))) c (ground arith),
            )
            (ground (
              arith,
              bit_at-bit_and (word f p) (bit_xor (2 ^ k) (2 ^ 32 - 1)) d,
              bit_at-bit_xor (2 ^ k) (2 ^ 32 - 1) d,
              bit_at-pow k d,
              bit_at-ones 32 d,
              bit_at-le-one (word f p) d,
            ))
    ]

holds-toggle_bit :
    (f : Flag) (b c : ℕ) → holds (toggle_bit f b) c ≡ (if b == c then 1 - holds f c else holds f c)
unfolding toggle_bit
holds-toggle_bit f b c =
    let p = b / sizeof_bit_t in
    let q = c / sizeof_bit_t in
    let d = c % sizeof_bit_t in
    let k = b % sizeof_bit_t in
    rw
      (holds_update (make_room f p) p (bit_xor (word (make_room f p) p) (2 ^ k)) c
        (size-make_room f p))
      (ground (
        arith,
        word-make_room f p p,
        word-make_room f p q,
        bit_at-bit_xor (word f p) (2 ^ k) d,
        bit_at-pow k d,
        bit_at-le-one (word f p) d,
      ))

-- `set_bit`, `remove_bit` and `toggle_bit` set, clear and flip the bit that they name, whatever the
-- number of words before, and leave every other bit as it was.
pub is_set_after :
    (f : Flag) (b c : ℕ)
    → (is_set (set_bit f b) c ≡ (b == c || is_set f c))
      × (is_set (remove_bit f b) c ≡ (not (b == c) && is_set f c))
      × (is_set (toggle_bit f b) c ≡ (if b == c then not (is_set f c) else is_set f c))
is_set_after f b c =
    let digit = bit_at-le-one (word f (c / sizeof_bit_t)) (c % sizeof_bit_t) in
    rw
      (
        is_set_lem (set_bit f b) c,
        is_set_lem (remove_bit f b) c,
        is_set_lem (toggle_bit f b) c,
        is_set_lem f c,
        holds-set_bit f b c,
        holds-remove_bit f b c,
        holds-toggle_bit f b c,
      )
      (ground arith, ground arith, ground arith)
