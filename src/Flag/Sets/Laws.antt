-- ===== src/Flag/Sets/Laws.antt =====
-- What the operations on whole flags of src/flag.c do to every bit.
use Prim.Native.Nat.{bit_and, bit_or, bit_xor, min, max}
use muddled.Base.Bits.{bit_at-le-one, bit_at-bit_or, bit_at-bit_and, bit_at-bit_xor, bit_at-zero}
use muddled.Base.{
  ℕ, zero, suc, ◌-◌, ◌/◌, ◌%◌, ◌≤◌, true, false, not, ◌&&◌, ◌||◌, List, [], ◌∷◌, ◌≢◌, ◌↔◌, inl, inr,
  some, ◌≡◌, refl, arith, length, get_or, get_or_beyond, ltb, leb, ◌==◌, if◌then◌else◌, Bool-cases,
}
use muddled.Flag.Bits.{holds, is_set_lem, size-resize_bits, word-resize_bits}
use muddled.Flag.Defs.{Flag, size, word, is_set, sizeof_bit_t}
use muddled.Flag.Sets.{
  merge_words, make_room_for, set_flags, toggle_flags, remove_flags, flags_set_loop, flags_set,
}

-- a word of the merge, where `op w 0` is `w`
get_or-merge_words :
    (op : ℕ → ℕ → ℕ) (ws vs : List ℕ) (i : ℕ)
    → get_or (merge_words op ws vs) i 0 ≡ (
        if ltb i (length ws) && ltb i (length vs)
        then op (get_or ws i 0) (get_or vs i 0)
        else get_or ws i 0)
unfolding merge_words
get_or-merge_words op [] vs i = ground arith
get_or-merge_words op (w ∷ ws) [] i = ground arith
get_or-merge_words op (w ∷ ws) (v ∷ vs) zero = ground arith
get_or-merge_words op (w ∷ ws) (v ∷ vs) (suc i) = ground (arith, get_or-merge_words op ws vs i)

word-make_room_for : (f v : Flag) (i : ℕ) → word (make_room_for f v) i ≡ word f i
unfolding make_room_for
word-make_room_for f v i = ground (arith, word-resize_bits f (size v - 1) i)

size-make_room_for : (f v : Flag) → size v ≤ size (make_room_for f v)
unfolding make_room_for
size-make_room_for f v = ground (arith, size-resize_bits f (size v - 1))

module _ (f v : Flag) (c : ℕ) where
  beyond_val : size v ≤ c / sizeof_bit_t → holds v c ≡ 0
  beyond_val h =
      let zeros : word v (c / sizeof_bit_t) ≡ 0 = get_or_beyond v.bits (c / sizeof_bit_t) 0 h in
      rw zeros (bit_at-zero (c % sizeof_bit_t))

  holds-set_flags : holds (set_flags f v) c ≡ max (holds f c) (holds v c)
  unfolding set_flags
  holds-set_flags =
      let i = c / sizeof_bit_t in
      let d = c % sizeof_bit_t in
      rw (get_or-merge_words bit_or (make_room_for f v).bits v.bits i) (
        ground (
          arith,
          size-make_room_for f v,
          word-make_room_for f v i,
          beyond_val,
          bit_at-bit_or (word f i) (word v i) d,
        ))

  holds-toggle_flags : holds (toggle_flags f v) c ≡ (if holds f c == holds v c then 0 else 1)
  unfolding toggle_flags
  holds-toggle_flags =
      let i = c / sizeof_bit_t in
      let d = c % sizeof_bit_t in
      rw (get_or-merge_words bit_xor (make_room_for f v).bits v.bits i) (
        ground (
          arith,
          size-make_room_for f v,
          word-make_room_for f v i,
          beyond_val,
          bit_at-bit_xor (word f i) (word v i) d,
          bit_at-le-one (word f i) d,
        ))

  holds-remove_flags :
      holds (remove_flags f v) c
      ≡ (if ltb (c / sizeof_bit_t) (size v) then min (holds f c) (holds v c) else holds f c)
  unfolding remove_flags
  holds-remove_flags =
      let i = c / sizeof_bit_t in
      let d = c % sizeof_bit_t in
      rw (get_or-merge_words bit_and f.bits v.bits i) (
        ground
          (arith, get_or_beyond f.bits i 0, bit_at-zero d, bit_at-bit_and (word f i) (word v i) d))

-- `set_flags` sets the bits that are set in `val` and `toggle_flags` flips them; both leave all other
-- bits as they were, whatever the sizes.
pub is_set_after_flags :
    (f v : Flag) (c : ℕ)
    → (is_set (set_flags f v) c ≡ (is_set f c || is_set v c))
      × (is_set (toggle_flags f v) c ≡ (if is_set v c then not (is_set f c) else is_set f c))
is_set_after_flags f v c =
    let i = c / sizeof_bit_t in
    let d = c % sizeof_bit_t in
    rw
      (
        is_set_lem (set_flags f v) c,
        is_set_lem (toggle_flags f v) c,
        is_set_lem f c,
        is_set_lem v c,
        holds-set_flags f v c,
        holds-toggle_flags f v c,
      )
      (
        ground (arith, bit_at-le-one (word f i) d, bit_at-le-one (word v i) d),
        ground (arith, bit_at-le-one (word f i) d, bit_at-le-one (word v i) d),
      )

-- `remove_flags` does not clear the bits that are set in `val`: in the words that `val` has, it keeps
-- the bits that both have and clears the others.
pub is_set_after_remove_flags :
    (f v : Flag) (c : ℕ)
    → is_set (remove_flags f v) c ≡ (is_set f c && (is_set v c || leb (size v) (c / sizeof_bit_t)))
is_set_after_remove_flags f v c =
    let i = c / sizeof_bit_t in
    let d = c % sizeof_bit_t in
    rw (is_set_lem (remove_flags f v) c, is_set_lem f c, is_set_lem v c, holds-remove_flags f v c)
      (ground (arith, bit_at-le-one (word f i) d, bit_at-le-one (word v i) d))

-- what `flags_set` asks of each word of `val`
abbrev pub Shares : List ℕ → List ℕ → Type 0
Shares ws [] = Unit
Shares [] (v ∷ vs) = (v ≡ 0) × Shares [] vs
Shares (w ∷ ws) (v ∷ vs) = (bit_and w v ≢ 0) × Shares ws vs

loop_false : (ws vs : List ℕ) → flags_set_loop false ws vs ≡ false
unfolding flags_set_loop
loop_false ws [] = refl
loop_false [] (v ∷ vs) = ground (arith, loop_false [] vs)
loop_false (w ∷ ws) (v ∷ vs) = loop_false ws vs

loop_iff : (ws vs : List ℕ) → (flags_set_loop true ws vs ≡ true) ↔ Shares ws vs
unfolding flags_set_loop
loop_iff ws [] = (λ h. tt, λ h. refl)
loop_iff [] (v ∷ vs) =
    let (sound, complete) = loop_iff [] vs in
    (λ h. (ground arith, sound (ground arith)), λ h. rw h.0 (complete h.1))
loop_iff (w ∷ ws) (v ∷ vs) = elim (Bool-cases (bit_and w v == 0)) [
  | inl e ↦ rw e (λ h. absurd (cc (loop_false ws vs)), λ h. absurd (ground arith))
  | inr e ↦
      let (sound, complete) = loop_iff ws vs in
      rw e (λ h. (ground arith, sound h), λ h. complete h.1)
]

-- `flags_set` says yes exactly when each word of `val` has a bit in common with the same word of
-- `flags`, or is zero and lies behind the end of `flags`. (So it needs neither all bits of `val`, nor
-- only those: a word of `val` that is zero makes it say no.)
pub flags_set_iff : (f v : Flag) → (flags_set (some f) (some v) ≡ true) ↔ Shares f.bits v.bits
unfolding flags_set
flags_set_iff f v = loop_iff f.bits v.bits
