-- ===== src/Flag/Defs.antt =====
-- src/flag.c: bit fields and the operations on one bit. A flag's `size` is the number of its words; a word is the bit pattern of an
-- `int`. `sizeof(bit_t)` is 8, so each word holds the 8 flags in its low digits.

use Prim.Native.Nat.{bit_and, bit_or, bit_xor}
use muddled.Base.{
  ℕ, ◌+◌, ◌-◌, ◌/◌, ◌%◌, ◌^◌, Bool, false, not, List, [], ◌∷◌, ◌++◌, length, get_or, set, take,
  replicate, leb, ◌==◌, if◌then◌else◌,
}

abbrev pub int_mod : ℕ
int_mod = 2 ^ 32

abbrev pub sizeof_bit_t : ℕ
sizeof_bit_t = 8

pub record Flag : Type 0 where
  pub bits : List ℕ

-- `flags->size`
abbrev pub size : Flag → ℕ
size flags = length flags.bits

unfoldable pub new_flag : Flag
new_flag = record { bits = [] }

-- `realloc` to `size + 1` words; the words behind the old end are zeroed. (It can only grow here.)
unfoldable pub resize_bits : Flag → ℕ → Flag
resize_bits flags n = record {
  bits = take (n + 1) (flags.bits ++ replicate (n + 1 - size flags) 0);
}

-- the word has been reset by `resize_bits`, to two words
unfoldable pub init_flag : ℕ → Flag
unfolding new_flag resize_bits
init_flag bit = record { bits = bit ∷ 0 ∷ [] }

-- `if (pos >= flags->size) resize_bits(flags, pos);`
unfoldable pub make_room : Flag → ℕ → Flag
unfolding resize_bits
make_room flags pos = if leb (size flags) pos then resize_bits flags pos else flags

abbrev pub word : Flag → ℕ → ℕ
word flags i = get_or flags.bits i 0

unfoldable pub set_bit : Flag → ℕ → Flag
unfolding make_room
set_bit flags bit =
    let pos = bit / sizeof_bit_t in
    let grown = make_room flags pos in
    record { bits = set grown.bits pos (bit_or (word grown pos) (2 ^ (bit % sizeof_bit_t))) }

unfoldable pub remove_bit : Flag → ℕ → Flag
remove_bit flags bit =
    let pos = bit / sizeof_bit_t in
    if leb (size flags) pos then flags else record {
      bits =
          set flags.bits pos
            (bit_and (word flags pos) (bit_xor (2 ^ (bit % sizeof_bit_t)) (2 ^ 32 - 1)));
    }

unfoldable pub toggle_bit : Flag → ℕ → Flag
unfolding make_room
toggle_bit flags bit =
    let pos = bit / sizeof_bit_t in
    let grown = make_room flags pos in
    record { bits = set grown.bits pos (bit_xor (word grown pos) (2 ^ (bit % sizeof_bit_t))) }

unfoldable pub is_set : Flag → ℕ → Bool
is_set flags bit =
    let pos = bit / sizeof_bit_t in
    if leb (size flags) pos
    then false
    else not (bit_and (word flags pos) (2 ^ (bit % sizeof_bit_t)) == 0)
