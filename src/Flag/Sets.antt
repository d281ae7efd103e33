-- ===== src/Flag/Sets.antt =====
-- src/flag.c: the operations on whole flags. A flag argument that may be NULL is an `Option Flag`.
pub mod Laws
use Prim.Native.Nat.{bit_and, bit_or, bit_xor}
use muddled.Base.{
  ℕ, ◌-◌, Bool, true, false, not, ◌&&◌, List, [], ◌∷◌, Option, none, some, get_or, ltb, ◌==◌,
  if◌then◌else◌,
}
use muddled.Flag.Defs.{Flag, size, resize_bits}

-- `for (i < val->size) flags->bits[i] = op(flags->bits[i], val->bits[i]);`, up to the end of `flags`
unfoldable pub merge_words : (ℕ → ℕ → ℕ) → List ℕ → List ℕ → List ℕ
merge_words op [] vs = []
merge_words op (w ∷ ws) [] = w ∷ ws
merge_words op (w ∷ ws) (v ∷ vs) = op w v ∷ merge_words op ws vs

-- `if (val->size > flags->size) resize_bits(flags, val->size - 1);`
unfoldable pub make_room_for : Flag → Flag → Flag
unfolding resize_bits
make_room_for flags val =
    if ltb (size flags) (size val) then resize_bits flags (size val - 1) else flags

unfoldable pub set_flags : Flag → Flag → Flag
unfolding make_room_for merge_words
set_flags flags val = record { bits = merge_words bit_or (make_room_for flags val).bits val.bits }

unfoldable pub toggle_flags : Flag → Flag → Flag
unfolding make_room_for merge_words
toggle_flags flags val = record {
  bits = merge_words bit_xor (make_room_for flags val).bits val.bits;
}

-- the loop breaks at the end of `flags`
unfoldable pub remove_flags : Flag → Flag → Flag
unfolding merge_words
remove_flags flags val = record { bits = merge_words bit_and flags.bits val.bits }

unfoldable pub flag_toint : Flag → ℕ
flag_toint flags = if size flags == 0 then 0 else get_or flags.bits 0 0

unfoldable pub is_empty_loop : Bool → List ℕ → Bool
is_empty_loop empty [] = empty
is_empty_loop empty (w ∷ ws) = is_empty_loop (empty && w == 0) ws

unfoldable pub is_empty : Flag → Bool
unfolding is_empty_loop
is_empty flag = if size flag == 0 then true else is_empty_loop true flag.bits

pub flags_set_loop : Bool → List ℕ → List ℕ → Bool
flags_set_loop isset ws [] = isset
flags_set_loop isset [] (v ∷ vs) =
    let rest = flags_set_loop isset [] vs in if not (v == 0) then false else rest
flags_set_loop isset (w ∷ ws) (v ∷ vs) = flags_set_loop (isset && not (bit_and w v == 0)) ws vs

unfoldable pub flags_set : Option Flag → Option Flag → Bool
unfolding flags_set_loop
flags_set none val = false
flags_set (some flags) none = false
flags_set (some flags) (some val) = flags_set_loop true flags.bits val.bits
