-- ===== src/Explored.antt =====
-- src/explored.c: counting and repairing the rooms that a player has explored; the search for a room
-- in src/room.c.
pub mod Laws
use Prim.Native.Nat.{bit_and}
use muddled.Base.{
  ℕ, zero, suc, ◌+◌, ◌%◌, ◌^◌, Bool, false, not, ◌&&◌, List, [], ◌∷◌, Option, none, some, length,
  get_or, ltb, ◌==◌, if◌then◌else◌,
}
use muddled.Flag.Defs.{Flag, is_set, remove_bit}

-- what the functions read of a room: its number, its flags, and the flags of its area if it has one
pub record Room : Type 0 where
  pub id : ℕ
  pub flags : Flag
  pub area : Option Flag

abbrev pub room_noexplore : ℕ
room_noexplore = 2

abbrev pub area_noexplore : ℕ
area_noexplore = 0

-- the loop over the digits `i`, of which there are 32 in an `int`
pub bitcount_loop : ℕ → ℕ → ℕ → ℕ
bitcount_loop zero i c = 0
bitcount_loop (suc left) i c =
    (if bit_and c (2 ^ i) == 0 then 0 else 1) + bitcount_loop left (i + 1) c

pub bitcount : ℕ → ℕ
unfolding bitcount_loop
bitcount c = bitcount_loop 32 0 c

unfoldable pub is_explorable : Room → Bool
unfolding is_set
is_explorable room = elim room.area [
  | none ↦ false
  | some area ↦ not (is_set room.flags room_noexplore) && not (is_set area area_noexplore)
]

abbrev pub sum_bits : List ℕ → ℕ
sum_bits [] = 0
sum_bits (w ∷ ws) = bitcount w + sum_bits ws

unfoldable pub roomcount : Flag → ℕ
unfolding bitcount
roomcount explored = sum_bits explored.bits

-- `room_hash` is a table of lists of rooms
abbrev pub Rooms : Type 0
Rooms = List (List Room)

abbrev pub find_room : List Room → ℕ → Option Room
find_room [] id = none
find_room (room ∷ rooms) id = if room.id == id then some room else find_room rooms id

unfoldable pub get_room_by_id : Rooms → ℕ → Option Room
get_room_by_id rooms id = find_room (get_or rooms (id % length rooms) []) id

-- one round of `update_explored`, and whether there is a room
abbrev pub repair : Flag → ℕ → Option Room → Flag
repair explored id none = if is_set explored id then remove_bit explored id else explored
repair explored id (some room) =
    if not (is_explorable room) && is_set explored id then remove_bit explored id else explored

abbrev pub one_if : Option Room → ℕ
one_if none = 0
one_if (some room) = 1

-- the loop over `id`, while fewer than `max_room` rooms were met, on fuel; `none` means it ran out
pub update_loop : ℕ → Rooms → ℕ → ℕ → ℕ → Flag → Option Flag
unfolding get_room_by_id is_explorable is_set remove_bit
update_loop zero rooms max_room id n_match explored = none
update_loop (suc fuel) rooms max_room id n_match explored =
    let room = get_room_by_id rooms id in
    let rest =
      update_loop fuel rooms max_room (id + 1) (n_match + one_if room) (repair explored id room) in
    if ltb n_match max_room then rest else some explored

unfoldable pub update_explored : ℕ → Rooms → ℕ → Flag → Option Flag
unfolding update_loop
update_explored fuel rooms max_room explored = update_loop fuel rooms max_room 1 0 explored

-- the loops over the rooms of an area; NULL is no area
abbrev pub count_explored : Flag → List Room → ℕ
count_explored explored [] = 0
count_explored explored (room ∷ rooms) =
    (if is_set explored room.id then 1 else 0) + count_explored explored rooms

unfoldable pub areacount : Flag → Option (List Room) → ℕ
areacount explored none = 0
areacount explored (some rooms) = count_explored explored rooms

abbrev pub count_explorable : List Room → ℕ
count_explorable [] = 0
count_explorable (room ∷ rooms) = (if is_explorable room then 1 else 0) + count_explorable rooms

unfoldable pub arearooms : Option (List Room) → ℕ
arearooms none = 0
arearooms (some rooms) = count_explorable rooms
