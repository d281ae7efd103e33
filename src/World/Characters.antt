-- ===== src/World/Characters.antt =====
-- src/util.c: the moves of characters between rooms, and the searches among characters and objects.
pub mod Laws
use muddled.Base.{
  ℕ, zero, suc, ◌+◌, not, List, [], ◌∷◌, Option, none, some, Text, codes, ◌==◌, if◌then◌else◌,
}
use muddled.Flag.Defs.{Flag, set_bit}
use muddled.Explored.{Room, is_explorable}
use muddled.Str.Args.{is_name}
use muddled.Str.Compare.{str_cmp}
use muddled.Str.Numbers.{number_argument}
use muddled.World.{Field, update, link, unlink}

-- The characters and their rooms; `room` gives what is read of a room, and `explored` the flags of a
-- player, none for other characters.
pub record Places : Type 0 where
  pub next_in_room : Field
  pub in_room : Field
  pub characters : Field
  pub room : ℕ → Room
  pub explored : ℕ → Option Flag

-- `none` is a list that the loop does not leave
pub char_from_room : ℕ → Places → ℕ → Option Places
unfolding unlink
char_from_room fuel w ch =
    let room = w.in_room ch in
    let unlinked = unlink fuel w.next_in_room (w.characters room) ch in
    if room == 0
    then some
        (record w { in_room = update w.in_room ch 0; next_in_room = update w.next_in_room ch 0 })
    else elim unlinked [
      | none ↦ none
      | some (next, head) ↦ some (record w {
        next_in_room = update next ch 0;
        characters = update w.characters room head;
        in_room = update w.in_room ch 0;
      })
    ]

-- what a player has explored after coming to a room
abbrev pub explore : Room → Option Flag → Option Flag
explore room none = none
explore room (some explored) =
    some (if is_explorable room then set_bit explored room.id else explored)

pub char_to_room : Places → ℕ → ℕ → Places
unfolding link is_explorable set_bit
char_to_room w ch room =
    let (next, head) = link w.next_in_room (w.characters room) ch in
    if room == 0 then record w { in_room = update w.in_room ch 0 } else record w {
      in_room = update w.in_room ch room;
      explored = λ c. if ch == c then explore (w.room room) (w.explored c) else w.explored c;
      next_in_room = next;
      characters = update w.characters room head;
    }

-- The loop of `get_eq_char` from the object `obj` on, on fuel: the outer `none` means that it ran out,
-- the inner one is NULL.
unfoldable pub get_eq_char : ℕ → Field → Field → ℕ → ℕ → Option (Option ℕ)
get_eq_char zero next_content wear_loc obj i_wear = none
get_eq_char (suc fuel) next_content wear_loc obj i_wear =
    let rest = get_eq_char fuel next_content wear_loc (next_content obj) i_wear in
    if obj == 0 then some none else if wear_loc obj == i_wear then some (some obj) else rest

-- The loop of `get_char_room` over the names of the characters in the room, which `can_see` lets all
-- be seen; `none` is an `is_name` that writes outside its buffers.
pub find_char : Text → ℕ → ℕ → List (ℕ × Text) → Option (Option ℕ)
unfolding is_name
find_char arg number count [] = some none
find_char arg number count ((rch, name) ∷ rest) = elim (is_name (some arg) (some name)) [
  | none ↦ none
  | some named ↦
      if named
      then (if count + 1 == number then some (some rch) else find_char arg number (count + 1) rest)
      else find_char arg number count rest
]

unfoldable pub get_char_room : ℕ → Text → List (ℕ × Text) → Option (Option ℕ)
unfolding find_char number_argument str_cmp
get_char_room ch argument in_room =
    let (number, arg) = number_argument argument in
    let found = find_char arg number 0 in_room in
    if not (str_cmp (some arg) (some (codes "self"))) then some (some ch) else found
