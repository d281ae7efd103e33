-- ===== src/Tests/Worlds.antt =====
-- Inputs for the theorems about the lists of objects and the explored rooms.
use muddled.Base.{
  ℕ, ◌+◌, ◌≤◌, ◌&&◌, ◌||◌, List, [], ◌∷◌, inl, inr, none, some, ◌≡◌, refl, arith, codes, ltb, leb,
  ◌==◌, if◌then◌else◌,
}
use muddled.Flag.Defs.{Flag, is_set}
use muddled.World.{Field, update, World, obj_from_room}
use muddled.World.Links.{IsList, Distinct}
use muddled.World.Frames.{HasLeft}
use muddled.World.Moves.{obj_from_room_lem}
use muddled.World.Characters.{Places, get_char_room, get_eq_char}
use muddled.Explored.{Rooms, get_room_by_id, update_explored}
use muddled.Explored.Laws.{allowed, found, update_explored_lem}

-- the objects 4, 7 and 5 in turn
abbrev next_of : Field
next_of = update (update (λ p. 0) 4 7) 7 5

abbrev the_objects : List ℕ
the_objects = 4 ∷ 7 ∷ 5 ∷ []

IsList-objects : IsList next_of 4 the_objects
IsList-objects = (refl, omega arith, (refl, omega arith, (refl, omega arith, refl)))

Distinct-objects : Distinct the_objects
Distinct-objects = ((refl, (refl, tt)), ((refl, tt), (tt, tt)))

-- they lie in room 2
abbrev garden : World
garden = record {
  next_content = next_of;
  in_room = λ p. if p == 0 then 0 else if ltb p 8 then 2 else 0;
  carried_by = λ p. 0;
  in_obj = λ p. 0;
  room_objects = λ r. if r == 2 then 4 else 0;
  carrying = λ p. 0;
  contains = λ p. 0;
}

obj_from_room_lem_example :
    (w' : World) × (obj_from_room 4 garden 7 ≡ some w')
    × HasLeft garden.next_content w'.next_content 7 the_objects (w'.room_objects (garden.in_room 7))
    × (w'.in_room 7 ≡ 0)
obj_from_room_lem_example =
    obj_from_room_lem garden 7 the_objects 4 (omega arith) Distinct-objects (inr (inl refl))
      (omega arith) IsList-objects

-- rooms 1 and 3, of which 3 is not to be explored
abbrev two_rooms : Rooms
two_rooms =
    []
    ∷ (record { id = 1; flags = record { bits = [] }; area = some (record { bits = [] }) }
        ∷ record { id = 3; flags = record { bits = 4 ∷ [] }; area = some (record { bits = [] }) }
        ∷ [])
    ∷ []

abbrev explored : Flag
explored = record { bits = 30 ∷ [] }

two_found : 2 ≤ found two_rooms 1 3
unfolding get_room_by_id
two_found = omega arith

update_explored_lem_example :
    (f' : Flag) × (n : ℕ) × (update_explored 4 two_rooms 2 explored ≡ some f')
    × (2 ≤ found two_rooms 1 n)
    × ((b : ℕ)
        → is_set f' b ≡ (
            is_set explored b
            && (ltb b 1 || leb (1 + n) b || allowed (get_room_by_id two_rooms b))))
update_explored_lem_example = update_explored_lem two_rooms 2 3 explored two_found

repaired : update_explored 4 two_rooms 2 explored ≡ some (record { bits = 18 ∷ [] })
unfolding update_explored
repaired = refl

-- two characters in room 1, and the player 9, who has explored room 2
abbrev square : Places
square = record {
  next_in_room = λ p. if p == 4 then 6 else 0;
  in_room = λ p. if p == 4 || p == 6 then 1 else 0;
  characters = λ r. if r == 1 then 4 else 0;
  room = λ r. record { id = r; flags = record { bits = [] }; area = some (record { bits = [] }) };
  explored = λ p. if p == 9 then some (record { bits = 4 ∷ [] }) else none;
}

searches :
    (get_char_room 9 (codes "2.rat") ((4, codes "a rat") ∷ (6, codes "old rat") ∷ [])
      ≡ some (some 6))
    × (get_char_room 9 (codes "SELF") [] ≡ some (some 9))
    × (get_eq_char 4 next_of (λ p. p + 1) 4 6 ≡ some (some 5))
unfolding get_char_room get_eq_char
searches = (refl, refl, refl)
