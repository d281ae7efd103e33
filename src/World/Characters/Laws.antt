-- ===== src/World/Characters/Laws.antt =====
-- What leaving and entering a room in src/util.c does to the lists of characters and to what a player
-- has explored.
use mathlib.Core.Path.{subst}
use muddled.Base.{
  ℕ, ◌<◌, ◌&&◌, ◌||◌, List, ◌≢◌, inl, inr, some, ◌≡◌, refl, sym, length, ◌==◌, if◌then◌else◌,
  ==_refl, ==_false, Bool-cases,
}
use muddled.Flag.Bits.{is_set_after}
use muddled.Flag.Defs.{Flag, is_set, set_bit}
use muddled.Explored.{Room, is_explorable}
use muddled.World.{update, link}
use muddled.World.Links.{IsList, Distinct, Has, Misses}
use muddled.World.Frames.{HasLeft, HasCome, unlink-HasLeft, link-HasCome}
use muddled.World.Characters.{Places, explore, char_from_room, char_to_room}

-- A character in a room, whose list has distinct elements and is shorter than the fuel, leaves that
-- list and no other, and is nowhere.
pub char_from_room_lem :
    (w : Places) (ch : ℕ) (xs : List ℕ) (fuel : ℕ)
    → length xs < fuel
    → w.in_room ch ≢ 0
    → IsList w.next_in_room (w.characters (w.in_room ch)) xs
    → Distinct xs
    → Has ch xs
    → (w' : Places) × (char_from_room fuel w ch ≡ some w')
      × HasLeft w.next_in_room w'.next_in_room ch xs (w'.characters (w.in_room ch))
      × (w'.in_room ch ≡ 0)
unfolding char_from_room
char_from_room_lem w ch xs fuel enough nz l distinct has =
    let (next, p', e, (own, others, gone)) =
      unlink-HasLeft w.next_in_room (w.characters (w.in_room ch)) ch xs fuel enough distinct has
        l in
    (
      record w {
        next_in_room = update next ch 0;
        characters = update w.characters (w.in_room ch) p';
        in_room = update w.in_room ch 0;
      },
      rw (char_from_room, ==_false (w.in_room ch) 0 nz, e) refl,
      (rw (==_refl (w.in_room ch)) own, others, gone),
      rw (==_refl ch) refl,
    )

explore_lem :
    (room : Room) (f : Flag)
    → (f' : Flag) × (explore room (some f) ≡ some f')
      × ((b : ℕ) → is_set f' b ≡ ((is_explorable room && room.id == b) || is_set f b))
explore_lem room f = elim (Bool-cases (is_explorable room)) [
  | inl open_room ↦
      (set_bit f room.id, rw open_room refl, λ b. rw open_room ((is_set_after f room.id b).0))
  | inr closed ↦ (f, rw closed refl, λ b. rw closed refl)
]

entered :
    (w : Places) (ch room : ℕ)
    → room ≢ 0
    → char_to_room w ch room ≡ record w {
      in_room = update w.in_room ch room;
      explored = λ c. if ch == c then explore (w.room room) (w.explored c) else w.explored c;
      next_in_room = (link w.next_in_room (w.characters room) ch).0;
      characters = update w.characters room (link w.next_in_room (w.characters room) ch).1;
    }
unfolding char_to_room
entered w ch room nz = rw (char_to_room, ==_false room 0 nz) refl

-- the places after `ch`, who had explored `f`, has come to the front of the list `xs` of a room
abbrev pub IsEntered : Places → ℕ → ℕ → List ℕ → Flag → Places → Type 0
IsEntered w ch room xs f w' =
    HasCome w.next_in_room w'.next_in_room ch xs (w'.characters room)
    × (w'.in_room ch ≡ room)
    × ((f' : Flag) × (w'.explored ch ≡ some f')
        × ((b : ℕ)
            → is_set f' b ≡ ((is_explorable (w.room room) && (w.room room).id == b) || is_set f b)))

-- A player who comes to a room, and does not stand in its list yet, comes to the front of that list,
-- and of the rooms that are explored only this one is added, if it may be explored.
pub char_to_room_lem :
    (w : Places) (ch room : ℕ) (xs : List ℕ) (f : Flag)
    → ch ≢ 0
    → room ≢ 0
    → IsList w.next_in_room (w.characters room) xs
    → Misses ch xs
    → w.explored ch ≡ some f
    → IsEntered w ch room xs f (char_to_room w ch room)
char_to_room_lem w ch room xs f nz rz l m known =
    let come = link-HasCome w.next_in_room (w.characters room) ch xs nz m l in
    let (f', ef, bits) = explore_lem (w.room room) f in
    subst (IsEntered w ch room xs f) (sym (entered w ch room rz)) (
      (rw (==_refl room) come.0, come.1),
      rw (==_refl ch) refl,
      (f', rw (==_refl ch, known) ef, bits),
    )
