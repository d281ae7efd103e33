-- ===== src/World.antt =====
-- The lists of src/macro.h, which run through their elements, and the moves of characters and
-- objects of src/util.c.
pub mod Links
pub mod Frames
pub mod Moves
pub mod Characters
use muddled.Base.{ℕ, zero, suc, Option, none, some, ◌==◌, if◌then◌else◌}

-- A pointer is the address of a structure, 0 for NULL; a field of all structures of a type is a
-- function of the address.
abbrev pub Field : Type 0
Field = ℕ → ℕ

abbrev pub update : Field → ℕ → ℕ → Field
update f p v q = if p == q then v else f q

-- `LINK(plist, pdata, pnext)`: the field and the head of the list
unfoldable pub link : Field → ℕ → ℕ → Field × ℕ
link pnext plist pdata = if pdata == 0 then (pnext, plist) else (update pnext pdata plist, pdata)

-- the loop over `_prev`, on fuel; `none` means that it ran out
pub unlink_loop : ℕ → Field → ℕ → ℕ → Option Field
unlink_loop zero pnext prev pdata = none
unlink_loop (suc fuel) pnext prev pdata =
    let rest = unlink_loop fuel pnext (pnext prev) pdata in
    if prev == 0
    then some pnext
    else if pnext prev == pdata
    then some (update pnext prev (pnext pdata))
    else rest

-- `UNLINK(plist, ptype, pdata, pnext)`
unfoldable pub unlink : ℕ → Field → ℕ → ℕ → Option (Field × ℕ)
unfolding unlink_loop
unlink fuel pnext plist pdata =
    let walked = unlink_loop fuel pnext plist pdata in
    if plist == pdata
    then some (pnext, pnext pdata)
    else elim walked [ none ↦ none | some f ↦ some (f, plist) ]

-- the objects, and the heads of the lists that they stand in
pub record World : Type 0 where
  pub next_content : Field
  pub in_room : Field
  pub carried_by : Field
  pub in_obj : Field
  pub room_objects : Field
  pub carrying : Field
  pub contains : Field

-- the end of each `obj_to_` function, where `linked` is the result of `LINK`
pub obj_to_room : World → ℕ → ℕ → World
unfolding link
obj_to_room w obj room =
    let (next, head) = link w.next_content (w.room_objects room) obj in
    record w {
      next_content = next;
      room_objects = update w.room_objects room head;
      in_room = update w.in_room obj room;
      carried_by = update w.carried_by obj 0;
      in_obj = update w.in_obj obj 0;
    }

pub obj_to_obj : World → ℕ → ℕ → World
unfolding link
obj_to_obj w obj container =
    let (next, head) = link w.next_content (w.contains container) obj in
    record w {
      next_content = next;
      contains = update w.contains container head;
      in_obj = update w.in_obj obj container;
      in_room = update w.in_room obj 0;
      carried_by = update w.carried_by obj 0;
    }

pub obj_to_char : World → ℕ → ℕ → World
unfolding link
obj_to_char w obj ch =
    let (next, head) = link w.next_content (w.carrying ch) obj in
    record w {
      next_content = next;
      carrying = update w.carrying ch head;
      in_room = update w.in_room obj 0;
      carried_by = update w.carried_by obj ch;
      in_obj = update w.in_obj obj 0;
    }

-- an object that is nowhere is logged and left; `none` is a list that the loop does not leave
pub obj_from_room : ℕ → World → ℕ → Option World
unfolding unlink
obj_from_room fuel w obj =
    let room = w.in_room obj in
    let unlinked = unlink fuel w.next_content (w.room_objects room) obj in
    if room == 0 then some w else elim unlinked [
      | none ↦ none
      | some (next, head) ↦ some (record w {
        next_content = update next obj 0;
        room_objects = update w.room_objects room head;
        in_room = update w.in_room obj 0;
      })
    ]

pub obj_from_char : ℕ → World → ℕ → Option World
unfolding unlink
obj_from_char fuel w obj =
    let ch = w.carried_by obj in
    let unlinked = unlink fuel w.next_content (w.carrying ch) obj in
    if ch == 0 then some w else elim unlinked [
      | none ↦ none
      | some (next, head) ↦ some (record w {
        next_content = update next obj 0;
        carrying = update w.carrying ch head;
        carried_by = update w.carried_by obj 0;
      })
    ]

pub obj_from_obj : ℕ → World → ℕ → Option World
unfolding unlink
obj_from_obj fuel w obj =
    let obj_from = w.in_obj obj in
    let unlinked = unlink fuel w.next_content (w.contains obj_from) obj in
    if obj_from == 0 then some w else elim unlinked [
      | none ↦ none
      | some (next, head) ↦ some (record w {
        next_content = update next obj 0;
        contains = update w.contains obj_from head;
        in_obj = update w.in_obj obj 0;
      })
    ]
