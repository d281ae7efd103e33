-- ===== src/World/Moves.antt =====
-- What taking an object from a room, a character or a container in src/util.c does to the lists.
use muddled.Base.{ℕ, ◌<◌, List, ◌≢◌, some, ◌≡◌, refl, length, ==_refl, ==_false}
use muddled.World.{
  update, World, obj_to_room, obj_to_char, obj_to_obj, obj_from_room, obj_from_char, obj_from_obj,
}
use muddled.World.Frames.{HasLeft, HasCome, unlink-HasLeft, link-HasCome}
use muddled.World.Links.{IsList, Distinct, Has, Misses}

module _ (w : World) (obj : ℕ) (xs : List ℕ) (fuel : ℕ) (enough : length xs < fuel)
    (distinct : Distinct xs) (has : Has obj xs) where
  -- An object in a room, whose list has distinct elements and is shorter than the fuel, is taken
  -- from that list, which loses that object only; all lists that have no element in common with
  -- it stay, and the object is no longer there.
  pub obj_from_room_lem :
      w.in_room obj ≢ 0
      → IsList w.next_content (w.room_objects (w.in_room obj)) xs
      → (w' : World) × (obj_from_room fuel w obj ≡ some w')
        × HasLeft w.next_content w'.next_content obj xs (w'.room_objects (w.in_room obj))
        × (w'.in_room obj ≡ 0)
  unfolding obj_from_room
  obj_from_room_lem nz l =
      let (next, p', e, (own, others, gone)) =
        unlink-HasLeft w.next_content (w.room_objects (w.in_room obj)) obj xs fuel enough distinct
          has l in
      (
        record w {
          next_content = update next obj 0;
          room_objects = update w.room_objects (w.in_room obj) p';
          in_room = update w.in_room obj 0;
        },
        rw (obj_from_room, ==_false (w.in_room obj) 0 nz, e) refl,
        (rw (==_refl (w.in_room obj)) own, others, gone),
        rw (==_refl obj) refl,
      )

  -- An object that a character carries is taken from its list, which loses that object only; all lists that have no
  -- element in common with it stay, and the object is no longer there.
  pub obj_from_char_lem :
      w.carried_by obj ≢ 0
      → IsList w.next_content (w.carrying (w.carried_by obj)) xs
      → (w' : World) × (obj_from_char fuel w obj ≡ some w')
        × HasLeft w.next_content w'.next_content obj xs (w'.carrying (w.carried_by obj))
        × (w'.carried_by obj ≡ 0)
  unfolding obj_from_char
  obj_from_char_lem nz l =
      let (next, p', e, (own, others, gone)) =
        unlink-HasLeft w.next_content (w.carrying (w.carried_by obj)) obj xs fuel enough distinct
          has l in
      (
        record w {
          next_content = update next obj 0;
          carrying = update w.carrying (w.carried_by obj) p';
          carried_by = update w.carried_by obj 0;
        },
        rw (obj_from_char, ==_false (w.carried_by obj) 0 nz, e) refl,
        (rw (==_refl (w.carried_by obj)) own, others, gone),
        rw (==_refl obj) refl,
      )

  -- An object in a container is taken from its list, which loses that object only; all lists that have no
  -- element in common with it stay, and the object is no longer there.
  pub obj_from_obj_lem :
      w.in_obj obj ≢ 0
      → IsList w.next_content (w.contains (w.in_obj obj)) xs
      → (w' : World) × (obj_from_obj fuel w obj ≡ some w')
        × HasLeft w.next_content w'.next_content obj xs (w'.contains (w.in_obj obj))
        × (w'.in_obj obj ≡ 0)
  unfolding obj_from_obj
  obj_from_obj_lem nz l =
      let (next, p', e, (own, others, gone)) =
        unlink-HasLeft w.next_content (w.contains (w.in_obj obj)) obj xs fuel enough distinct has
          l in
      (
        record w {
          next_content = update next obj 0;
          contains = update w.contains (w.in_obj obj) p';
          in_obj = update w.in_obj obj 0;
        },
        rw (obj_from_obj, ==_false (w.in_obj obj) 0 nz, e) refl,
        (rw (==_refl (w.in_obj obj)) own, others, gone),
        rw (==_refl obj) refl,
      )

module _ (w : World) (obj to : ℕ) (xs : List ℕ) (nz : obj ≢ 0) (misses : Misses obj xs) where
  -- An object that is put into a room, and does not stand in its list yet, comes to the front of
  -- that list; all lists that it does not stand in stay, and its pointers name the new place
  -- only.
  pub obj_to_room_lem :
      IsList w.next_content (w.room_objects to) xs
      → HasCome w.next_content
          (obj_to_room w obj to).next_content
          obj
          xs
          ((obj_to_room w obj to).room_objects to)
        × ((obj_to_room w obj to).in_room obj ≡ to)
        × ((obj_to_room w obj to).carried_by obj ≡ 0)
        × ((obj_to_room w obj to).in_obj obj ≡ 0)
  unfolding obj_to_room
  obj_to_room_lem l =
      let (own, others) = link-HasCome w.next_content (w.room_objects to) obj xs nz misses l in
      (
        (rw (==_refl to) own, others),
        rw (==_refl obj) refl,
        rw (==_refl obj) refl,
        rw (==_refl obj) refl,
      )

  -- An object that is given to a character comes to the front of the list there; all lists that it does
  -- not stand in stay, and its pointers name the new place only.
  pub obj_to_char_lem :
      IsList w.next_content (w.carrying to) xs
      → HasCome w.next_content
          (obj_to_char w obj to).next_content
          obj
          xs
          ((obj_to_char w obj to).carrying to)
        × ((obj_to_char w obj to).carried_by obj ≡ to)
        × ((obj_to_char w obj to).in_room obj ≡ 0)
        × ((obj_to_char w obj to).in_obj obj ≡ 0)
  unfolding obj_to_char
  obj_to_char_lem l =
      let (own, others) = link-HasCome w.next_content (w.carrying to) obj xs nz misses l in
      (
        (rw (==_refl to) own, others),
        rw (==_refl obj) refl,
        rw (==_refl obj) refl,
        rw (==_refl obj) refl,
      )

  -- An object that is put into a container comes to the front of the list there; all lists that it does
  -- not stand in stay, and its pointers name the new place only.
  pub obj_to_obj_lem :
      IsList w.next_content (w.contains to) xs
      → HasCome w.next_content
          (obj_to_obj w obj to).next_content
          obj
          xs
          ((obj_to_obj w obj to).contains to)
        × ((obj_to_obj w obj to).in_obj obj ≡ to)
        × ((obj_to_obj w obj to).in_room obj ≡ 0)
        × ((obj_to_obj w obj to).carried_by obj ≡ 0)
  unfolding obj_to_obj
  obj_to_obj_lem l =
      let (own, others) = link-HasCome w.next_content (w.contains to) obj xs nz misses l in
      (
        (rw (==_refl to) own, others),
        rw (==_refl obj) refl,
        rw (==_refl obj) refl,
        rw (==_refl obj) refl,
      )
