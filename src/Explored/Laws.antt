-- ===== src/Explored/Laws.antt =====
-- What the repair and the counts of src/explored.c give.
use muddled.Base.{
  ℕ, zero, suc, ◌+◌, ◌≤◌, Bool, true, false, not, ◌&&◌, ◌||◌, inl, inr, Option, none, some, ◌≡◌,
  refl, ap, ◌∙◌, arith, ltb, leb, ◌==◌, if◌then◌else◌, Bool-cases,
}
use muddled.Flag.Defs.{Flag, is_set, remove_bit}
use muddled.Flag.Bits.{is_set_after}
use muddled.Explored.{
  Room, Rooms, is_explorable, get_room_by_id, repair, one_if, update_loop, update_explored,
}

-- whether a bit may stay set
abbrev pub allowed : Option Room → Bool
allowed none = false
allowed (some room) = is_explorable room

same_bit : (f : Flag) (id b : ℕ) → (id == b) ≡ true → is_set f b ≡ is_set f id
same_bit f id b h = ap (is_set f) (ground arith)

is_set-remove_if :
    (f : Flag) (id b : ℕ) (kept : Bool)
    → is_set (if not kept && is_set f id then remove_bit f id else f) b
      ≡ (is_set f b && (not (id == b) || kept))
is_set-remove_if f id b true = ground arith
is_set-remove_if f id b false = elim (Bool-cases (is_set f id)) [
  | inl yes_set ↦ rw yes_set ((is_set_after f id b).1 ∙ ground arith)
  | inr un_set ↦ rw un_set (ground (arith, same_bit f id b))
]

is_set-repair :
    (f : Flag) (id b : ℕ) (room : Option Room)
    → is_set (repair f id room) b ≡ (is_set f b && (not (id == b) || allowed room))
is_set-repair f id b none = is_set-remove_if f id b false
is_set-repair f id b (some room) = is_set-remove_if f id b (is_explorable room)

-- how many of the numbers from `id` on, `n` of them, have a room
abbrev pub found : Rooms → ℕ → ℕ → ℕ
found rooms id zero = 0
found rooms id (suc n) = one_if (get_room_by_id rooms id) + found rooms (id + 1) n

combine :
    (rooms : Rooms) (f f' : Flag) (id n b : ℕ)
    → is_set f' b ≡ (
        is_set (repair f id (get_room_by_id rooms id)) b
        && (ltb b (id + 1) || leb (id + 1 + n) b || allowed (get_room_by_id rooms b)))
    → is_set f' b
      ≡ (is_set f b && (ltb b id || leb (id + suc n) b || allowed (get_room_by_id rooms b)))
combine rooms f f' id n b e =
    let step = is_set-repair f id b (get_room_by_id rooms id) in
    elim (Bool-cases (id == b)) [
      | inl here ↦
          let same : get_room_by_id rooms id ≡ get_room_by_id rooms b =
            ap (get_room_by_id rooms) (ground arith) in
          let ok : allowed (get_room_by_id rooms id) ≡ allowed (get_room_by_id rooms b) =
            ap allowed same in
          ground (arith, e, step, here, ok)
      | inr away ↦ ground (arith, e, step, away)
    ]

update_loop_lem :
    (rooms : Rooms) (max_room fuel id n_match : ℕ) (f : Flag)
    → max_room ≤ n_match + found rooms id fuel
    → (f' : Flag) × (n : ℕ) × (update_loop (suc fuel) rooms max_room id n_match f ≡ some f')
      × (n ≤ fuel)
      × (max_room ≤ n_match + found rooms id n)
      × ((b : ℕ)
          → is_set f' b
            ≡ (is_set f b && (ltb b id || leb (id + n) b || allowed (get_room_by_id rooms b))))
unfolding update_loop
update_loop_lem rooms max_room zero id n_match f h =
    let done : ltb n_match max_room ≡ false = ground arith in
    (f, 0, rw (update_loop, done) refl, omega arith, omega arith, λ b. ground arith)
update_loop_lem rooms max_room (suc fuel) id n_match f h =
    elim (Bool-cases (ltb n_match max_room)) [
      | inr done ↦ (f, 0, rw (update_loop, done) refl, omega arith, ground arith, λ b. ground arith)
      | inl more ↦
          let room = get_room_by_id rooms id in
          let (f', n, e, le, enough, bits) =
            update_loop_lem rooms max_room fuel (id + 1) (n_match + one_if room) (repair f id room)
              (omega arith) in
          (
            f',
            suc n,
            rw (update_loop, more) e,
            omega arith,
            omega arith,
            λ b. combine rooms f f' id n b (bits b),
          )
    ]

-- If enough of the first `fuel` numbers have a room, `update_explored` ends, and then clears, among
-- the numbers that it has passed, the bits of those without a room or with one that is not to be
-- explored; every other bit is as before.
pub update_explored_lem :
    (rooms : Rooms) (max_room fuel : ℕ) (f : Flag)
    → max_room ≤ found rooms 1 fuel
    → (f' : Flag) × (n : ℕ) × (update_explored (suc fuel) rooms max_room f ≡ some f')
      × (max_room ≤ found rooms 1 n)
      × ((b : ℕ)
          → is_set f' b
            ≡ (is_set f b && (ltb b 1 || leb (1 + n) b || allowed (get_room_by_id rooms b))))
unfolding update_explored
update_explored_lem rooms max_room fuel f h =
    let (f', n, e, _, enough, bits) =
      update_loop_lem rooms max_room fuel 1 0 f (omega (arith, h)) in
    (f', n, e, omega (arith, enough), bits)
