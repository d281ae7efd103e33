-- ===== src/Hashmap/Defs.antt =====
-- src/hashmap.c: the table, and the operations that do not grow it.
use muddled.Base.Int.{ℤ, pos, negsuc, ◌+ℤ◌, ◌==ℤ◌, rem}
use muddled.Base.{
  ℕ, zero, suc, ◌+◌, ◌-◌, ◌*◌, ◌%◌, ◌^◌, Bool, true, false, not, ◌&&◌, ◌||◌, List, [], ◌∷◌, Option,
  none, some, Text, length, get_elem?, set, ltb, ◌==◌, if◌then◌else◌,
}

-- `data` is the address of the value, 0 for NULL; `flags` is ACTIVE or not; `key` is an int64.
pub record HashEntry : Type 0 where
  pub value : ℕ
  pub active : Bool
  pub key : ℤ

-- `size` is the length of the table
pub record Hashmap : Type 0 where
  pub table : List HashEntry
  pub count : ℕ
  pub place : ℕ

abbrev pub size : Hashmap → ℕ
size hm = length hm.table

-- an entry of `calloc`
abbrev pub blank : HashEntry
blank = record { value = 0; active = false; key = pos 0 }

-- `table[index]`; `none` is an access outside the table
abbrev pub entry_at : List HashEntry → ℤ → Option HashEntry
entry_at table (pos i) = get_elem? table i
entry_at table (negsuc i) = none

-- `index = key % hash->size` and `step = (key % (hash->size - 2)) + 1`; `none` is a division by zero
unfoldable pub probe_start : ℕ → ℤ → Option (ℤ × ℤ)
probe_start n key =
    if n == 0 || n == 2
    then none
    else some (rem key n, (if n == 1 then pos 0 else rem key (n - 2)) +ℤ pos 1)

-- `index = (index + step) % hash->size`
abbrev pub next_index : ℕ → ℤ → ℤ → ℤ
next_index n index step = rem (index +ℤ step) n

-- How the search of `hm_insert` ends: at an entry that is written (a new one, or one with the key),
-- at no entry, or in an access outside the table.
pub data Insertion : Type 0 where
  stored : List HashEntry → Bool → Insertion
  no_room : Insertion
  outside : Insertion

abbrev pub write_at : List HashEntry → ℤ → HashEntry → List HashEntry
write_at table (pos i) e = set table i e
write_at table (negsuc i) e = table

-- the loop over `i`, by the rounds left
unfoldable pub insert_loop : ℕ → List HashEntry → ℤ → ℤ → ℕ → ℤ → Insertion
insert_loop zero table index step value key = no_room
insert_loop (suc left) table index step value key =
    let rest = insert_loop left table (next_index (length table) index step) step value key in
    elim (entry_at table index) [
      | none ↦ outside
      | some e ↦
          if e.active
          then (if e.key ==ℤ key
              then stored (write_at table index (record e { value = value })) false
              else rest)
          else stored (write_at table index (record { value = value; active = true; key = key }))
              true
    ]

-- the search for a place in the table as it is
unfoldable pub insert_once : List HashEntry → ℕ → ℤ → Insertion
unfolding probe_start insert_loop
insert_once table value key = elim (probe_start (length table) key) [
  | none ↦ outside
  | some s ↦ insert_loop (length table) table s.0 s.1 value key
]

-- the table and the count after the search; `none` where `hm_insert` goes on with `rehash`, or
-- outside the table
abbrev pub commit : Hashmap → Insertion → Option Hashmap
commit hm (stored t fresh) =
    some (record hm { table = t; count = if fresh then hm.count + 1 else hm.count })
commit hm no_room = none
commit hm outside = none

-- the body of the loop of `hm_insert`
unfoldable pub insert_here : Hashmap → ℕ → ℤ → Option Hashmap
unfolding insert_once
insert_here hm value key = commit hm (insert_once hm.table value key)

-- `none` is an access outside the table
unfoldable pub get_loop : ℕ → List HashEntry → ℤ → ℤ → ℤ → Option ℕ
get_loop zero table index step key = some 0
get_loop (suc left) table index step key =
    let rest = get_loop left table (next_index (length table) index step) step key in
    elim (entry_at table index) [
      | none ↦ none
      | some e ↦
          if e.key ==ℤ key
          then some (if e.active then e.value else 0)
          else if e.value == 0
          then some 0
          else rest
    ]

unfoldable pub hm_get : Hashmap → ℤ → Option ℕ
unfolding probe_start get_loop
hm_get hm key = if hm.count == 0 then some 0 else elim (probe_start (size hm) key) [
  | none ↦ none
  | some s ↦ get_loop (size hm) hm.table s.0 s.1 key
]

-- the table and the value that `hm_remove` leaves and returns
unfoldable pub remove_loop : ℕ → List HashEntry → ℤ → ℤ → ℤ → Option (List HashEntry × ℕ)
remove_loop zero table index step key = some (table, 0)
remove_loop (suc left) table index step key =
    let rest = remove_loop left table (next_index (length table) index step) step key in
    elim (entry_at table index) [
      | none ↦ none
      | some e ↦
          if e.value == 0
          then some (table, 0)
          else if e.key ==ℤ key
          then (if e.active
              then some (write_at table index (record e { active = false }), e.value)
              else some (table, 0))
          else rest
    ]

-- `--hash->count` where a value is returned
unfoldable pub hm_remove : Hashmap → ℤ → Option (Hashmap × ℕ)
unfolding probe_start remove_loop
hm_remove hm key = elim (probe_start (size hm) key) [
  | none ↦ none
  | some s ↦ elim (remove_loop (size hm) hm.table s.0 s.1 key) [
    | none ↦ none
    | some (t, v) ↦
        some (record hm { table = t; count = if v == 0 then hm.count else hm.count - 1 }, v)
  ]
]

-- `hash = ((hash << 5) + hash) + c` in an unsigned long; `char` is signed
pub hash_loop : ℕ → Text → ℕ
hash_loop hash [] = hash
hash_loop hash (c ∷ s) =
    hash_loop ((hash * 32 + hash + (if ltb c 128 then c else 2 ^ 64 + c - 256)) % 2 ^ 64) s

unfoldable pub hash_key : Text → ℕ
unfolding hash_loop
hash_key str = hash_loop 5381 str

-- an unsigned long as an `identifier_t`
abbrev pub to_identifier : ℕ → ℤ
to_identifier h = if ltb h (2 ^ 63) then pos h else negsuc (2 ^ 64 - 1 - h)

unfoldable pub sm_get : Hashmap → Text → Option ℕ
unfolding hm_get hash_key
sm_get hm key = hm_get hm (to_identifier (hash_key key))

unfoldable pub sm_remove : Hashmap → Text → Option (Hashmap × ℕ)
unfolding hm_remove hash_key
sm_remove hm key = hm_remove hm (to_identifier (hash_key key))

unfoldable pub hm_count : Hashmap → ℕ
hm_count hm = hm.count

-- the value at `pos`, or NULL behind the end
abbrev pub value_at : Hashmap → ℕ
value_at hm = elim (get_elem? hm.table hm.place) [ none ↦ 0 | some e ↦ e.value ]

unfoldable pub hm_start : Hashmap → Hashmap × ℕ
hm_start hm = let hm' = record hm { place = 0 } in (hm', value_at hm')

unfoldable pub hm_next : Hashmap → Hashmap × ℕ
hm_next hm = let hm' = record hm { place = hm.place + 1 } in (hm', value_at hm')

unfoldable pub hm_hasnext : Hashmap → Bool
hm_hasnext hm = ltb hm.place (size hm) && not (value_at hm == 0)

-- the values that the callback of `hm_foreach` is called on, in turn
pub foreach_loop : List HashEntry → List ℕ
foreach_loop [] = []
foreach_loop (e ∷ es) = if e.value == 0 then [] else e.value ∷ foreach_loop es

unfoldable pub hm_foreach : Hashmap → List ℕ
unfolding foreach_loop
hm_foreach hm = if hm.count == 0 then [] else foreach_loop hm.table
