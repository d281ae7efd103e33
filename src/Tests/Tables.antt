-- ===== src/Tests/Tables.antt =====
-- Inputs for the theorems about src/hashmap.c.
use muddled.Base.Int.{pos}
use muddled.Base.{ℕ, true, [], ◌∷◌, Option, none, some, ◌≡◌, refl, arith, ◌==◌, if◌then◌else◌}
use muddled.Hashmap.Defs.{Hashmap, blank, insert_here, hm_get, hm_remove, hm_foreach}
use muddled.Hashmap.Invariant.{IsInv, IsTidy, empty_table, IsInv-empty_table, IsTidy-empty_table}
use muddled.Hashmap.Laws.{hm_get-insert_here, IsInv-insert_here}
use muddled.Hashmap.Remove.Laws.{hm_remove_lem}

-- the key 3, with the value 70, at its first index
abbrev with_one : Hashmap
with_one = record {
  table = blank ∷ blank ∷ blank ∷ record { value = 70; active = true; key = pos 3 } ∷ blank ∷ [];
  count = 1;
  place = 0;
}

-- and the key 8, which meets it there, with the value 80
abbrev with_two : Hashmap
with_two = record {
  table =
      blank
      ∷ record { value = 80; active = true; key = pos 8 }
      ∷ blank
      ∷ record { value = 70; active = true; key = pos 3 }
      ∷ blank
      ∷ [];
  count = 2;
  place = 0;
}

insert_one : insert_here (empty_table 5) 70 (pos 3) ≡ some with_one
unfolding insert_here
insert_one = refl

insert_two : insert_here with_one 80 (pos 8) ≡ some with_two
unfolding insert_here
insert_two = refl

IsInv-with_one : IsInv with_one × IsTidy with_one.table
IsInv-with_one =
    IsInv-insert_here (empty_table 5) with_one 70 3 (IsInv-empty_table 5 (omega arith))
      (IsTidy-empty_table 5) (omega arith) insert_one

IsInv-with_two : IsInv with_two
IsInv-with_two =
    (IsInv-insert_here with_one with_two 80 8 IsInv-with_one.0 IsInv-with_one.1 (omega arith)
      insert_two).0

hm_get-insert_here_example :
    hm_get with_two (pos 3) ≡ (if 3 == 8 then some 80 else hm_get with_one (pos 3))
hm_get-insert_here_example =
    hm_get-insert_here with_one with_two 80 8 3 IsInv-with_one.0 (omega arith) insert_two

IsInv-insert_here_example : IsInv with_two × IsTidy with_two.table
IsInv-insert_here_example =
    IsInv-insert_here with_one with_two 80 8 IsInv-with_one.0 IsInv-with_one.1 (omega arith)
      insert_two

hm_remove_lem_example :
    (hm' : Hashmap) × (v : ℕ) × (hm_remove with_two (pos 3) ≡ some (hm', v))
    × (hm_get with_two (pos 3) ≡ some v)
    × IsInv hm'
    × ((m : ℕ) → hm_get hm' (pos m) ≡ (if m == 3 then some 0 else hm_get with_two (pos m)))
hm_remove_lem_example = hm_remove_lem with_two 3 IsInv-with_two

-- the key 3 is removed, 8 is stored a second time in its place, removed, and 13 stored there
abbrev with_stale : Hashmap
with_stale = record {
  table =
      blank
      ∷ record { value = 80; active = true; key = pos 8 }
      ∷ blank
      ∷ record { value = 95; active = true; key = pos 13 }
      ∷ blank
      ∷ [];
  count = 2;
  place = 0;
}

abbrev and_then : Option Hashmap → (Hashmap → Option Hashmap) → Option Hashmap
and_then none f = none
and_then (some hm) f = f hm

abbrev remaining : Option (Hashmap × ℕ) → Option Hashmap
remaining none = none
remaining (some (hm, v)) = some hm

stale_run :
    and_then (remaining (hm_remove with_two (pos 3))) (λ a.
      and_then
        (insert_here a 90 (pos 8))
        (λ b. and_then (remaining (hm_remove b (pos 8))) (λ c. insert_here c 95 (pos 13))))
    ≡ some with_stale
unfolding hm_remove insert_here
stale_run = refl

stale_get : hm_get with_stale (pos 8) ≡ some 80
unfolding hm_get
stale_get = refl

foreach_stops : hm_foreach with_two ≡ []
unfolding hm_foreach
foreach_stops = refl
