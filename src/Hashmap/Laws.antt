-- ===== src/Hashmap/Laws.antt =====
-- Insertion and lookup in src/hashmap.c as operations on a finite map.
use mathlib.Core.Path.{subst}
use muddled.Base.Int.{pos, ◌==ℤ◌}
use muddled.Base.{
  ℕ, ◌+◌, ◌<◌, true, false, List, [], ◌≢◌, ◌⊎◌, inl, inr, Option, none, some, ◌≡◌, refl, sym, ap,
  ◌∙◌, arith, length, set, length-set, ◌==◌, if◌then◌else◌, Bool-cases,
}
use muddled.Hashmap.Defs.{
  HashEntry, Hashmap, commit, Insertion, insert_here, insert_once, stored, no_room, outside, hm_get,
}
use muddled.Hashmap.Probe.{entry}
use muddled.Hashmap.Search.{IsOther, IsAt, insert_loop_stored}
use muddled.Hashmap.Route.{search, Route, home_lt, same_index, search_found, search_total}
use muddled.Hashmap.Invariant.{
  in_use, in_use_pos, in_use-set, IsInv, home, stride, IsSized, IsTidy, insert_once_lem, hm_get_lem,
}
use muddled.Hashmap.Write.{search-set, search-set_other, IsFilled-set, IsPlaced-set, IsTidy-set}

-- `hm_get` is the search, also in a table that `count` says is empty
pub hm_get-search :
    (hm : Hashmap) (k : ℕ)
    → IsSized hm.table
    → hm.count ≡ in_use hm.table
    → hm_get hm (pos k) ≡ search hm.table k
unfolding hm_get
hm_get-search hm k sized counted = elim (Bool-cases (hm.count == 0)) [
  | inr used ↦ hm_get_lem hm k sized (ground arith)
  | inl empty ↦
      let (v, found) = search_total hm.table sized k in
      elim (Bool-cases (v == 0)) [
        | inl none_there ↦
            let at_zero : search hm.table k ≡ some 0 = ground (arith, found) in
            rw (hm_get, empty, at_zero) refl
        | inr nz ↦
            let (x, h, _, at) = search_found hm.table sized k v (ground arith) found in
            absurd (ground (arith, in_use_pos hm.table x h at.0))
      ]
]

-- how the table is after an insertion
abbrev IsInserted : Hashmap → Hashmap → ℕ → ℕ → ℕ → Type 0
IsInserted hm hm' v k j =
    (e : HashEntry) × (hm'.table ≡ set hm.table j e)
    × (e.active ≡ true)
    × (e.value ≡ v)
    × ((e.key ==ℤ pos k) ≡ true)
    × (((entry hm.table j).active ≡ false) ⊎ IsAt hm.table (pos k) j)
    × (hm'.count ≡ (if (entry hm.table j).active then hm.count else hm.count + 1))

-- what an equation between results says of the table and the count
abbrev table_in : Option Hashmap → List HashEntry
table_in none = []
table_in (some hm) = hm.table

abbrev count_in : Option Hashmap → ℕ
count_in none = 0
count_in (some hm) = hm.count

commit-IsInserted :
    (hm hm' : Hashmap) (v k : ℕ) (o : Insertion)
    → IsSized hm.table
    → insert_once hm.table v (pos k) ≡ o
    → commit hm o ≡ some hm'
    → (j : ℕ) × (j < length hm.table)
      × Route (length hm.table) k (IsOther hm.table (pos k)) j
      × IsInserted hm hm' v k j
commit-IsInserted hm hm' v k (stored t f) sized eo e =
    let n = length hm.table in
    let (j, h, p, (f', et, live, val, key, free, flag)) =
      insert_loop_stored hm.table (pos k) (stride n k) (omega arith) n (home n k) v t f
        (home_lt n k sized) (sym (insert_once_lem hm.table v k sized) ∙ eo) in
    let et' : hm'.table ≡ t = sym (ap table_in e) in
    let ec : hm'.count ≡ (if f then hm.count + 1 else hm.count) = sym (ap count_in e) in
    (j, h, p, (f', et' ∙ et, live, val, key, free, ground (arith, ec, flag)))
commit-IsInserted hm hm' v k no_room sized eo e = absurd (ground (arith, e))
commit-IsInserted hm hm' v k outside sized eo e = absurd (ground (arith, e))

insert_here_stored :
    (hm hm' : Hashmap) (v k : ℕ)
    → IsSized hm.table
    → insert_here hm v (pos k) ≡ some hm'
    → (j : ℕ) × (j < length hm.table)
      × Route (length hm.table) k (IsOther hm.table (pos k)) j
      × IsInserted hm hm' v k j
unfolding insert_here
insert_here_stored hm hm' v k sized e =
    commit-IsInserted hm hm' v k (insert_once hm.table v (pos k)) sized refl e

-- the key has the new value, and every other key keeps what it had
search-insert_here :
    (hm hm' : Hashmap) (v k m : ℕ)
    → IsInv hm
    → v ≢ 0
    → insert_here hm v (pos k) ≡ some hm'
    → search hm'.table m ≡ (if m == k then some v else search hm.table m)
search-insert_here hm hm' v k m (sized, filled, placed, counted) nz e =
    let (j, h, p, (f, et, live, val, key, free, ec)) = insert_here_stored hm hm' v k sized e in
    let full : (f.value == 0) ≡ false = ground (arith, val) in
    elim (Bool-cases (m == k)) [
      | inl same ↦
          rw (same, et)
            (subst (λ x. search (set hm.table j f) x ≡ some v) (same_index m k same)
              (search-set hm.table j k f h free full key sized filled live p ∙ rw (val) refl))
      | inr apart ↦
          rw (apart, et)
            (search-set_other hm.table j k f h free full key m (ground (arith, apart)) sized filled
              placed)
    ]

counted-insert_here :
    (hm hm' : Hashmap) (v k : ℕ)
    → IsInv hm
    → insert_here hm v (pos k) ≡ some hm'
    → IsSized hm'.table × (hm'.count ≡ in_use hm'.table)
counted-insert_here hm hm' v k (sized, filled, placed, counted) e =
    let (j, h, p, (f, et, live, val, key, free, ec)) = insert_here_stored hm hm' v k sized e in
    (
      rw (et, length-set hm.table j f) sized,
      rw (et) (ground (arith, ec, counted, live, in_use-set hm.table j f h)),
    )

-- After an insertion, under a key that is not negative, of a value that is not NULL, in a table of
-- the invariant and where no growth is needed, hm_get returns the value for the key, and for every
-- other key that is not negative what it returned before.
pub hm_get-insert_here :
    (hm hm' : Hashmap) (v k m : ℕ)
    → IsInv hm
    → v ≢ 0
    → insert_here hm v (pos k) ≡ some hm'
    → hm_get hm' (pos m) ≡ (if m == k then some v else hm_get hm (pos m))
hm_get-insert_here hm hm' v k m inv nz e =
    let (sized', counted') = counted-insert_here hm hm' v k inv e in
    rw (hm_get-search hm' m sized' counted', hm_get-search hm m inv.0 inv.3)
      (search-insert_here hm hm' v k m inv nz e)

-- From a table of the invariant, whose keys are not negative and from which no entry was removed,
-- an insertion of a value that is not NULL under a key that is not negative leads to such a table.
pub IsInv-insert_here :
    (hm hm' : Hashmap) (v k : ℕ)
    → IsInv hm
    → IsTidy hm.table
    → v ≢ 0
    → insert_here hm v (pos k) ≡ some hm'
    → IsInv hm' × IsTidy hm'.table
IsInv-insert_here hm hm' v k (sized, filled, placed, counted) tidy nz e =
    let (j, h, p, (f, et, live, val, key, free, ec)) = insert_here_stored hm hm' v k sized e in
    let full : (f.value == 0) ≡ false = ground (arith, val) in
    let (sized', counted') = counted-insert_here hm hm' v k (sized, filled, placed, counted) e in
    (
      (
        sized',
        rw (et) (IsFilled-set hm.table j k f h free full key filled),
        rw (et) (IsPlaced-set hm.table j k f h free full key sized filled placed tidy p),
        counted',
      ),
      rw (et) (IsTidy-set hm.table j k f h free full key live tidy),
    )
