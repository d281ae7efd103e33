-- ===== src/Hashmap/Outside.antt =====
-- What src/hashmap.c does on a key that is negative.
use muddled.Base.Int.{ℤ, pos, negsuc, ◌+ℤ◌, rem}
use muddled.Base.{
  ℕ, zero, suc, ◌-◌, ◌%◌, ◌<◌, List, ◌≢◌, none, some, ◌≡◌, refl, arith, length, ==_false,
}
use muddled.Hashmap.Defs.{HashEntry, Hashmap, probe_start, get_loop, hm_get, remove_loop, hm_remove}
use muddled.Hashmap.Invariant.{IsSized}

probe_start_negative :
    (n a : ℕ)
    → 2 < n
    → suc a % n ≢ 0
    → (s : ℤ) × (probe_start n (negsuc a) ≡ some (negsuc (suc a % n - 1), s))
unfolding probe_start
probe_start_negative n a h apart = (rem (negsuc a) (n - 2) +ℤ pos 1, ground arith)

get_loop_outside :
    (left b : ℕ) (t : List HashEntry) (s k : ℤ) → 0 < left → get_loop left t (negsuc b) s k ≡ none
unfolding get_loop
get_loop_outside zero b t s k h = absurd (omega arith)
get_loop_outside (suc left) b t s k h = refl

remove_loop_outside :
    (left b : ℕ) (t : List HashEntry) (s k : ℤ)
    → 0 < left
    → remove_loop left t (negsuc b) s k ≡ none
unfolding remove_loop
remove_loop_outside zero b t s k h = absurd (omega arith)
remove_loop_outside (suc left) b t s k h = refl

-- A key that is negative as an `int64` has a negative index, outside the table: `hm_get` and
-- `hm_remove` read there, where the key is no multiple of the size.
pub hm_get_outside :
    (hm : Hashmap) (a : ℕ)
    → IsSized hm.table
    → hm.count ≢ 0
    → suc a % length hm.table ≢ 0
    → (hm_get hm (negsuc a) ≡ none) × (hm_remove hm (negsuc a) ≡ none)
unfolding hm_get hm_remove
hm_get_outside hm a sized used apart =
    let n = length hm.table in
    let (s, e) = probe_start_negative n a sized apart in
    let b = suc a % n - 1 in
    (
      rw (hm_get, ==_false hm.count 0 used, e)
          (get_loop_outside n b hm.table s (negsuc a) (omega arith)),
      rw (hm_remove, e, remove_loop_outside n b hm.table s (negsuc a) (omega arith)) refl,
    )
