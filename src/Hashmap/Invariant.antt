-- ===== src/Hashmap/Invariant.antt =====
-- The invariant of the tables of src/hashmap.c, and the operations on them by their loops.
use muddled.Base.Int.{pos}
use muddled.Base.{
  ℕ, zero, suc, ◌+◌, ◌-◌, ◌%◌, ◌<◌, true, false, List, [], ◌∷◌, ◌≢◌, some, ◌≡◌, refl, sym, arith,
  length, set, replicate, length-replicate, get_or-replicate, get_or-set, ◌==◌, if◌then◌else◌,
  ==_false,
}
use muddled.Hashmap.Defs.{
  size, HashEntry, blank, Hashmap, probe_start, insert_loop, insert_once, get_loop, hm_get,
}
use muddled.Hashmap.Probe.{entry, Probes}
use muddled.Hashmap.Search.{IsPassed}

-- the first index and the step of a key
abbrev pub home : ℕ → ℕ → ℕ
home n k = k % n

abbrev pub stride : ℕ → ℕ → ℕ
stride n k = k % (n - 2) + 1

-- the sizes of the code are odd primes
abbrev pub IsSized : List HashEntry → Type 0
IsSized t = 2 < length t

-- an entry in use has a value
abbrev pub IsFilled : List HashEntry → Type 0
IsFilled t = (x : ℕ) → x < length t → (entry t x).active ≡ true → ((entry t x).value == 0) ≡ false

-- and a search for its key, which is not negative, comes to it
abbrev pub IsPlaced : List HashEntry → Type 0
IsPlaced t =
    (x : ℕ)
    → x < length t
    → (entry t x).active ≡ true
    → (k : ℕ) × ((entry t x).key ≡ pos k)
      × Probes (length t) (stride (length t) k) (IsPassed t (pos k)) x (length t)
          (home (length t) k)

-- no entry was removed
abbrev pub IsTidy : List HashEntry → Type 0
IsTidy t = (x : ℕ) → x < length t → (entry t x).active ≡ false → ((entry t x).value == 0) ≡ true

pub probe_start_lem :
    (n k : ℕ) → 2 < n → probe_start n (pos k) ≡ some (pos (home n k), pos (stride n k))
unfolding probe_start
probe_start_lem n k h = ground arith

pub hm_get_lem :
    (hm : Hashmap) (k : ℕ)
    → IsSized hm.table
    → hm.count ≢ 0
    → let n = length hm.table in
      hm_get hm (pos k) ≡ get_loop n hm.table (pos (home n k)) (pos (stride n k)) (pos k)
unfolding hm_get
hm_get_lem hm k sized used =
    rw (hm_get, ==_false hm.count 0 used, probe_start_lem (size hm) k sized) refl

pub insert_once_lem :
    (t : List HashEntry) (v k : ℕ)
    → IsSized t
    → let n = length t in
      insert_once t v (pos k) ≡ insert_loop n t (pos (home n k)) (pos (stride n k)) v (pos k)
unfolding insert_once
insert_once_lem t v k sized = rw (insert_once, probe_start_lem (length t) k sized) refl

-- the entries after a write
pub entry-set :
    (t : List HashEntry) (j x : ℕ) (e : HashEntry)
    → j < length t
    → entry (set t j e) x ≡ (if j == x then e else entry t x)
entry-set t j x e h = get_or-set t j x e blank h

-- the number of entries in use
abbrev pub in_use : List HashEntry → ℕ
in_use [] = 0
in_use (e ∷ t) = (if e.active then 1 else 0) + in_use t

pub in_use-set :
    (t : List HashEntry) (i : ℕ) (e : HashEntry)
    → i < length t
    → in_use (set t i e) + (if (entry t i).active then 1 else 0)
      ≡ in_use t + (if e.active then 1 else 0)
in_use-set [] i e h = absurd (omega arith)
in_use-set (f ∷ t) zero e h = omega arith
in_use-set (f ∷ t) (suc i) e h = let rest = in_use-set t i e (omega arith) in omega (arith, rest)

pub in_use_pos :
    (t : List HashEntry) (x : ℕ) → x < length t → (entry t x).active ≡ true → 0 < in_use t
in_use_pos [] x h live = absurd (omega arith)
in_use_pos (f ∷ t) zero h live = rw (live) (omega arith)
in_use_pos (f ∷ t) (suc x) h live =
    let rest = in_use_pos t x (omega arith) live in omega (arith, rest)

-- the tables that the operations keep
abbrev pub IsInv : Hashmap → Type 0
IsInv hm = IsSized hm.table × IsFilled hm.table × IsPlaced hm.table × (hm.count ≡ in_use hm.table)

in_use-replicate : (n : ℕ) → in_use (replicate n blank) ≡ 0
in_use-replicate zero = refl
in_use-replicate (suc n) = let rest = in_use-replicate n in omega (arith, rest)

-- an empty table, as `calloc` gives it
abbrev pub empty_table : ℕ → Hashmap
empty_table n = record { table = replicate n blank; count = 0; place = 0 }

pub IsInv-empty_table : (n : ℕ) → 2 < n → IsInv (empty_table n)
IsInv-empty_table n h = (
  rw (length-replicate n blank) h,
  λ x _ live. absurd (ground (arith, get_or-replicate n x blank)),
  λ x _ live. absurd (ground (arith, get_or-replicate n x blank)),
  sym (in_use-replicate n),
)

pub IsTidy-empty_table : (n : ℕ) → IsTidy (empty_table n).table
IsTidy-empty_table n x h dead = rw (get_or-replicate n x blank) refl
