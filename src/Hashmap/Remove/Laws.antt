-- ===== src/Hashmap/Remove/Laws.antt =====
-- `hm_remove` of src/hashmap.c as an operation on a finite map.
use mathlib.Core.Path.{subst}
use muddled.Base.Int.{pos}
use muddled.Base.{
  ℕ, ◌-◌, ◌<◌, true, List, ◌≢◌, inl, inr, some, ◌≡◌, refl, sym, ap, ◌∙◌, arith, length, ◌==◌,
  if◌then◌else◌, ==_refl, Bool-cases,
}
use muddled.Hashmap.Defs.{HashEntry, Hashmap, hm_get, hm_remove}
use muddled.Hashmap.Probe.{entry}
use muddled.Hashmap.Search.{IsPassed, IsAt, get_loop-Probes}
use muddled.Hashmap.Route.{search, Route, home_lt, same_index, key_apart}
use muddled.Hashmap.Invariant.{
  home, stride, IsSized, IsFilled, IsPlaced, probe_start_lem, in_use-set, IsInv,
}
use muddled.Hashmap.Laws.{hm_get-search}
use muddled.Hashmap.Remove.{
  removed, IsRemoved, remove_loop_lem, after, same_key, same_value, active_after, length-after,
  Route-after, get_loop-after,
}

module _ (t : List HashEntry) (j : ℕ) (here : j < length t) (sized : IsSized t) where
  sized_after : 2 < length (after t j here)
  sized_after = rw (length-after t j here) sized

  search-after_gone :
      (k : ℕ)
      → IsAt t (pos k) j
      → Route (length t) k (IsPassed t (pos k)) j
      → search (after t j here) k ≡ some 0
  search-after_gone k (live, at) p =
      let n = length (after t j here) in
      get_loop-Probes (after t j here) (pos k) (stride n k) (omega (arith, sized_after)) n
        (home n k) j (home_lt n k sized_after) (Route-after t j here k j sized p)
        (rw (same_key t j here j) at)
      ∙ rw (active_after t j here j, ==_refl j) refl

  search-after_other : (k m : ℕ) → m ≢ k → IsAt t (pos k) j → search (after t j here) m ≡ search t m
  search-after_other k m apart (live, at) =
      let n = length t in
      rw (length-after t j here) (
        get_loop-after t j here (pos m) (stride n m) n (home n m) (omega arith)
          (key_apart (entry t j).key m k apart at) (home_lt n m sized))

  -- the search for the key that was at the entry ends there, the others are as they were
  search-after :
      (k m : ℕ)
      → IsAt t (pos k) j
      → Route (length t) k (IsPassed t (pos k)) j
      → search (after t j here) m ≡ (if m == k then some 0 else search t m)
  search-after k m at p = elim (Bool-cases (m == k)) [
    | inl same ↦ rw (same) (
        subst (λ x. search (after t j here) x ≡ some 0) (same_index m k same)
          (search-after_gone k at p))
    | inr apart ↦ rw (apart) (search-after_other k m (ground (arith, apart)) at)
  ]

  live_before : (x : ℕ) → (entry (after t j here) x).active ≡ true → (entry t x).active ≡ true
  live_before x live = ground (arith, active_after t j here x)

  IsFilled-after : IsFilled t → IsFilled (after t j here)
  IsFilled-after filled x h live =
      rw (same_value t j here x)
        (filled x (rw (sym (length-after t j here)) h) (live_before x live))

  IsPlaced-after : IsPlaced t → IsPlaced (after t j here)
  IsPlaced-after placed x h live =
      let (k, e, p) = placed x (rw (sym (length-after t j here)) h) (live_before x live) in
      (k, same_key t j here x ∙ e, Route-after t j here k x sized p)

unchanged :
    (t : List HashEntry) (k v : ℕ)
    → search t k ≡ some v
    → v ≡ 0
    → (m : ℕ) → search t m ≡ (if m == k then some 0 else search t m)
unchanged t k v found ev m = elim (Bool-cases (m == k)) [
  | inl same ↦
      rw (same) (subst (λ x. search t x ≡ some 0) (same_index m k same) (found ∙ ap some ev))
  | inr apart ↦ rw (apart) refl
]

abbrev left_with : Hashmap → List HashEntry → ℕ → Hashmap
left_with hm t v = record hm { table = t; count = if v == 0 then hm.count else hm.count - 1 }

left_with-IsInv :
    (hm : Hashmap) (k v : ℕ) (t : List HashEntry)
    → IsInv hm
    → search hm.table k ≡ some v
    → IsRemoved hm.table t (pos k) v (Route (length hm.table) k (IsPassed hm.table (pos k)))
    → IsInv (left_with hm t v)
      × ((m : ℕ) → search t m ≡ (if m == k then some 0 else search hm.table m))
left_with-IsInv hm k v t (sized, filled, placed, counted) found (inl (et, ev)) =
    (rw (et, ev) (sized, filled, placed, counted), λ m. rw (et) (unchanged hm.table k v found ev m))
left_with-IsInv hm k v t (sized, filled, placed, counted) found
      (inr (j, h, p, (live, at), et, ev, nz)) =
    (
      rw (et) (
        sized_after hm.table j h sized,
        IsFilled-after hm.table j h sized filled,
        IsPlaced-after hm.table j h sized placed,
        ground (arith, counted, live, in_use-set hm.table j (removed (entry hm.table j)) h),
      ),
      λ m. rw (et) (search-after hm.table j h sized k m (live, at) p),
    )

-- From a table of the invariant, for a key that is not negative, hm_remove returns what hm_get
-- returned for the key, keeps the invariant, and leaves NULL for the key and, for every other key
-- that is not negative, what there was.
pub hm_remove_lem :
    (hm : Hashmap) (k : ℕ)
    → IsInv hm
    → (hm' : Hashmap) × (v : ℕ) × (hm_remove hm (pos k) ≡ some (hm', v))
      × (hm_get hm (pos k) ≡ some v)
      × IsInv hm'
      × ((m : ℕ) → hm_get hm' (pos m) ≡ (if m == k then some 0 else hm_get hm (pos m)))
unfolding hm_remove
hm_remove_lem hm k inv =
    let n = length hm.table in
    let (t, v, er, eg, what) =
      remove_loop_lem hm.table (pos k) (stride n k) (omega (arith, inv.0)) n (home n k)
        (home_lt n k inv.0) in
    let (inv', others) = left_with-IsInv hm k v t inv eg what in
    (
      left_with hm t v,
      v,
      rw (hm_remove, probe_start_lem n k inv.0, er) refl,
      hm_get-search hm k inv.0 inv.3 ∙ eg,
      inv',
      λ m.
          rw (hm_get-search (left_with hm t v) m inv'.0 inv'.3, hm_get-search hm m inv.0 inv.3)
            (others m),
    )
