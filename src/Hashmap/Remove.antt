-- ===== src/Hashmap/Remove.antt =====
-- What a removal from the table of src/hashmap.c returns and leaves for every key.
pub mod Laws
use mathlib.Core.Path.{subst}
use muddled.Base.Int.{ℤ, pos, negsuc, ◌==ℤ◌, ==ℤ_sound, ==ℤ_refl, rem}
use muddled.Base.{
  ℕ, zero, suc, ◌<◌, true, false, List, ◌≢◌, ◌⊎◌, inl, inr, some, ◌≡◌, refl, ◌∙◌, arith, length,
  set, length-set, ◌==◌, if◌then◌else◌, Bool-cases,
}
use muddled.Hashmap.Defs.{
  HashEntry, blank, Hashmap, size, probe_start, get_loop, hm_get, remove_loop, hm_remove,
}
use muddled.Hashmap.Probe.{entry, step_on, step_on_lt, Probes, Probes-map, remove_step, get_step}
use muddled.Hashmap.Search.{IsPassed, IsAt}
use muddled.Hashmap.Route.{
  search, Route, home_lt, search-Probes, search_placed, search_found, search_total, same_index,
}
use muddled.Hashmap.Invariant.{
  home, stride, IsSized, IsFilled, IsPlaced, IsTidy, entry-set, probe_start_lem, in_use, in_use_pos,
  in_use-set, IsInv,
}

abbrev pub removed : HashEntry → HashEntry
removed e = record e { active = false }

-- what a removal that ends with `t'` and `v` did: nothing, or one entry is no longer in use
abbrev pub IsRemoved : List HashEntry → List HashEntry → ℤ → ℕ → (ℕ → Type 0) → Type 0
IsRemoved t t' k v Reached =
    ((t' ≡ t) × (v ≡ 0))
    ⊎ ((j : ℕ) × (j < length t)
        × Reached j
        × IsAt t k j
        × (t' ≡ set t j (removed (entry t j)))
        × (v ≡ (entry t j).value)
        × (v ≢ 0))

IsRemoved-map :
    (t t' : List HashEntry) (k : ℤ) (v : ℕ) (P Q : ℕ → Type 0)
    → ((j : ℕ) → P j → Q j)
    → IsRemoved t t' k v P
    → IsRemoved t t' k v Q
IsRemoved-map t t' k v P Q f (inl same) = inl same
IsRemoved-map t t' k v P Q f (inr (j, h, p, at, et, ev, nz)) = inr (j, h, f j p, at, et, ev, nz)

module _ (t : List HashEntry) (k : ℤ) (s : ℕ) (filled : 0 < length t) where
  pub remove_loop_lem :
      (left i : ℕ)
      → i < length t
      → (t' : List HashEntry) × (v : ℕ) × (remove_loop left t (pos i) (pos s) k ≡ some (t', v))
        × (get_loop left t (pos i) (pos s) k ≡ some v)
        × IsRemoved t t' k v (λ j. Probes (length t) s (IsPassed t k) j left i)
  unfolding remove_loop get_loop
  remove_loop_lem zero i h = (t, 0, refl, refl, inl (refl, refl))
  remove_loop_lem (suc left) i h = elim (Bool-cases ((entry t i).value == 0)) [
    | inl empty ↦ (
      t,
      0,
      rw (remove_step t k s left i h, empty) refl,
      ground (arith, get_step t k s left i h, empty),
      inl (refl, refl),
    )
    | inr full ↦ elim (Bool-cases ((entry t i).key ==ℤ k)) [
      | inl at ↦ elim (Bool-cases (entry t i).active) [
        | inl live ↦ (
          set t i (removed (entry t i)),
          (entry t i).value,
          rw (remove_step t k s left i h, full, at, live) refl,
          rw (get_step t k s left i h, at, live) refl,
          inr (i, h, inl refl, (live, at), refl, refl, ground (arith, full)),
        )
        | inr dead ↦ (
          t,
          0,
          rw (remove_step t k s left i h, full, at, dead) refl,
          rw (get_step t k s left i h, at, dead) refl,
          inl (refl, refl),
        )
      ]
      | inr other ↦
          let (t', v, er, eg, what) =
            remove_loop_lem left (step_on (length t) s i) (step_on_lt (length t) s i filled) in
          (
            t',
            v,
            rw (remove_step t k s left i h, full, other) er,
            rw (get_step t k s left i h, other, full) eg,
            IsRemoved-map t t' k v
                (λ j. Probes (length t) s (IsPassed t k) j left (step_on (length t) s i))
                (λ j. Probes (length t) s (IsPassed t k) j (suc left) i)
                (λ j p. inr ((other, full), p)) what,
          )
    ]
  ]

-- the entry `j` is no longer in use
module _ (t : List HashEntry) (j : ℕ) (here : j < length t) where
  abbrev pub after : List HashEntry
  after = set t j (removed (entry t j))

  entry-after : (x : ℕ) → entry after x ≡ (if j == x then removed (entry t j) else entry t x)
  entry-after x = entry-set t j x (removed (entry t j)) here

  pub same_key : (x : ℕ) → (entry after x).key ≡ (entry t x).key
  same_key x = elim (Bool-cases (j == x)) [
    | inl same ↦ rw (entry-after x, same, same_index j x same) refl
    | inr differs ↦ rw (entry-after x, differs) refl
  ]

  pub same_value : (x : ℕ) → (entry after x).value ≡ (entry t x).value
  same_value x = elim (Bool-cases (j == x)) [
    | inl same ↦ rw (entry-after x, same, same_index j x same) refl
    | inr differs ↦ rw (entry-after x, differs) refl
  ]

  pub active_after :
      (x : ℕ) → (entry after x).active ≡ (if j == x then false else (entry t x).active)
  active_after x = elim (Bool-cases (j == x)) [
    | inl same ↦ rw (entry-after x, same) refl
    | inr differs ↦ rw (entry-after x, differs) refl
  ]

  IsPassed-after : (k : ℤ) (x : ℕ) → IsPassed t k x → IsPassed after k x
  IsPassed-after k x p = rw (same_key x, same_value x) p

  length-after : length after ≡ length t
  length-after = length-set t j (removed (entry t j))

  pub Route-after :
      (k x : ℕ)
      → IsSized t
      → Route (length t) k (IsPassed t (pos k)) x
      → Route (length after) k (IsPassed after (pos k)) x
  Route-after k x sized p =
      let n = length t in
      rw (length-after) (
        Probes-map n (stride n k) (IsPassed t (pos k)) (IsPassed after (pos k)) x n (home n k)
          (omega arith) (λ y h. IsPassed-after (pos k) y) (home_lt n k sized) p)

  step_after :
      (k : ℤ) (s left i : ℕ)
      → i < length t
      → get_loop (suc left) after (pos i) (pos s) k ≡ (
          if (entry t i).key ==ℤ k
          then some (if (entry after i).active then (entry t i).value else 0)
          else if (entry t i).value == 0
          then some 0
          else get_loop left after (pos (step_on (length t) s i)) (pos s) k)
  step_after k s left i h =
      get_step after k s left i (rw (length-after) h)
      ∙ rw (same_key i, same_value i, length-after) refl

  elsewhere :
      (k : ℤ) (i : ℕ)
      → ((entry t j).key ==ℤ k) ≡ false
      → ((entry t i).key ==ℤ k) ≡ true
      → (j == i) ≡ false
  elsewhere k i other at = elim (Bool-cases (j == i)) [
    | inr differs ↦ differs
    | inl same ↦
        let at' : ((entry t j).key ==ℤ k) ≡ true =
          subst (λ x. ((entry t x).key ==ℤ k) ≡ true) (same_index j i same) at in
        absurd (ground (arith, other, at'))
  ]

  -- a search for a key that is not there goes on as before
  get_loop-after :
      (k : ℤ) (s left i : ℕ)
      → 0 < length t
      → ((entry t j).key ==ℤ k) ≡ false
      → i < length t
      → get_loop left after (pos i) (pos s) k ≡ get_loop left t (pos i) (pos s) k
  unfolding get_loop
  get_loop-after k s zero i filled other h = refl
  get_loop-after k s (suc left) i filled other h =
      let rest =
        get_loop-after k s left (step_on (length t) s i) filled other
          (step_on_lt (length t) s i filled) in
      elim (Bool-cases ((entry t i).key ==ℤ k)) [
        | inr o ↦ ground (arith, step_after k s left i h, get_step t k s left i h, o, rest)
        | inl at ↦
            let kept : (entry after i).active ≡ (entry t i).active =
              active_after i ∙ rw (elsewhere k i other at) refl in
            ground (arith, step_after k s left i h, get_step t k s left i h, at, kept)
      ]
