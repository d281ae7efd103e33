-- ===== src/Hashmap/Route.antt =====
-- Where a search in the table of src/hashmap.c ends, from the first index of its key.
use mathlib.Core.Path.{subst}
use muddled.Base.Int.{ℤ, pos, negsuc, ◌==ℤ◌, ==ℤ_sound}
use muddled.Base.{
  ℕ, zero, suc, ◌<◌, true, false, List, ◌≢◌, ◌⊎◌, inl, inr, Option, some, ◌≡◌, refl, sym, ◌∙◌,
  arith, length, ◌==◌,
}
use muddled.Hashmap.Defs.{HashEntry, get_loop}
use muddled.Hashmap.Probe.{entry, step_on, Probes}
use muddled.Hashmap.Search.{
  IsPassed, IsOther, IsAt, get_loop-Probes, get_loop_total, get_loop_found,
}
use muddled.Hashmap.Invariant.{home, stride, IsSized, IsPlaced}

-- a search in a table with the steps of the key
abbrev pub search : List HashEntry → ℕ → Option ℕ
search t k = let n = length t in get_loop n t (pos (home n k)) (pos (stride n k)) (pos k)

-- the path from the first index of a key
abbrev pub Route : ℕ → ℕ → (ℕ → Type 0) → ℕ → Type 0
Route n k P j = Probes n (stride n k) P j n (home n k)

pub home_lt : (n k : ℕ) → 2 < n → home n k < n
home_lt n k h = omega arith

-- two paths that end where the condition fails end at one entry
pub Probes-unique :
    (n s : ℕ) (P : ℕ → Type 0) (j x left i : ℕ)
    → (P j → ⊥)
    → (P x → ⊥)
    → Probes n s P j left i
    → Probes n s P x left i
    → x ≡ j
Probes-unique n s P j x zero i nj nx p q = absurd p
Probes-unique n s P j x (suc left) i nj nx (inl e) (inl f) = f ∙ sym e
Probes-unique n s P j x (suc left) i nj nx (inl e) (inr (q, r)) = absurd (nj (subst P (sym e) q))
Probes-unique n s P j x (suc left) i nj nx (inr (p, r)) (inl f) = absurd (nx (subst P (sym f) p))
Probes-unique n s P j x (suc left) i nj nx (inr (p, r)) (inr (q, r')) =
    Probes-unique n s P j x left (step_on n s i) nj nx r r'

pub key_apart : (a : ℤ) (m k : ℕ) → m ≢ k → (a ==ℤ pos k) ≡ true → (a ==ℤ pos m) ≡ false
key_apart (pos a) m k h e = ground arith
key_apart (negsuc a) m k h e = ground arith

pub pos_inj : (k m : ℕ) → pos k ≡ pos m → m ≡ k
pos_inj k m e = ground (arith, e)

pub same_index : (j x : ℕ) → (j == x) ≡ true → x ≡ j
same_index j x h = ground arith

pub not_other :
    (t : List HashEntry) (k : ℤ) (j : ℕ)
    → ((entry t j).active ≡ false) ⊎ IsAt t k j
    → IsOther t k j
    → ⊥
not_other t k j (inl dead) (live, other) = ground (arith, dead, live)
not_other t k j (inr (_, at)) (live, other) = ground (arith, at, other)

module _ (t : List HashEntry) (sized : IsSized t) where
  -- a key that a search comes to is found
  pub search-Probes :
      (j k : ℕ)
      → IsAt t (pos k) j
      → Probes
          (length t)
          (stride (length t) k)
          (IsPassed t (pos k))
          j
          (length t)
          (home (length t) k)
      → search t k ≡ some (entry t j).value
  search-Probes j k (live, at) p =
      get_loop-Probes t (pos k) (stride (length t) k) (omega arith) (length t) (home (length t) k) j
        (home_lt (length t) k sized) p at
      ∙ rw (live) refl

  pub search_placed :
      (j k : ℕ) → IsPlaced t → j < length t → IsAt t (pos k) j → search t k ≡ some (entry t j).value
  search_placed j k placed h (live, at) =
      let (k', e, p) = placed j h live in
      search-Probes j k (live, at)
        (subst
          (λ m.
            Probes (length t) (stride (length t) m) (IsPassed t (pos m)) j (length t)
              (home (length t) m))
          (pos_inj k k' (sym (==ℤ_sound (entry t j).key (pos k) at) ∙ e)) p)

  pub search_found :
      (k v : ℕ)
      → v ≢ 0
      → search t k ≡ some v
      → (j : ℕ) × (j < length t)
        × Probes
            (length t)
            (stride (length t) k)
            (IsPassed t (pos k))
            j
            (length t)
            (home (length t) k)
        × IsAt t (pos k) j
  search_found k v nz e =
      get_loop_found t (pos k) (stride (length t) k) (omega arith) (length t) (home (length t) k) v
        (home_lt (length t) k sized) nz e

  pub search_total : (k : ℕ) → (v : ℕ) × (search t k ≡ some v)
  search_total k =
      get_loop_total t (pos k) (stride (length t) k) (omega arith) (length t) (home (length t) k)
        (home_lt (length t) k sized)
