-- ===== src/Hashmap/Write.antt =====
-- What one write in the table of src/hashmap.c does to a search for every key.
use mathlib.Core.Path.{subst}
use muddled.Base.Int.{pos, ◌==ℤ◌, ==ℤ_sound, ==ℤ_refl}
use muddled.Base.{
  ℕ, ◌<◌, true, false, List, ◌≢◌, ◌⊎◌, inl, inr, some, ◌≡◌, refl, sym, ap, ◌∙◌, arith, length, set,
  length-set, ◌==◌, ==_refl, Bool-cases,
}
use muddled.Hashmap.Defs.{HashEntry}
use muddled.Hashmap.Probe.{entry, Probes-map}
use muddled.Hashmap.Search.{IsPassed, IsOther, IsAt}
use muddled.Hashmap.Route.{
  search, Route, home_lt, Probes-unique, key_apart, same_index, not_other, search-Probes,
  search_placed, search_found, search_total,
}
use muddled.Hashmap.Invariant.{home, stride, IsSized, IsFilled, IsPlaced, IsTidy, entry-set}

-- the key `k` is written at `j`
module _ (t : List HashEntry) (j k : ℕ) (e : HashEntry) (here : j < length t)
    (free : ((entry t j).active ≡ false) ⊎ IsAt t (pos k) j) (full : (e.value == 0) ≡ false)
    (key : (e.key ==ℤ pos k) ≡ true) where
  entry_kept : (x : ℕ) → (j == x) ≡ false → entry (set t j e) x ≡ entry t x
  entry_kept x differs = entry-set t j x e here ∙ rw (differs) refl

  other-IsPassed :
      IsFilled t → (x : ℕ) → x < length t → IsOther t (pos k) x → IsPassed (set t j e) (pos k) x
  other-IsPassed filled x h (live, other) = elim (Bool-cases (j == x)) [
    | inl same ↦
        absurd (
          not_other t (pos k) j free
            (subst (IsOther t (pos k)) (same_index j x same) (live, other)))
    | inr apart ↦ rw (entry-set t j x e here, apart) (other, filled x h live)
  ]

  IsPassed-set :
      (m x : ℕ) → m ≢ k → x < length t → IsPassed t (pos m) x → IsPassed (set t j e) (pos m) x
  IsPassed-set m x apart h (other, nz) = elim (Bool-cases (j == x)) [
    | inl same ↦ rw (entry-set t j x e here, same) (key_apart e.key m k apart key, full)
    | inr apart ↦ rw (entry-set t j x e here, apart) (other, nz)
  ]

  pub sized-set : IsSized t → 2 < length (set t j e)
  sized-set sized = rw (length-set t j e) sized

  Route-set : (m x : ℕ) (P : ℕ → Type 0) → Route (length t) m P x → Route (length (set t j e)) m P x
  Route-set m x P r = rw (length-set t j e) r

  Route-written :
      IsSized t
      → IsFilled t
      → Route (length t) k (IsOther t (pos k)) j
      → Route (length (set t j e)) k (IsPassed (set t j e) (pos k)) j
  Route-written sized filled p =
      let n = length t in
      Route-set k j (IsPassed (set t j e) (pos k)) (
        Probes-map n (stride n k) (IsOther t (pos k)) (IsPassed (set t j e) (pos k)) j n (home n k)
          (omega arith) (other-IsPassed filled) (home_lt n k sized) p)

  -- the search for the key itself finds what is written
  pub search-set :
      IsSized t
      → IsFilled t
      → e.active ≡ true
      → Route (length t) k (IsOther t (pos k)) j
      → search (set t j e) k ≡ some e.value
  search-set sized filled live p =
      search-Probes (set t j e) (sized-set sized) j k
        (rw (entry-set t j j e here, ==_refl j) (live, key)) (Route-written sized filled p)
      ∙ rw (entry-set t j j e here, ==_refl j) refl

  -- another key is not at the entry, before and after
  elsewhere : (m x : ℕ) → m ≢ k → IsAt t (pos m) x → (j == x) ≡ false
  elsewhere m x apart (live, at) = elim (Bool-cases (j == x)) [
    | inr differs ↦ differs
    | inl same ↦ absurd (
        not_other t (pos k) j free (
          subst (IsOther t (pos k)) (same_index j x same)
            (live, key_apart (entry t x).key k m (λ f. apart (sym f)) at)))
  ]

  elsewhere_after : (m x : ℕ) → m ≢ k → IsAt (set t j e) (pos m) x → (j == x) ≡ false
  elsewhere_after m x apart (live, at) = elim (Bool-cases (j == x)) [
    | inr differs ↦ differs
    | inl same ↦
        let at' : (e.key ==ℤ pos m) ≡ true = ground (arith, entry-set t j x e here) in
        absurd (ground (arith, key_apart e.key m k apart key))
  ]

  Route-set_other :
      (m x : ℕ)
      → m ≢ k
      → IsSized t
      → Route (length t) m (IsPassed t (pos m)) x
      → Route (length (set t j e)) m (IsPassed (set t j e) (pos m)) x
  Route-set_other m x apart sized p =
      let n = length t in
      Route-set m x (IsPassed (set t j e) (pos m)) (
        Probes-map n (stride n m) (IsPassed t (pos m)) (IsPassed (set t j e) (pos m)) x n (home n m)
          (omega arith) (λ y. IsPassed-set m y apart) (home_lt n m sized) p)

  -- what was found is found
  search-set_kept :
      (m x : ℕ)
      → m ≢ k
      → IsSized t
      → IsAt t (pos m) x
      → Route (length t) m (IsPassed t (pos m)) x
      → search (set t j e) m ≡ some (entry t x).value
  search-set_kept m x apart sized at p =
      let differs = elsewhere m x apart at in
      search-Probes (set t j e) (sized-set sized) x m (rw (entry-set t j x e here, differs) at)
        (Route-set_other m x apart sized p)
      ∙ rw (entry-set t j x e here, differs) refl

  -- and nothing else is
  search-set_none :
      (m : ℕ)
      → m ≢ k
      → IsSized t
      → IsFilled t
      → IsPlaced t
      → search t m ≡ some 0
      → search (set t j e) m ≡ some 0
  search-set_none m apart sized filled placed none_yet =
      let (v, found) = search_total (set t j e) (sized-set sized) m in
      elim (Bool-cases (v == 0)) [
        | inl zero_v ↦ ground (arith, found)
        | inr nz ↦
            let (x, h, p, at) =
              search_found (set t j e) (sized-set sized) m v (ground arith) found in
            let h' : x < length t = rw (sym (length-set t j e)) h in
            let differs = elsewhere_after m x apart at in
            let same : entry (set t j e) x ≡ entry t x = entry_kept x differs in
            let at' : IsAt t (pos m) x =
              subst (λ f. (f.active ≡ true) × ((f.key ==ℤ pos m) ≡ true)) same at in
            absurd (ground (arith, search_placed t sized x m placed h' at', filled x h' at'.0))
      ]

  -- the searches for the others stay
  pub search-set_other :
      (m : ℕ) → m ≢ k → IsSized t → IsFilled t → IsPlaced t → search (set t j e) m ≡ search t m
  search-set_other m apart sized filled placed =
      let (v, found) = search_total t sized m in
      elim (Bool-cases (v == 0)) [
        | inl zero_v ↦
            let none_yet : search t m ≡ some 0 = ground (arith, found) in
            search-set_none m apart sized filled placed none_yet ∙ sym none_yet
        | inr nz ↦
            let (x, h, p, at) = search_found t sized m v (ground arith) found in
            search-set_kept m x apart sized at p ∙ sym (search-Probes t sized x m at p)
      ]

  pub IsFilled-set : IsFilled t → IsFilled (set t j e)
  IsFilled-set filled x h live = elim (Bool-cases (j == x)) [
    | inl same ↦ rw (entry-set t j x e here, same) full
    | inr differs ↦
        rw (entry-set t j x e here, differs)
          (filled x (rw (sym (length-set t j e)) h)
            (sym (ap (λ f. f.active) (entry_kept x differs)) ∙ live))
  ]

  pub IsTidy-set : e.active ≡ true → IsTidy t → IsTidy (set t j e)
  IsTidy-set live tidy x h dead = elim (Bool-cases (j == x)) [
    | inl same ↦ absurd (ground (arith, entry-set t j x e here))
    | inr differs ↦
        rw (entry-set t j x e here, differs)
          (tidy x (rw (sym (length-set t j e)) h)
            (sym (ap (λ f. f.active) (entry_kept x differs)) ∙ dead))
  ]

  tidy-IsOther : IsTidy t → (x : ℕ) → x < length t → IsPassed t (pos k) x → IsOther t (pos k) x
  tidy-IsOther tidy x h (other, nz) = elim (Bool-cases (entry t x).active) [
    | inl live ↦ (live, other)
    | inr dead ↦ absurd (ground (arith, tidy x h dead))
  ]

  -- the entry that is written is the only one with the key
  only_here :
      IsSized t
      → IsTidy t
      → Route (length t) k (IsOther t (pos k)) j
      → (x : ℕ) → IsAt t (pos k) x
      → Route (length t) k (IsPassed t (pos k)) x
      → x ≡ j
  only_here sized tidy p x at q =
      let n = length t in
      Probes-unique n (stride n k) (IsOther t (pos k)) j x n (home n k) (not_other t (pos k) j free)
        (not_other t (pos k) x (inr at)) p
        (Probes-map n (stride n k) (IsPassed t (pos k)) (IsOther t (pos k)) x n (home n k)
          (omega arith) (tidy-IsOther tidy) (home_lt n k sized) q)

  pub IsPlaced-set :
      IsSized t
      → IsFilled t
      → IsPlaced t
      → IsTidy t
      → Route (length t) k (IsOther t (pos k)) j
      → IsPlaced (set t j e)
  IsPlaced-set sized filled placed tidy p x h live = elim (Bool-cases (j == x)) [
    | inl same ↦
        let written : entry (set t j e) x ≡ e = entry-set t j x e here ∙ rw (same) refl in
        let keyed : (entry (set t j e) x).key ≡ pos k =
          ap (λ (f : HashEntry). f.key) written ∙ ==ℤ_sound e.key (pos k) key in
        (
          k,
          keyed,
          subst (λ y. Route (length (set t j e)) k (IsPassed (set t j e) (pos k)) y)
              (sym (same_index j x same)) (Route-written sized filled p),
        )
    | inr differs ↦
        let h' : x < length t = rw (sym (length-set t j e)) h in
        let live' : (entry t x).active ≡ true =
          sym (ap (λ (f : HashEntry). f.active) (entry_kept x differs)) ∙ live in
        let (m, em, q) = placed x h' live' in
        let kept : (entry (set t j e) x).key ≡ pos m =
          ap (λ (f : HashEntry). f.key) (entry_kept x differs) ∙ em in
        elim (Bool-cases (m == k)) [
          | inr apart ↦ (m, kept, Route-set_other m x (ground (arith, apart)) sized q)
          | inl equal ↦
              let em' : (entry t x).key ≡ pos k = em ∙ ap pos (ground arith) in
              absurd (
                ground (
                  arith,
                  differs,
                  only_here sized tidy p x (live', rw (em') (==ℤ_refl (pos k)))
                      (subst (λ y. Route (length t) y (IsPassed t (pos y)) x)
                        (sym (same_index m k equal)) q),
                ))
        ]
  ]
