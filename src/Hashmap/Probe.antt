-- ===== src/Hashmap/Probe.antt =====
-- The probes of src/hashmap.c, one step at a time, for keys that are not negative.
use muddled.Base.Int.{ℤ, pos, ◌==ℤ◌}
use muddled.Base.{
  ℕ, zero, suc, ◌+◌, ◌%◌, ◌<◌, true, false, List, [], ◌∷◌, ◌⊎◌, inl, inr, some, ◌≡◌, refl, arith,
  length, get_elem?, get_or, set, ◌==◌, if◌then◌else◌,
}
use muddled.Hashmap.Defs.{HashEntry, blank, next_index, insert_loop, stored, get_loop, remove_loop}

abbrev pub entry : List HashEntry → ℕ → HashEntry
entry t i = get_or t i blank

pub entry_lem : (t : List HashEntry) (i : ℕ) → i < length t → get_elem? t i ≡ some (entry t i)
entry_lem [] i h = absurd (omega arith)
entry_lem (e ∷ t) zero h = refl
entry_lem (e ∷ t) (suc i) h = entry_lem t i (omega arith)

-- the index of the next probe in `n` entries
abbrev pub step_on : ℕ → ℕ → ℕ → ℕ
step_on n s i = (i + s) % n

pub step_on_lt : (n s i : ℕ) → 0 < n → step_on n s i < n
step_on_lt n s i h = omega arith

pub next_index_lem : (n i s : ℕ) → next_index n (pos i) (pos s) ≡ pos (step_on n s i)
next_index_lem n i s = ground arith

-- within `left` probes from `i` on, `j` is met, behind entries that are all `P`
abbrev pub Probes : ℕ → ℕ → (ℕ → Type 0) → ℕ → ℕ → ℕ → Type 0
Probes n s P j zero i = ⊥
Probes n s P j (suc left) i = (j ≡ i) ⊎ (P i × Probes n s P j left (step_on n s i))

pub Probes-map :
    (n s : ℕ) (P Q : ℕ → Type 0) (j left i : ℕ)
    → 0 < n
    → ((x : ℕ) → x < n → P x → Q x)
    → i < n
    → Probes n s P j left i
    → Probes n s Q j left i
Probes-map n s P Q j zero i filled f h p = p
Probes-map n s P Q j (suc left) i filled f h (inl e) = inl e
Probes-map n s P Q j (suc left) i filled f h (inr (p, r)) =
    inr (f i h p, Probes-map n s P Q j left (step_on n s i) filled f (step_on_lt n s i filled) r)

module _ (t : List HashEntry) (k : ℤ) (s left i : ℕ) (h : i < length t) where
  pub get_step : get_loop (suc left) t (pos i) (pos s) k ≡ (
      if (entry t i).key ==ℤ k
      then some (if (entry t i).active then (entry t i).value else 0)
      else if (entry t i).value == 0
      then some 0
      else get_loop left t (pos (step_on (length t) s i)) (pos s) k)
  unfolding get_loop
  get_step = rw (get_loop, entry_lem t i h, next_index_lem (length t) i s) refl

  pub remove_step : remove_loop (suc left) t (pos i) (pos s) k ≡ (
      if (entry t i).value == 0
      then some (t, 0)
      else if (entry t i).key ==ℤ k
      then (if (entry t i).active
          then some (set t i (record (entry t i) { active = false }), (entry t i).value)
          else some (t, 0))
      else remove_loop left t (pos (step_on (length t) s i)) (pos s) k)
  unfolding remove_loop
  remove_step = rw (remove_loop, entry_lem t i h, next_index_lem (length t) i s) refl

  pub insert_step :
      (v : ℕ)
      → insert_loop (suc left) t (pos i) (pos s) v k ≡ (
          if (entry t i).active
          then (if (entry t i).key ==ℤ k
              then stored (set t i (record (entry t i) { value = v })) false
              else insert_loop left t (pos (step_on (length t) s i)) (pos s) v k)
          else stored (set t i (record { value = v; active = true; key = k })) true)
  unfolding insert_loop
  insert_step v = rw (insert_loop, entry_lem t i h, next_index_lem (length t) i s) refl
