-- ===== src/Hashmap/Search.antt =====
-- What the loops of src/hashmap.c find along their probes.
use muddled.Base.Int.{ℤ, pos, ◌==ℤ◌, ==ℤ_refl}
use muddled.Base.{
  ℕ, zero, suc, ◌<◌, Bool, true, false, not, List, [], ◌≢◌, ◌⊎◌, inl, inr, some, ◌≡◌, refl, sym, ap,
  ◌∙◌, arith, length, set, ◌==◌, if◌then◌else◌, Bool-cases,
}
use muddled.Hashmap.Defs.{HashEntry, insert_loop, Insertion, stored, no_room, outside, get_loop}
use muddled.Hashmap.Probe.{entry, step_on, step_on_lt, Probes, get_step, insert_step}

-- a search for the key goes on behind the entry
abbrev pub IsPassed : List HashEntry → ℤ → ℕ → Type 0
IsPassed t k x = (((entry t x).key ==ℤ k) ≡ false) × (((entry t x).value == 0) ≡ false)

-- the entry is in use, for another key or for the key
abbrev pub IsOther : List HashEntry → ℤ → ℕ → Type 0
IsOther t k x = ((entry t x).active ≡ true) × (((entry t x).key ==ℤ k) ≡ false)

abbrev pub IsAt : List HashEntry → ℤ → ℕ → Type 0
IsAt t k x = ((entry t x).active ≡ true) × (((entry t x).key ==ℤ k) ≡ true)

-- what `t'` is after the key is written in `t` at `j`
abbrev pub IsWritten : List HashEntry → List HashEntry → ℤ → ℕ → Bool → ℕ → Type 0
IsWritten t t' k v fresh j =
    (e : HashEntry) × (t' ≡ set t j e)
    × (e.active ≡ true)
    × (e.value ≡ v)
    × ((e.key ==ℤ k) ≡ true)
    × (((entry t j).active ≡ false) ⊎ IsAt t k j)
    × (fresh ≡ not (entry t j).active)

abbrev table_of : Insertion → List HashEntry
table_of (stored t f) = t
table_of no_room = []
table_of outside = []

abbrev flag_of : Insertion → Bool
flag_of (stored t f) = f
flag_of no_room = false
flag_of outside = false

module _ (t : List HashEntry) (k : ℤ) (s : ℕ) (filled : 0 < length t) where
  pub get_loop-Probes :
      (left i j : ℕ)
      → i < length t
      → Probes (length t) s (IsPassed t k) j left i
      → ((entry t j).key ==ℤ k) ≡ true
      → get_loop left t (pos i) (pos s) k
        ≡ some (if (entry t j).active then (entry t j).value else 0)
  get_loop-Probes zero i j h p at = absurd p
  get_loop-Probes (suc left) i j h (inl here) at = rw (get_step t k s left i h, sym here, at) refl
  get_loop-Probes (suc left) i j h (inr ((other, full), p)) at =
      rw (get_step t k s left i h, other, full)
        (get_loop-Probes left (step_on (length t) s i) j (step_on_lt (length t) s i filled) p at)

  pub get_loop_total :
      (left i : ℕ) → i < length t → (v : ℕ) × (get_loop left t (pos i) (pos s) k ≡ some v)
  unfolding get_loop
  get_loop_total zero i h = (0, refl)
  get_loop_total (suc left) i h =
      let (v, e) =
        get_loop_total left (step_on (length t) s i) (step_on_lt (length t) s i filled) in
      elim (Bool-cases ((entry t i).key ==ℤ k)) [
        | inl at ↦ (
          if (entry t i).active then (entry t i).value else 0,
          rw (get_step t k s left i h, at) refl,
        )
        | inr other ↦ elim (Bool-cases ((entry t i).value == 0)) [
          | inl empty ↦ (0, rw (get_step t k s left i h, other, empty) refl)
          | inr full ↦ (v, rw (get_step t k s left i h, other, full) e)
        ]
      ]

  get_loop_ended : (i : ℕ) → get_loop 0 t (pos i) (pos s) k ≡ some 0
  unfolding get_loop
  get_loop_ended i = refl

  insert_loop_ended : (i v : ℕ) → insert_loop 0 t (pos i) (pos s) v k ≡ no_room
  unfolding insert_loop
  insert_loop_ended i v = refl

  pub get_loop_found :
      (left i v : ℕ)
      → i < length t
      → v ≢ 0
      → get_loop left t (pos i) (pos s) k ≡ some v
      → (j : ℕ) × (j < length t) × Probes (length t) s (IsPassed t k) j left i × IsAt t k j
  get_loop_found zero i v h nz e = absurd (ground (arith, get_loop_ended i))
  get_loop_found (suc left) i v h nz e =
      let e' = sym (get_step t k s left i h) ∙ e in
      elim (Bool-cases ((entry t i).key ==ℤ k)) [
        | inl at ↦ elim (Bool-cases (entry t i).active) [
          | inl live ↦ (i, h, inl refl, (live, at))
          | inr dead ↦ absurd (ground (arith, e', at, dead))
        ]
        | inr other ↦ elim (Bool-cases ((entry t i).value == 0)) [
          | inl empty ↦ absurd (ground (arith, e', other, empty))
          | inr full ↦
              let e'' : get_loop left t (pos (step_on (length t) s i)) (pos s) k ≡ some v =
                ground (arith, e', other, full) in
              let (j, hj, p, at) =
                get_loop_found left (step_on (length t) s i) v (step_on_lt (length t) s i filled) nz
                  e'' in
              (j, hj, inr ((other, full), p), at)
        ]
      ]

  stored_table : (a b : List HashEntry) (x y : Bool) → stored a x ≡ stored b y → b ≡ a
  stored_table a b x y e = sym (ap table_of e)

  stored_flag : (a b : List HashEntry) (x y : Bool) → stored a x ≡ stored b y → y ≡ x
  stored_flag a b x y e = sym (ap flag_of e)

  pub insert_loop_stored :
      (left i v : ℕ) (t' : List HashEntry) (fresh : Bool)
      → i < length t
      → insert_loop left t (pos i) (pos s) v k ≡ stored t' fresh
      → (j : ℕ) × (j < length t)
        × Probes (length t) s (IsOther t k) j left i
        × IsWritten t t' k v fresh j
  insert_loop_stored zero i v t' fresh h e = absurd (ground (arith, insert_loop_ended i v))
  insert_loop_stored (suc left) i v t' fresh h e =
      let e' = sym (insert_step t k s left i h v) ∙ e in
      elim (Bool-cases (entry t i).active) [
        | inl live ↦ elim (Bool-cases ((entry t i).key ==ℤ k)) [
          | inl at ↦ (
            i,
            h,
            inl refl,
            (
              record (entry t i) { value = v },
              stored_table (set t i (record (entry t i) { value = v })) t' false fresh
                  (ground (arith, e', live, at)),
              live,
              refl,
              at,
              inr (live, at),
              rw (live) (
                  stored_flag (set t i (record (entry t i) { value = v })) t' false fresh
                    (ground (arith, e', live, at))),
            ),
          )
          | inr other ↦
              let e'' : insert_loop left t (pos (step_on (length t) s i)) (pos s) v k
                  ≡ stored t' fresh =
                ground (arith, e', live, other) in
              let (j, hj, p, w) =
                insert_loop_stored left (step_on (length t) s i) v t' fresh
                  (step_on_lt (length t) s i filled) e'' in
              (j, hj, inr ((live, other), p), w)
        ]
        | inr dead ↦ (
          i,
          h,
          inl refl,
          (
            record { value = v; active = true; key = k },
            stored_table (set t i (record { value = v; active = true; key = k })) t' true fresh
                (ground (arith, e', dead)),
            refl,
            refl,
            ==ℤ_refl k,
            inl dead,
            rw (dead) (
                stored_flag (set t i (record { value = v; active = true; key = k })) t' true fresh
                  (ground (arith, e', dead))),
          ),
        )
      ]
