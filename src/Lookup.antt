-- ===== src/Lookup.antt =====
-- src/lookup.c: tables of names and values, without the row of zeros that ends them.
use muddled.Base.{
  ℕ, suc, ◌+◌, ◌-◌, ◌^◌, false, not, List, [], ◌∷◌, ◌++◌, ◌≢◌, ◌⊎◌, inl, inr, Option, none, some,
  ◌≡◌, refl, ap, ◌∙◌, arith, Text, length, get_elem?, leb, ◌==◌, if◌then◌else◌, Bool-cases,
}
use muddled.Str.Compare.{str_prefix}

pub record Lookup : Type 0 where
  pub name : Text
  pub value : ℕ

abbrev pub Table : Type 0
Table = List Lookup

-- -1 as a `uintptr_t`
abbrev pub not_found : ℕ
not_found = 2 ^ 64 - 1

pub value_loop : Table → Text → ℕ
value_loop [] arg = not_found
value_loop (t ∷ ts) arg =
    if not (str_prefix (some arg) (some t.name)) then t.value else value_loop ts arg

unfoldable pub value_lookup : Table → Option Text → ℕ
unfolding value_loop
value_lookup table none = not_found
value_lookup table (some []) = not_found
value_lookup table (some (c ∷ s)) = value_loop table (c ∷ s)

pub index_loop : ℕ → Table → Text → Option ℕ
index_loop i [] arg = none
index_loop i (t ∷ ts) arg =
    if not (str_prefix (some arg) (some t.name)) then some i else index_loop (i + 1) ts arg

-- `none` is -1
pub index_lookup : Table → Option Text → Option ℕ
unfolding index_loop
index_lookup table none = none
index_lookup table (some []) = none
index_lookup table (some (c ∷ s)) = index_loop 0 table (c ∷ s)

-- what the loop of `lookup_names` appends
pub names_loop : Table → Text
names_loop [] = []
names_loop (t ∷ ts) = t.name ++ (b' ' ∷ names_loop ts)

-- `none` is a text that is written past the 500 bytes of `buf`
unfoldable pub lookup_names : Table → Option Text
unfolding names_loop
lookup_names table =
    let names = names_loop table in if leb 500 (length names) then none else some names

unfoldable pub lookup_name : Table → ℕ → Option Text
lookup_name [] value = none
lookup_name (t ∷ ts) value = if t.value == value then some t.name else lookup_name ts value

-- what the two loops by name have in common: they stop at the same row
loop_agree :
    (i : ℕ) (ts : Table) (arg : Text)
    → ((index_loop i ts arg ≡ none) × (value_loop ts arg ≡ not_found))
      ⊎ ((k : ℕ) × (row : Lookup) × (index_loop i ts arg ≡ some (i + k))
          × (get_elem? ts k ≡ some row)
          × (value_loop ts arg ≡ row.value)
          × (str_prefix (some arg) (some row.name) ≡ false))
unfolding index_loop value_loop
loop_agree i [] arg = inl (refl, refl)
loop_agree i (t ∷ ts) arg = elim (Bool-cases (str_prefix (some arg) (some t.name))) [
  | inr hit ↦ inr (0, t, (rw hit (ap some (omega arith))), refl, rw hit, hit)
  | inl miss ↦ elim (loop_agree (i + 1) ts arg) [
    | inl (a, b) ↦ inl (rw miss a, rw miss b)
    | inr (k, row, a, b, c, d) ↦
        inr (suc k, row, rw miss (a ∙ ap some (omega arith)), b, rw miss c, d)
  ]
]

-- For a name that is not empty, `index_lookup` and `value_lookup` find the same row: both fail, or
-- the value is that of the row at the index, and the name is a prefix of the row's name.
pub lookup_agree :
    (table : Table) (arg : Text)
    → arg ≢ []
    → ((index_lookup table (some arg) ≡ none) × (value_lookup table (some arg) ≡ not_found))
      ⊎ ((k : ℕ) × (row : Lookup) × (index_lookup table (some arg) ≡ some k)
          × (get_elem? table k ≡ some row)
          × (value_lookup table (some arg) ≡ row.value)
          × (str_prefix (some arg) (some row.name) ≡ false))
unfolding index_lookup value_lookup
lookup_agree table [] h = absurd (h refl)
lookup_agree table (c ∷ s) h = elim (loop_agree 0 table (c ∷ s)) [
  | inl e ↦ inl e
  | inr (k, row, a, b, c, d) ↦ inr (k, row, a ∙ ap some (omega arith), b, c, d)
]
