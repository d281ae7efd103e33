-- ===== src/Str/Compare/Parts.antt =====
-- What str_infix and str_suffix of src/str.c decide.
use mathlib.Core.List.{cons-ne-nil}
use muddled.Base.{
  ℕ, zero, suc, ◌+◌, ◌-◌, ◌^◌, ◌≤◌, ◌<◌, true, false, not, ◌&&◌, [], ◌∷◌, map, ◌≢◌, ◌↔◌, inl, inr,
  none, some, ◌≡◌, refl, arith, Text, tolower, Lacks, length, drop, ◌==◌, ==_refl, Bool-cases,
}
use muddled.Str.Compare.Laws.{IsPrefixOf, str_cmp_iff, str_prefix_iff}
use muddled.Str.Compare.{str_prefix, str_infix_loop, infix_last, str_infix, str_suffix}

-- `s` stands somewhere in `t`, up to the case of letters
abbrev pub IsInfixOf : Text → Text → Type 0
IsInfixOf s t = (k : ℕ) × (k + length s ≤ length t) × IsPrefixOf s (drop k t)

drop-Lacks : (n : ℕ) (t : Text) → Lacks 0 t → Lacks 0 (drop n t)
drop-Lacks zero t h = h
drop-Lacks (suc n) [] h = h
drop-Lacks (suc n) (d ∷ t) h = drop-Lacks n t h.1

length-IsPrefixOf : (s t : Text) → IsPrefixOf s t → length s ≤ length t
length-IsPrefixOf [] t h = omega arith
length-IsPrefixOf (c ∷ s) [] h = cc
length-IsPrefixOf (c ∷ s) (d ∷ t) h =
    let tail : IsPrefixOf s t = cc in omega (arith, length-IsPrefixOf s t tail)

module _ (c : ℕ) (s : Text) (hs : Lacks 0 (c ∷ s)) where
  -- the test of one round
  hit_sound :
      (d : ℕ) (t : Text)
      → (tolower c == tolower d && not (str_prefix (some (c ∷ s)) (some (d ∷ t)))) ≡ true
      → IsPrefixOf (c ∷ s) (d ∷ t)
  hit_sound d t h = ((str_prefix_iff (c ∷ s) (d ∷ t) hs).0 (ground arith)).1

  hit_complete :
      (d : ℕ) (t : Text)
      → IsPrefixOf (c ∷ s) (d ∷ t)
      → (tolower c == tolower d && not (str_prefix (some (c ∷ s)) (some (d ∷ t)))) ≡ true
  hit_complete d t p =
      let same : tolower c ≡ tolower d = cc in
      let found = (str_prefix_iff (c ∷ s) (d ∷ t) hs).1 (cons-ne-nil c s, p) in
      rw (found, same, ==_refl (tolower d))

  loop_sound :
      (left : ℕ) (t : Text)
      → str_infix_loop (tolower c) (c ∷ s) left t ≡ some false
      → (k : ℕ) × (k ≤ left) × IsPrefixOf (c ∷ s) (drop k t)
  unfolding str_infix_loop
  loop_sound left [] h = absurd (ground arith)
  loop_sound left (d ∷ t) h =
      elim (Bool-cases (tolower c == tolower d && not (str_prefix (some (c ∷ s)) (some (d ∷ t))))) [
        | inl found ↦ (0, omega arith, hit_sound d t found)
        | inr other ↦
            let more : (left ≢ 0) × (str_infix_loop (tolower c) (c ∷ s) (left - 1) t ≡ some false) =
              ground arith in
            let (k, le, p) = loop_sound (left - 1) t more.1 in (suc k, omega arith, p)
      ]

  loop_complete :
      (left k : ℕ) (t : Text)
      → k ≤ left
      → IsPrefixOf (c ∷ s) (drop k t)
      → str_infix_loop (tolower c) (c ∷ s) left t ≡ some false
  unfolding str_infix_loop
  loop_complete left zero [] h p = cc
  loop_complete left (suc k) [] h p = cc
  loop_complete left zero (d ∷ t) h p = rw (hit_complete d t p)
  loop_complete left (suc k) (d ∷ t) h p =
      ground (arith, loop_complete (left - 1) k t (omega arith) p)

  loop_total :
      (left : ℕ) (t : Text) → left ≤ length t → str_infix_loop (tolower c) (c ∷ s) left t ≢ none
  unfolding str_infix_loop
  loop_total left [] h = ground arith
  loop_total left (d ∷ t) h = ground (arith, loop_total (left - 1) t)

  loop_faults :
      (left : ℕ) (t : Text)
      → length t < left
      → length t < length (c ∷ s)
      → str_infix_loop (tolower c) (c ∷ s) left t ≡ none
  unfolding str_infix_loop
  loop_faults left [] h k = ground arith
  loop_faults left (d ∷ t) h k =
      elim (Bool-cases (tolower c == tolower d && not (str_prefix (some (c ∷ s)) (some (d ∷ t))))) [
        | inl found ↦
            absurd (omega (arith, length-IsPrefixOf (c ∷ s) (d ∷ t) (hit_sound d t found)))
        | inr other ↦ ground (arith, loop_faults (left - 1) t)
      ]

-- If `astr` is not empty and no longer than `bstr`, the search ends, and reports a part exactly when
-- `astr` stands in `bstr` up to the case of letters.
pub str_infix_iff :
    (s t : Text)
    → Lacks 0 s
    → s ≢ []
    → length s ≤ length t
    → length t < 2 ^ 64
    → (str_infix (some s) t ≢ none) × ((str_infix (some s) t ≡ some false) ↔ IsInfixOf s t)
unfolding str_infix
str_infix_iff [] t hs nonempty le size = absurd (nonempty refl)
str_infix_iff (c ∷ s) t hs nonempty le size =
    let last : infix_last (c ∷ s) t ≡ length t - length (c ∷ s) = omega arith in
    let letter : (tolower c == 0) ≡ false = ground arith in
    rw (letter, last)
      (
        loop_total c s hs _ t (omega arith),
        (
          λ h. let (k, below, p) = loop_sound c s hs _ t h in (k, omega arith, p),
          λ (k, below, p). loop_complete c s hs _ k t (omega arith) p,
        ),
      )

-- If a non-empty `astr` is longer than `bstr`, the unsigned difference of the lengths wraps, and the
-- search always reads behind the terminator of `bstr`.
pub str_infix_reads_beyond :
    (s t : Text) → Lacks 0 s → length t < length s → length s < 2 ^ 63 → str_infix (some s) t ≡ none
unfolding str_infix
str_infix_reads_beyond [] t hs lt size = absurd (omega arith)
str_infix_reads_beyond (c ∷ s) t hs lt size =
    let letter : (tolower c == 0) ≡ false = ground arith in
    rw letter (loop_faults c s hs _ t (omega arith) lt)

-- `str_suffix` reports a suffix exactly when `astr` is no longer than `bstr` and equals its end, up
-- to the case of letters.
pub str_suffix_iff :
    (s t : Text)
    → Lacks 0 s
    → Lacks 0 t
    → (str_suffix s t ≡ false)
      ↔ ((length s ≤ length t) × (map tolower s ≡ map tolower (drop (length t - length s) t)))
unfolding str_suffix
str_suffix_iff s t hs ht =
    let same =
      str_cmp_iff s (drop (length t - length s) t) hs (drop-Lacks (length t - length s) t ht) in
    (λ h. (ground arith, same.0 (ground arith)), λ h. let yes_same = same.1 h.1 in ground arith)
