-- ===== src/Update/Affects.antt =====
-- The affects of a character in `character_update` of src/server/update.c.
use muddled.Base.{
  ℕ, zero, suc, ◌+◌, ◌-◌, false, ◌&&◌, List, [], ◌∷◌, map, inl, inr, Option, none, some, ◌≡◌, refl,
  sym, ap, ◌∙◌, arith, ltb, ◌==◌, if◌then◌else◌, lt→ltb, Bool-cases, Option-cases,
}
use muddled.Base.Int.{ℤ, pos, negsuc, ◌-ℤ◌, ltb_ℤ, ◌==ℤ◌}
use muddled.Affect.{Affect, Stats, affect_modify}

-- an affect with the members that time changes; the list of a character is the list of these
pub record Timed : Type 0 where
  pub affect : Affect
  pub duration : ℤ
  pub level : ℤ

-- One affect, with what number_range(0, 4) gives; `none` is one whose time is over.
pub age_affect : ℕ → Timed → Option Timed
age_affect roll paf =
    if ltb_ℤ (pos 0) paf.duration
    then some (record paf {
      duration = paf.duration -ℤ pos 1;
      level = if roll == 0 && ltb_ℤ (pos 0) paf.level then paf.level -ℤ pos 1 else paf.level;
    })
    else if paf.duration ==ℤ pos 0
    then none
    else some paf

-- The loop over the affects, where `roll k` is what the k-th call of number_range(0, 4) gives. An
-- affect whose time is over is removed, which takes its modifier back.
pub age_affects : (ℕ → ℕ) → ℕ → List Timed → Stats → List Timed × Stats
age_affects roll k [] ch = ([], ch)
age_affects roll k (paf ∷ pafs) ch =
    let k' = if ltb_ℤ (pos 0) paf.duration then k + 1 else k in
    elim (age_affect (roll k) paf) [
      | none ↦ age_affects roll k' pafs (affect_modify paf.affect false ch)
      | some paf' ↦ let (rest, ch') = age_affects roll k' pafs ch in (paf' ∷ rest, ch')
    ]

-- a number of updates, each with draws of its own
pub age_for : (ℕ → ℕ → ℕ) → ℕ → List Timed → Stats → List Timed × Stats
unfolding age_affects
age_for roll zero pafs ch = (pafs, ch)
age_for roll (suc n) pafs ch =
    let (later, ch') = age_for roll n pafs ch in age_affects (roll n) 0 later ch'

-- what is left of a duration after `n` updates: `none` if it is over; one below 0 never is
abbrev pub remaining : ℕ → ℤ → Option ℤ
remaining n (pos d) = if ltb d n then none else some (pos (d - n))
remaining n (negsuc d) = some (negsuc d)

abbrev pub keep : Affect → Option ℤ → List (Affect × ℤ) → List (Affect × ℤ)
keep a none rest = rest
keep a (some d) rest = (a, d) ∷ rest

-- the affects that are left after `n` updates, with the time that is left
abbrev pub left_after : ℕ → List (Affect × ℤ) → List (Affect × ℤ)
left_after n [] = []
left_after n ((a, d) ∷ rest) = keep a (remaining n d) (left_after n rest)

abbrev pub shown : Timed → Affect × ℤ
shown paf = (paf.affect, paf.duration)

abbrev shown? : Option Timed → List (Affect × ℤ) → List (Affect × ℤ)
shown? none rest = rest
shown? (some paf) rest = shown paf ∷ rest

age_affect_lem :
    (roll : ℕ) (paf : Timed) (d : ℤ) (rest : List (Affect × ℤ))
    → paf.duration ≡ d
    → shown? (age_affect roll paf) rest ≡ keep paf.affect (remaining 1 d) rest
unfolding age_affect
age_affect_lem roll paf (pos zero) rest e = rw e refl
age_affect_lem roll paf (pos (suc d)) rest e = rw e (ground arith)
age_affect_lem roll paf (negsuc d) rest e = rw e (ground arith)

-- the place of the next draw
abbrev next_draw : ℕ → Timed → ℕ
next_draw k paf = if ltb_ℤ (pos 0) paf.duration then k + 1 else k

module _ (roll : ℕ → ℕ) (k : ℕ) (paf : Timed) (pafs : List Timed) (ch : Stats) where
  age_affects_gone :
      age_affect (roll k) paf ≡ none
      → age_affects roll k (paf ∷ pafs) ch
        ≡ age_affects roll (next_draw k paf) pafs (affect_modify paf.affect false ch)
  unfolding age_affects
  age_affects_gone h = rw (h, age_affects) refl

  age_affects_kept :
      (paf' : Timed)
      → age_affect (roll k) paf ≡ some paf'
      → (age_affects roll k (paf ∷ pafs) ch).0
        ≡ paf' ∷ (age_affects roll (next_draw k paf) pafs ch).0
  unfolding age_affects
  age_affects_kept paf' h = rw (h, age_affects) refl

age_affects_lem :
    (roll : ℕ → ℕ) (k : ℕ) (pafs : List Timed) (ch : Stats)
    → map shown (age_affects roll k pafs ch).0 ≡ left_after 1 (map shown pafs)
age_affects_lem roll k [] ch = unfold age_affects in refl
age_affects_lem roll k (paf ∷ pafs) ch =
    let step = age_affect_lem (roll k) paf paf.duration (left_after 1 (map shown pafs)) refl in
    elim (Option-cases (age_affect (roll k) paf)) [
      | inl gone ↦
          ap (λ r. map shown r.0) (age_affects_gone roll k paf pafs ch gone)
          ∙ age_affects_lem roll (next_draw k paf) pafs (affect_modify paf.affect false ch)
          ∙ ap (λ o. shown? o (left_after 1 (map shown pafs))) (sym gone)
          ∙ step
      | inr (paf', kept) ↦
          ap (map shown) (age_affects_kept roll k paf pafs ch paf' kept)
          ∙ ap (λ r. shown paf' ∷ r) (age_affects_lem roll (next_draw k paf) pafs ch)
          ∙ ap (λ o. shown? o (left_after 1 (map shown pafs))) (sym kept)
          ∙ step
    ]

remaining_step : (n d : ℕ) → ltb d n ≡ false → remaining 1 (pos (d - n)) ≡ remaining (suc n) (pos d)
remaining_step n d h = ground arith

remaining_next :
    (n : ℕ) (a : Affect) (d : ℤ) (rest : List (Affect × ℤ))
    → left_after 1 (keep a (remaining n d) rest) ≡ keep a (remaining (suc n) d) (left_after 1 rest)
remaining_next n a (pos d) rest = elim (Bool-cases (ltb d n)) [
  | inl gone ↦ rw (gone, lt→ltb d (suc n) (ground arith)) refl
  | inr here ↦ rw here (ap (λ o. keep a o (left_after 1 rest)) (remaining_step n d here))
]
remaining_next n a (negsuc d) rest = refl

left_after_next :
    (n : ℕ) (pafs : List (Affect × ℤ)) → left_after 1 (left_after n pafs) ≡ left_after (suc n) pafs
left_after_next n [] = refl
left_after_next n ((a, d) ∷ rest) =
    remaining_next n a d (left_after n rest)
    ∙ ap (keep a (remaining (suc n) d)) (left_after_next n rest)

left_after_none : (pafs : List (Affect × ℤ)) → left_after 0 pafs ≡ pafs
left_after_none [] = refl
left_after_none ((a, pos d) ∷ rest) = rw (left_after_none rest) (ground arith)
left_after_none ((a, negsuc d) ∷ rest) = ap (λ r. (a, negsuc d) ∷ r) (left_after_none rest)

-- After `n` updates just those affects are left whose duration was at least `n`, in their order and
-- with `n` less, and those with a duration below 0, which stays.
pub age_for_lem :
    (roll : ℕ → ℕ → ℕ) (n : ℕ) (pafs : List Timed) (ch : Stats)
    → map shown (age_for roll n pafs ch).0 ≡ left_after n (map shown pafs)
unfolding age_for
age_for_lem roll zero pafs ch = sym (left_after_none (map shown pafs))
age_for_lem roll (suc n) pafs ch =
    let (later, ch') = age_for roll n pafs ch in
    age_affects_lem (roll n) 0 later ch'
    ∙ ap (left_after 1) (age_for_lem roll n pafs ch)
    ∙ left_after_next n (map shown pafs)
