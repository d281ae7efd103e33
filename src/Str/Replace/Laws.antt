-- ===== src/Str/Replace/Laws.antt =====
-- What str_replace of src/str.c returns, and where str_replace_all does not end.
use muddled.Base.{
  ℕ, zero, suc, ◌+◌, ◌-◌, ◌≤◌, ◌<◌, true, false, [], ◌∷◌, ◌++◌, append_assoc, ◌≢◌, inl, inr, some,
  ◌≡◌, refl, ap, arith, Text, length, take, drop, length-append, length-take, length-drop, leb,
  lt→ltb, Bool-cases, Option-cases,
}
use muddled.Str.Compare.{str_cmp}
use muddled.Str.Replace.{
  starts_with, strstr, out_end, replace_at, str_replace, replace_loop, str_replace_all, spent,
}

starts_with-append : (p s : Text) → starts_with p (p ++ s) ≡ true
starts_with-append [] s = refl
starts_with-append (d ∷ p) s = ground (arith, starts_with-append p s)

starts_with_sound : (p s : Text) → starts_with p s ≡ true → s ≡ p ++ drop (length p) s
starts_with_sound [] s h = refl
starts_with_sound (d ∷ p) [] h = absurd (ground arith)
starts_with_sound (d ∷ p) (c ∷ s) h =
    let same : c ≡ d = ground arith in
    let rest : starts_with p s ≡ true = ground arith in
    rw same (ap (λ r. d ∷ r) (starts_with_sound p s rest))

strstr_sound :
    (s p : Text) (a : ℕ) → strstr s p ≡ some a → s ≡ take a s ++ (p ++ drop (length p) (drop a s))
unfolding strstr
strstr_sound [] p a h = elim (Bool-cases (starts_with p [])) [
  | inl here ↦ let first : a ≡ 0 = ground arith in rw first (starts_with_sound p [] here)
  | inr away ↦ absurd (ground arith)
]
strstr_sound (c ∷ s) p a h = elim (Bool-cases (starts_with p (c ∷ s))) [
  | inl here ↦ let first : a ≡ 0 = ground arith in rw first (starts_with_sound p (c ∷ s) here)
  | inr away ↦ elim (Option-cases (strstr s p)) [
    | inl missing ↦ absurd (ground arith)
    | inr (b, found) ↦
        let next : a ≡ suc b = ground arith in rw next (ap (λ r. c ∷ r) (strstr_sound s p b found))
  ]
]

take_enough : (n : ℕ) (s : Text) → length s ≤ n → take n s ≡ s
take_enough zero [] h = refl
take_enough zero (c ∷ s) h = absurd (omega arith)
take_enough (suc n) [] h = refl
take_enough (suc n) (c ∷ s) h = ap (λ r. c ∷ r) (take_enough n s (omega arith))

-- For texts that are not empty, where the old text is found and the new one fits in the buffer
-- with all the rest, `str_replace` replaces the match that `strstr` finds, and nothing else.
pub str_replace_lem :
    (orig old pnew : Text) (a : ℕ)
    → orig ≢ []
    → old ≢ []
    → strstr orig old ≡ some a
    → length orig < 2048
    → length orig + length pnew ≤ 2044 + length old
    → a + length pnew < 2044
    → (front back : Text) × (orig ≡ front ++ (old ++ back))
      × (front ≡ take a orig)
      × (str_replace orig old (some pnew) ≡ some (front ++ (pnew ++ back)))
unfolding str_replace replace_at
str_replace_lem [] old pnew a p q found size total fits = absurd (p refl)
str_replace_lem (c ∷ s) [] pnew a p q found size total fits = absurd (q refl)
str_replace_lem (c ∷ s) (d ∷ o) pnew a p q found size total fits =
    let orig = c ∷ s in
    let back = drop (length (d ∷ o)) (drop a orig) in
    let apart : leb out_end (a + length pnew) ≡ false = ground arith in
    let small : leb 2048 (length orig) ≡ false = ground arith in
    let whole : take (out_end - a - length pnew) back ≡ back =
      take_enough (out_end - a - length pnew) back
        (omega (arith, length-drop (length (d ∷ o)) (drop a orig), length-drop a orig)) in
    (
      take a orig,
      back,
      strstr_sound orig (d ∷ o) a found,
      refl,
      rw (str_replace, found, replace_at, apart, small, whole) refl,
    )

found_here : (d : ℕ) (o s : Text) → strstr (d ∷ o ++ s) (d ∷ o) ≡ some 0
unfolding strstr
found_here d o s = rw (strstr, starts_with-append (d ∷ o) s) refl

-- the replacement at the front begins with the old text again, and fits the buffer
replaced :
    (d : ℕ) (o x s : Text)
    → length (d ∷ o ++ x) < 2044
    → length (d ∷ o ++ s) < 2048
    → (s' : Text) × (str_replace (d ∷ o ++ s) (d ∷ o) (some (d ∷ o ++ x)) ≡ some (d ∷ o ++ s'))
      × (length (d ∷ o ++ s') < 2048)
unfolding str_replace replace_at
replaced d o x s h small =
    let room = out_end - 0 - length (d ∷ o ++ x) in
    let after = drop (length (d ∷ o)) (d ∷ o ++ s) in
    let fits : leb out_end (0 + length (d ∷ o ++ x)) ≡ false = ground arith in
    let within : leb 2048 (length (d ∷ o ++ s)) ≡ false = ground arith in
    (
      x ++ take room after,
      rw (str_replace, found_here d o s, replace_at, fits, within)
          (ap some (append_assoc (d ∷ o) x (take room after))),
      omega (
        arith,
        length-append (d ∷ o) x,
        length-append (d ∷ o) (x ++ take room after),
        length-append x (take room after),
        length-take room after,
      ),
    )

loop_on :
    (d : ℕ) (o x : Text)
    → length (d ∷ o ++ x) < 2044
    → (fuel : ℕ) (s : Text) → length (d ∷ o ++ s) < 2048
    → replace_loop strstr str_replace fuel (d ∷ o ++ s) (d ∷ o) (d ∷ o ++ x) ≡ spent
unfolding replace_loop
loop_on d o x h zero s small = refl
loop_on d o x h (suc fuel) s small =
    let (s', e, small') = replaced d o x s h small in
    rw (replace_loop, found_here d o s, lt→ltb (0 + length (d ∷ o ++ x)) 2044 (omega arith), e)
      (loop_on d o x h fuel s' small')

-- If the text begins with the old text and so does the new one, which is another one up to case and
-- shorter than 2044 bytes, and the text is shorter than the buffer of 2048 bytes, then
-- str_replace_all does not end: every round of its loop, however many there are, replaces within
-- the buffer and goes on.
pub str_replace_all_endless :
    (d : ℕ) (o x s : Text)
    → length (d ∷ o ++ x) < 2044
    → length (d ∷ o ++ s) < 2048
    → str_cmp (some (d ∷ o)) (some (d ∷ o ++ x)) ≡ true
    → (fuel : ℕ) → str_replace_all fuel (d ∷ o ++ s) (d ∷ o) (some (d ∷ o ++ x)) ≡ spent
unfolding str_replace_all
str_replace_all_endless d o x s h small differs fuel =
    rw (str_replace_all, found_here d o s, differs) (loop_on d o x h fuel s small)
