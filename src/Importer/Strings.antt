-- ===== src/Importer/Strings.antt =====
-- Strings and ends of lines in src/server/importer.c.
use mathlib.Core.List.{reverse}
use muddled.Base.{
  ℕ, zero, suc, ◌+◌, ◌≤◌, ◌<◌, Bool, true, false, ◌||◌, List, [], ◌∷◌, ◌++◌, ◌≢◌, inl, inr, ◌≡◌,
  refl, ap, ◌∙◌, arith, Text, is_space, All, length, ltb, leb, ◌==◌, if◌then◌else◌, ltb→lt, ==_iff,
  ==_false, Bool-cases,
}
use muddled.Str.Numbers.{skip_space}
use muddled.Input.Lines.{onto, reverse-onto}
use muddled.Importer.{
  done, outside, spent, before, until_nul, string_loop, fread_string, skip_line, skip_ends,
  fread_to_eol, ended, eof,
}

-- a byte that is stored, or ends a line
abbrev pub IsPlain : ℕ → Type 0
IsPlain b = (b ≢ 0) × (b ≢ 13) × (b ≢ b'~')

-- a text as it is stored: each line ends with two bytes
abbrev pub stored_form : Text → Text
stored_form [] = []
stored_form (c ∷ s) = let rest = stored_form s in if c == 10 then 10 ∷ 13 ∷ rest else c ∷ rest

until_nul_lem : (s : Text) → All (λ b. b ≢ 0) s → until_nul s ≡ s
unfolding until_nul
until_nul_lem [] h = refl
until_nul_lem (c ∷ s) h = rw (==_false c 0 h.0, until_nul_lem s h.1) refl

stored_form_lem : (s : Text) → All IsPlain s → All (λ b. b ≢ 0) (stored_form s)
stored_form_lem [] h = tt
stored_form_lem (c ∷ s) h = elim (Bool-cases (c == 10)) [
  | inl end ↦ rw end (λ e. omega arith, (λ e. omega arith, stored_form_lem s h.1))
  | inr other ↦ rw other (h.0.0, stored_form_lem s h.1)
]

module _ (i : ℕ) (typed : Text) (s : List ℕ) where
  string_loop_plain :
      (c : ℕ)
      → IsPlain c
      → (c == 10) ≡ false
      → i < 8192
      → string_loop i typed (c ∷ s) ≡ string_loop (i + 1) (c ∷ typed) s
  unfolding string_loop
  string_loop_plain c h n l =
      let full : leb 8192 i ≡ false = ground arith in
      rw (full, ==_false c 0 h.0, n, ==_false c 13 h.1, ==_false c b'~' h.2) refl

  string_loop_newline :
      i + 1 < 8192 → string_loop i typed (10 ∷ s) ≡ string_loop (i + 2) (13 ∷ 10 ∷ typed) s
  unfolding string_loop
  string_loop_newline l =
      let full : leb 8192 i ≡ false = ground arith in
      let last : leb 8192 (i + 1) ≡ false = ground arith in rw (full, last) refl

  string_loop_end :
      i < 8192 → string_loop i typed (b'~' ∷ s) ≡ done (until_nul (reverse typed)) (before s)
  unfolding string_loop
  string_loop_end l = let full : leb 8192 i ≡ false = ground arith in rw full refl

  string_loop_full : 8192 ≤ i → string_loop i typed (b'~' ∷ s) ≡ outside
  unfolding string_loop
  string_loop_full l = let full : leb 8192 i ≡ true = ground arith in rw full refl

  string_loop_cut :
      (c : ℕ)
      → IsPlain c
      → (c == 10) ≡ false
      → 8192 ≤ i
      → string_loop i typed (c ∷ s) ≡ string_loop i typed s
  unfolding string_loop
  string_loop_cut c h n l =
      let full : leb 8192 i ≡ true = ground arith in
      rw (full, ==_false c 0 h.0, n, ==_false c 13 h.1, ==_false c b'~' h.2) refl

string_loop_lem :
    (s : Text) (i : ℕ) (typed rest : Text)
    → All IsPlain s
    → i + length (stored_form s) < 8192
    → string_loop i typed (s ++ b'~' ∷ rest)
      ≡ done (until_nul (reverse (onto (stored_form s) typed))) (before rest)
string_loop_lem [] i typed rest h l = string_loop_end i typed rest (omega arith)
string_loop_lem (c ∷ s) i typed rest (h, hs) l = elim (Bool-cases (c == 10)) [
  | inl end ↦
      let bound : length (stored_form (c ∷ s)) ≡ suc (suc (length (stored_form s))) = rw end refl in
      rw (end, (==_iff c 10).0 end)
        (string_loop_newline i typed (s ++ b'~' ∷ rest) (omega (arith, bound))
          ∙ string_loop_lem s (i + 2) (13 ∷ 10 ∷ typed) rest hs (omega (arith, bound)))
  | inr other ↦
      let bound : length (stored_form (c ∷ s)) ≡ suc (length (stored_form s)) = rw other refl in
      rw other (
        string_loop_plain i typed (s ++ b'~' ∷ rest) c h other (omega (arith, bound))
        ∙ string_loop_lem s (i + 1) (c ∷ typed) rest hs (omega (arith, bound)))
]

skip_space_at : (c : ℕ) (s : Text) → is_space c ≡ false → skip_space (c ∷ s) ≡ c ∷ s
unfolding skip_space
skip_space_at c s h = ground arith

-- A string that begins with no blank, whose bytes are not NUL, return or the mark of the end, and that
-- is stored in less than 8192 bytes, is read up to its mark, with a return behind each newline.
pub fread_string-stored_form :
    (c : ℕ) (s rest : Text)
    → is_space c ≡ false
    → IsPlain c
    → All IsPlain s
    → length (stored_form s) < 8191
    → fread_string (before (c ∷ s ++ b'~' ∷ rest)) ≡ done (c ∷ stored_form s) (before rest)
unfolding fread_string
fread_string-stored_form c s rest blank h hs l =
    rw (fread_string, skip_space_at c (s ++ b'~' ∷ rest) blank, ==_false c b'~' h.2)
      (string_loop_lem s 1 (c ∷ []) rest hs (omega arith)
        ∙ ap (λ t. done t (before rest))
            (ap until_nul (reverse-onto (stored_form s) (c ∷ []))
              ∙ until_nul_lem (c ∷ stored_form s) (h.0, stored_form_lem s hs)))

string_loop_outside :
    (s : Text) (i : ℕ) (typed rest : Text)
    → All (λ c. IsPlain c × ((c == 10) ≡ false)) s
    → 8192 ≤ i + length s
    → string_loop i typed (s ++ b'~' ∷ rest) ≡ outside
string_loop_outside [] i typed rest h l = string_loop_full i typed rest (omega arith)
string_loop_outside (c ∷ s) i typed rest ((h, n), hs) l = elim (Bool-cases (ltb i 8192)) [
  | inl fits ↦
      string_loop_plain i typed (s ++ b'~' ∷ rest) c h n (ltb→lt i 8192 fits)
      ∙ string_loop_outside s (i + 1) (c ∷ typed) rest hs (omega arith)
  | inr full ↦
      string_loop_cut i typed (s ++ b'~' ∷ rest) c h n (ground arith)
      ∙ string_loop_outside s i typed rest hs (ground arith)
]

-- A string in one line with 8192 bytes or more is cut, and then its NUL is written behind the buffer.
pub fread_string_overflow :
    (c : ℕ) (s rest : Text)
    → is_space c ≡ false
    → IsPlain c
    → All (λ b. IsPlain b × ((b == 10) ≡ false)) s
    → 8191 ≤ length s
    → fread_string (before (c ∷ s ++ b'~' ∷ rest)) ≡ outside
unfolding fread_string
fread_string_overflow c s rest blank h hs l =
    rw (fread_string, skip_space_at c (s ++ b'~' ∷ rest) blank, ==_false c b'~' h.2)
      (string_loop_outside s 1 (c ∷ []) rest hs (omega arith))

-- a byte that ends a line
abbrev pub is_end : ℕ → Bool
is_end c = c == 10 || c == 13

skip_line_found :
    (line : Text) (c : ℕ) (rest : List ℕ) (fuel : ℕ)
    → All (λ b. is_end b ≡ false) line
    → is_end c ≡ true
    → length line < fuel
    → skip_line fuel (before (line ++ c ∷ rest)) ≡ done tt (before rest)
unfolding skip_line
skip_line_found line c rest zero h e l = absurd (omega arith)
skip_line_found [] c rest (suc fuel) h e l = rw e refl
skip_line_found (b ∷ line) c rest (suc fuel) (hb, h) e l =
    rw hb (skip_line_found line c rest fuel h e (omega arith))

skip_line-ended : (fuel : ℕ) → skip_line fuel ended ≡ spent
unfolding skip_line
skip_line-ended zero = refl
skip_line-ended (suc fuel) = skip_line-ended fuel

skip_line_spent :
    (line : Text) (fuel : ℕ)
    → All (λ b. is_end b ≡ false) line
    → skip_line fuel (before line) ≡ spent
unfolding skip_line
skip_line_spent line zero h = refl
skip_line_spent [] (suc fuel) h = skip_line-ended fuel
skip_line_spent (b ∷ line) (suc fuel) (hb, h) = rw hb (skip_line_spent line fuel h)

skip_ends_lem :
    (ends : Text) (d : ℕ) (more : List ℕ)
    → All (λ b. is_end b ≡ true) ends
    → is_end d ≡ false
    → (d == eof) ≡ false
    → skip_ends (ends ++ d ∷ more) ≡ before (d ∷ more)
unfolding skip_ends
skip_ends_lem [] d more h n m = rw (n, m) refl
skip_ends_lem (b ∷ ends) d more (hb, h) n m = rw hb (skip_ends_lem ends d more h n m)

-- If a newline or a return ends the line, fread_to_eol gets, within one round more than the line
-- has bytes, to the byte that is none behind it and behind all that follow it (if that byte is not
-- 255). If none ends the line and the file ends with it, fread_to_eol has not ended after any
-- number of rounds: it reads the end of the file for ever.
pub fread_to_eol_endless :
    (line : Text) (c : ℕ) (ends : Text) (d : ℕ) (more : List ℕ) (fuel k : ℕ)
    → All (λ b. is_end b ≡ false) line
    → is_end c ≡ true
    → All (λ b. is_end b ≡ true) ends
    → is_end d ≡ false
    → (d == eof) ≡ false
    → length line < fuel
    → (fread_to_eol fuel (before (line ++ c ∷ (ends ++ d ∷ more))) ≡ done tt (before (d ∷ more)))
      × (fread_to_eol k (before line) ≡ spent)
unfolding fread_to_eol
fread_to_eol_endless line c ends d more fuel k h e hs n m l = (
  rw (skip_line_found line c (ends ++ d ∷ more) fuel h e l)
      (ap (done tt) (skip_ends_lem ends d more hs n m)),
  rw (skip_line_spent line k h) refl,
)
