-- ===== src/Color/Laws.antt =====
-- The colour that a code of src/color.c names, and how it is sent.
use muddled.Base.Int.{pos}
use muddled.Base.{
  ℕ, ◌+◌, ◌-◌, ◌≤◌, Bool, true, false, not, [], ◌∷◌, inl, inr, some, ◌≡◌, refl, ap, ◌∙◌, arith,
  Text, is_upper, is_lower, toupper, drop, ◌==◌, if◌then◌else◌, Bool-cases,
}
use muddled.Color.{
  ColorT, color_code, bg_mod, make_terminal_color, letter_color, letter_set, convert_letter,
  convert_color_code,
}

-- the code that names a colour by `c`, in the background with `bg`
abbrev pub code_of : Bool → ℕ → Text → Text
code_of bg c s = color_code ∷ (if bg then b'!' ∷ c ∷ s else c ∷ s)

letter_color_range : (d v : ℕ) → letter_color d ≡ some v → (30 ≤ v) × (v ≤ 37) × (is_upper d ≡ true)
unfolding letter_color
letter_color_range d v e = (ground arith, ground arith, ground arith)

letter_kind :
    (c v : ℕ)
    → letter_color (toupper c) ≡ some v
    → (is_lower c ≡ not (is_upper c))
      × ((c == color_code) ≡ false)
      × ((c == b'!') ≡ false)
      × ((toupper c == b'X') ≡ false)
      × ((c == b'?') ≡ false)
unfolding letter_color
letter_kind c v e = (ground arith, ground arith, ground arith, ground arith, ground arith)

letter_set_lem :
    (coin any : ℕ) (bg : Bool) (c v : ℕ)
    → letter_color (toupper c) ≡ some v
    → letter_set coin any bg c ≡ record {
      attr = if is_upper c then pos 1 else pos 0;
      value = (if bg then bg_mod else 0) + v;
    }
unfolding letter_set
letter_set_lem coin any bg c v e =
    let (lower, _, _, no_reset, no_chance) = letter_kind c v e in
    elim (Bool-cases (is_upper c)) [
      | inl up ↦ rw (letter_set, no_reset, no_chance, e, lower, up) refl
      | inr low ↦ rw (letter_set, no_reset, no_chance, e, lower, low) refl
    ]

terminal_lem :
    (bold bg : Bool) (v : ℕ)
    → 30 ≤ v
    → v ≤ 37
    → make_terminal_color
        (record { attr = if bold then pos 1 else pos 0; value = (if bg then bg_mod else 0) + v })
      ≡ 27
        ∷ b'['
        ∷ (if bold then b'1' else b'0')
        ∷ b';'
        ∷ (if bg then b'4' else b'3')
        ∷ (b'0' + (v - 30))
        ∷ b'm'
        ∷ []
unfolding make_terminal_color
terminal_lem true true v lo hi = ground arith
terminal_lem true false v lo hi = ground arith
terminal_lem false true v lo hi = ground arith
terminal_lem false false v lo hi = ground arith

convert_letter_lem :
    (coin any : ℕ) (bg : Bool) (c v : ℕ) (s : Text) (color : ColorT)
    → letter_color (toupper c) ≡ some v
    → convert_letter coin any bg (c ∷ s) (some color) ≡ (c ∷ s, some (letter_set coin any bg c))
unfolding convert_letter
convert_letter_lem coin any bg c v s color e =
    let (_, mark, _, _, _) = letter_kind c v e in rw (convert_letter, mark) refl

skip_mark :
    (coin any : ℕ) (bg : Bool) (c v : ℕ) (s : Text) (color : ColorT)
    → letter_color (toupper c) ≡ some v
    → convert_color_code coin any (code_of bg c s) (some color)
      ≡ some (convert_letter coin any bg (c ∷ s) (some color))
unfolding convert_color_code
skip_mark coin any true c v s color e = refl
skip_mark coin any false c v s color e =
    let (_, _, bang, _, _) = letter_kind c v e in
    ap (λ g. some (convert_letter coin any g (if g then drop 1 (c ∷ s) else c ∷ s) (some color)))
      bang

convert_lem :
    (coin any : ℕ) (bg : Bool) (c v : ℕ) (s : Text) (color : ColorT)
    → letter_color (toupper c) ≡ some v
    → convert_color_code coin any (code_of bg c s) (some color)
      ≡ some (c ∷ s, some (letter_set coin any bg c))
convert_lem coin any bg c v s color e =
    skip_mark coin any bg c v s color e ∙ ap some (convert_letter_lem coin any bg c v s color e)

-- A code whose letter names a colour sets it: the text goes on at the letter, and the sequence for
-- the terminal has the attribute of the letter's case and the number of the colour, in the
-- background if the code says so.
pub convert-terminal :
    (coin any : ℕ) (bg : Bool) (c v : ℕ) (s : Text) (color : ColorT)
    → letter_color (toupper c) ≡ some v
    → (new : ColorT) × (convert_color_code coin any (code_of bg c s) (some color)
        ≡ some (c ∷ s, some new))
      × (make_terminal_color new
          ≡ 27
            ∷ b'['
            ∷ (if is_upper c then b'1' else b'0')
            ∷ b';'
            ∷ (if bg then b'4' else b'3')
            ∷ (b'0' + (v - 30))
            ∷ b'm'
            ∷ [])
convert-terminal coin any bg c v s color e =
    let (lo, hi, _) = letter_color_range (toupper c) v e in
    (
      letter_set coin any bg c,
      convert_lem coin any bg c v s color e,
      ap make_terminal_color (letter_set_lem coin any bg c v e)
          ∙ terminal_lem (is_upper c) bg v lo hi,
    )
