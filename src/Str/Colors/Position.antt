-- ===== src/Str/Colors/Position.antt =====
-- Where strpos of src/str.c cuts a text.
use Prim.Native.Nat.{min}
use muddled.Base.{
  ℕ, suc, ◌+◌, ◌≤◌, ◌<◌, [], ◌∷◌, ◌≢◌, inl, inr, none, some, ◌≡◌, refl, arith, Text, length, take,
  leb, ◌==◌, Bool-cases,
}
use muddled.Str.Colors.{
  Place, in_text, behind_code, behind_mark, color_code, strlen_loop, strlen_color, strpos_loop,
  strpos, end_place,
}

-- where the loop stops, `k` bytes on
abbrev Stops : Place → ℕ → ℕ → ℕ → Text → ℕ → Type 0
Stops place width count i s p =
    (k : ℕ) × (p ≡ i + k)
    × (k ≤ length s)
    × (count + strlen_loop place (take k s) ≡ min width (count + strlen_loop place s))

strpos_loop_sound :
    (place : Place) (width count i : ℕ) (s : Text) (p : ℕ)
    → count < width
    → strpos_loop place width count i s ≡ some p
    → Stops place width count i s p
unfolding strpos_loop strlen_loop
strpos_loop_sound in_text width count i [] p h e = (0, ground arith, omega arith, ground arith)
strpos_loop_sound behind_code width count i [] p h e = absurd (cc)
strpos_loop_sound behind_mark width count i [] p h e = absurd (cc)
strpos_loop_sound in_text width count i (c ∷ s) p h e = elim (Bool-cases (c == color_code)) [
  | inl code ↦
      let (k, at, le, visible) =
        strpos_loop_sound behind_code width count (i + 1) s p h (ground arith) in
      (suc k, omega arith, omega arith, rw (code) visible)
  | inr plain ↦ elim (Bool-cases (leb width (count + 1))) [
    | inl last ↦ (1, ground arith, omega arith, rw (plain) (ground arith))
    | inr more ↦
        let (k, at, le, visible) =
          strpos_loop_sound in_text width (count + 1) (i + 1) s p (ground arith) (ground arith) in
        (suc k, omega arith, omega arith, rw (plain) (omega arith))
  ]
]
strpos_loop_sound behind_code width count i (c ∷ s) p h e = elim (Bool-cases (c == b'!')) [
  | inl mark ↦
      let (k, at, le, visible) =
        strpos_loop_sound behind_mark width count (i + 1) s p h (ground arith) in
      (suc k, omega arith, omega arith, rw (mark) visible)
  | inr plain ↦
      let (k, at, le, visible) =
        strpos_loop_sound in_text width count (i + 1) s p h (ground arith) in
      (suc k, omega arith, omega arith, rw (plain) visible)
]
strpos_loop_sound behind_mark width count i (c ∷ s) p h e =
    let (k, at, le, visible) = strpos_loop_sound in_text width count (i + 1) s p h e in
    (suc k, omega arith, omega arith, visible)

strpos_loop_total :
    (place : Place) (width count i : ℕ) (s : Text)
    → end_place place s ≡ in_text
    → (p : ℕ) × (strpos_loop place width count i s ≡ some p)
unfolding strpos_loop end_place
strpos_loop_total in_text width count i [] h = (i, refl)
strpos_loop_total behind_code width count i [] h = absurd (cc)
strpos_loop_total behind_mark width count i [] h = absurd (cc)
strpos_loop_total in_text width count i (c ∷ s) h = elim (Bool-cases (c == color_code)) [
  | inl code ↦ rw code (strpos_loop_total behind_code width count (i + 1) s (ground arith))
  | inr plain ↦ elim (Bool-cases (leb width (count + 1))) [
    | inl last ↦ (i + 1, rw (plain, last))
    | inr more ↦
        rw (plain, more) (strpos_loop_total in_text width (count + 1) (i + 1) s (ground arith))
  ]
]
strpos_loop_total behind_code width count i (c ∷ s) h = elim (Bool-cases (c == b'!')) [
  | inl mark ↦ rw mark (strpos_loop_total behind_mark width count (i + 1) s (ground arith))
  | inr plain ↦ rw plain (strpos_loop_total in_text width count (i + 1) s (ground arith))
]
strpos_loop_total behind_mark width count i (c ∷ s) h =
    strpos_loop_total in_text width count (i + 1) s h

strpos_loop_beyond :
    (place : Place) (width count i : ℕ) (s : Text)
    → end_place place s ≢ in_text
    → count + strlen_loop place s < width
    → strpos_loop place width count i s ≡ none
unfolding strpos_loop end_place strlen_loop
strpos_loop_beyond in_text width count i [] h w = absurd (h refl)
strpos_loop_beyond behind_code width count i [] h w = refl
strpos_loop_beyond behind_mark width count i [] h w = refl
strpos_loop_beyond in_text width count i (c ∷ s) h w = ground (
  arith,
  strpos_loop_beyond behind_code width count (i + 1) s,
  strpos_loop_beyond in_text width (count + 1) (i + 1) s,
)
strpos_loop_beyond behind_code width count i (c ∷ s) h w = ground (
  arith,
  strpos_loop_beyond behind_mark width count (i + 1) s,
  strpos_loop_beyond in_text width count (i + 1) s,
)
strpos_loop_beyond behind_mark width count i (c ∷ s) h w =
    strpos_loop_beyond in_text width count (i + 1) s h w

-- For a text whose colour codes are all complete and a positive width, `strpos` returns a position
-- in the text, and the visible length of the part before it is the width, or that of the whole text
-- if that is less wide.
pub strpos_lem :
    (s : Text) (width : ℕ)
    → end_place in_text s ≡ in_text
    → 0 < width
    → (p : ℕ) × (strpos s width ≡ some p)
      × (p ≤ length s)
      × (strlen_color (some (take p s)) ≡ min width (strlen_color (some s)))
unfolding strpos strlen_color
strpos_lem s width whole h =
    let (p, e) = strpos_loop_total in_text width 0 0 s whole in
    let (k, at, le, visible) = strpos_loop_sound in_text width 0 0 s p h e in
    let here : p ≡ k = omega arith in (p, e, rw here (omega arith), rw here (omega arith))

-- If the last colour code of a text is unfinished and the text is less wide than `width`, `strpos`
-- reads behind the terminator.
pub strpos_reads_beyond :
    (s : Text) (width : ℕ)
    → end_place in_text s ≢ in_text
    → strlen_color (some s) < width
    → strpos s width ≡ none
unfolding strpos strlen_color
strpos_reads_beyond s width h w = strpos_loop_beyond in_text width 0 0 s h (omega arith)
