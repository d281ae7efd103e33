-- ===== src/Str/Colors/Visible.antt =====
-- The visible length of texts whose colour codes are complete (strlen_color of src/str.c).
use muddled.Base.{
  ℕ, zero, suc, ◌+◌, [], ◌∷◌, ◌++◌, ◌≢◌, inl, inr, some, ◌≡◌, refl, ◌∙◌, arith, Text, Lacks, length,
  replicate, length-replicate, ◌==◌, if◌then◌else◌, ==_false, Bool-cases,
}
use muddled.Str.Colors.{
  Place, in_text, behind_code, behind_mark, color_code, strlen_loop, strlen_color, end_place,
}

-- no code is unfinished, and `n` bytes are visible
abbrev pub Visible : Text → ℕ → Type 0
Visible s n = (strlen_color (some s) ≡ n) × (end_place in_text s ≡ in_text)

strlen_loop-append :
    (p : Place) (s t : Text)
    → strlen_loop p (s ++ t) ≡ strlen_loop p s + strlen_loop (end_place p s) t
unfolding strlen_loop end_place
strlen_loop-append in_text [] t = omega arith
strlen_loop-append behind_code [] t = omega arith
strlen_loop-append behind_mark [] t = omega arith
strlen_loop-append in_text (c ∷ s) t = elim (Bool-cases (c == color_code)) [
  | inl e ↦ rw e (strlen_loop-append behind_code s t)
  | inr e ↦ rw e (omega (arith, strlen_loop-append in_text s t))
]
strlen_loop-append behind_code (c ∷ s) t = elim (Bool-cases (c == b'!')) [
  | inl e ↦ rw e (strlen_loop-append behind_mark s t)
  | inr e ↦ rw e (strlen_loop-append in_text s t)
]
strlen_loop-append behind_mark (c ∷ s) t = strlen_loop-append in_text s t

end_place-append : (p : Place) (s t : Text) → end_place p (s ++ t) ≡ end_place (end_place p s) t
unfolding end_place
end_place-append p [] t = refl
end_place-append in_text (c ∷ s) t =
    end_place-append (if c == color_code then behind_code else in_text) s t
end_place-append behind_code (c ∷ s) t =
    end_place-append (if c == b'!' then behind_mark else in_text) s t
end_place-append behind_mark (c ∷ s) t = end_place-append in_text s t

pub Visible-append : (s t : Text) (m n : ℕ) → Visible s m → Visible t n → Visible (s ++ t) (m + n)
unfolding strlen_color
Visible-append s t m n (h, e) (k, f) = (
  strlen_loop-append in_text s t ∙ rw e (omega (arith, h, k)),
  end_place-append in_text s t ∙ rw e f,
)

pub Visible-plain : (s : Text) → Lacks color_code s → Visible s (length s)
unfolding strlen_color strlen_loop end_place
Visible-plain [] h = (refl, refl)
Visible-plain (c ∷ s) (n, h) =
    let (k, e) = Visible-plain s h in rw (==_false c color_code n) (omega (arith, k), e)

pub Visible-replicate : (n c : ℕ) → c ≢ color_code → Visible (replicate n c) n
Visible-replicate n c h =
    let (k, e) = Visible-plain (replicate n c) (Lacks-replicate n) in
    (k ∙ length-replicate {A = ℕ} n c, e)
  where
    Lacks-replicate : (n : ℕ) → Lacks color_code (replicate n c)
    Lacks-replicate zero = tt
    Lacks-replicate (suc n) = (h, Lacks-replicate n)
