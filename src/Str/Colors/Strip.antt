-- ===== src/Str/Colors/Strip.antt =====
-- What strip_color and strlen_color of src/str.c return.
use muddled.Base.{
  ℕ, zero, suc, ◌≤◌, ◌<◌, List, [], ◌∷◌, ◌++◌, append-nil, none, some, ◌≡◌, refl, sym, ap, ◌∙◌,
  arith, Text, Lacks, length, drop, replicate, length-replicate, ltb, if◌then◌else◌, lt→ltb,
}
use muddled.Str.Colors.{
  Place, in_text, behind_code, behind_mark, color_code, strip_loop, c_string, strip_color,
  strlen_loop, strlen_color, out_siz,
}

strlen_loop_lem : (p : Place) (s : Text) → strlen_loop p s ≡ length (strip_loop p s)
unfolding strlen_loop strip_loop
strlen_loop_lem in_text [] = refl
strlen_loop_lem behind_code [] = refl
strlen_loop_lem behind_mark [] = refl
strlen_loop_lem in_text (c ∷ s) =
    ground (arith, strlen_loop_lem in_text s, strlen_loop_lem behind_code s)
strlen_loop_lem behind_code (c ∷ s) =
    ground (arith, strlen_loop_lem in_text s, strlen_loop_lem behind_mark s)
strlen_loop_lem behind_mark (c ∷ s) = strlen_loop_lem in_text s

strip_loop-Lacks : (p : Place) (s : Text) → Lacks 0 s → Lacks 0 (strip_loop p s)
unfolding strip_loop
strip_loop-Lacks in_text [] h = tt
strip_loop-Lacks behind_code [] h = tt
strip_loop-Lacks behind_mark [] h = tt
strip_loop-Lacks in_text (c ∷ s) h =
    ground (arith, strip_loop-Lacks in_text s h.1, strip_loop-Lacks behind_code s h.1)
strip_loop-Lacks behind_code (c ∷ s) h =
    ground (arith, strip_loop-Lacks in_text s h.1, strip_loop-Lacks behind_mark s h.1)
strip_loop-Lacks behind_mark (c ∷ s) h = strip_loop-Lacks in_text s h.1

c_string-append : (s out : List ℕ) → Lacks 0 s → c_string (s ++ out) ≡ s ++ c_string out
unfolding c_string
c_string-append [] out h = refl
c_string-append (c ∷ s) out h = ground (arith, c_string-append s out h.1)

c_string-drop :
    (n : ℕ) (out : List ℕ)
    → n ≤ length (c_string out)
    → c_string (drop n out) ≡ drop n (c_string out)
unfolding c_string
c_string-drop zero out h = refl
c_string-drop (suc n) [] h = refl
c_string-drop (suc n) (c ∷ out) h = ground (arith, c_string-drop n out)

-- what is written, over what the buffer holds
strip_color_lem :
    (out : List ℕ) (s : Text)
    → Lacks 0 s
    → strip_color out s ≡ (
        if ltb (strlen_color (some s)) (length out)
        then some (strip_loop in_text s ++ c_string (drop (strlen_color (some s)) out))
        else none)
unfolding strip_color strlen_color
strip_color_lem out s h =
    rw (strlen_loop_lem in_text s, c_string-append _ _ (strip_loop-Lacks in_text s h)) refl

c_string-drop-replicate : (n k : ℕ) → c_string (drop n (replicate k 0)) ≡ []
unfolding c_string
c_string-drop-replicate zero zero = refl
c_string-drop-replicate zero (suc k) = refl
c_string-drop-replicate (suc n) zero = refl
c_string-drop-replicate (suc n) (suc k) = c_string-drop-replicate n k

-- the result from a buffer that is still zero, as static storage is at the start
strip_color_fresh :
    (k : ℕ) (s : Text)
    → Lacks 0 s
    → strip_color (replicate k 0) s
      ≡ (if ltb (strlen_color (some s)) k then some (strip_loop in_text s) else none)
strip_color_fresh k s h =
    strip_color_lem (replicate k 0) s h
    ∙ rw (
      length-replicate {A = ℕ} k 0,
      c_string-drop-replicate (strlen_color (some s)) k,
      append-nil (strip_loop in_text s),
    )

strip_loop-plain : (s : Text) → Lacks color_code s → strip_loop in_text s ≡ s
unfolding strip_loop
strip_loop-plain [] h = refl
strip_loop-plain (c ∷ s) h = ground (arith, strip_loop-plain s h.1)

strip_loop-Plain : (p : Place) (s : Text) → Lacks color_code (strip_loop p s)
unfolding strip_loop
strip_loop-Plain in_text [] = tt
strip_loop-Plain behind_code [] = tt
strip_loop-Plain behind_mark [] = tt
strip_loop-Plain in_text (c ∷ s) =
    ground (arith, strip_loop-Plain in_text s, strip_loop-Plain behind_code s)
strip_loop-Plain behind_code (c ∷ s) =
    ground (arith, strip_loop-Plain in_text s, strip_loop-Plain behind_mark s)
strip_loop-Plain behind_mark (c ∷ s) = strip_loop-Plain in_text s

-- strip_color, in a static buffer that is still zero, makes of a text a text without colour codes
-- whose length is the visible length of the first, if that is below the size of the buffer;
-- otherwise it writes behind the buffer, or leaves no room for the NUL.
pub strlen_color-strip_color :
    (s : Text)
    → Lacks 0 s
    → (t : Text) × (length t ≡ strlen_color (some s))
      × Lacks color_code t
      × (strip_color (replicate out_siz 0) s
          ≡ (if ltb (strlen_color (some s)) out_siz then some t else none))
unfolding strlen_color
strlen_color-strip_color s h = (
  strip_loop in_text s,
  sym (strlen_loop_lem in_text s),
  strip_loop-Plain in_text s,
  strip_color_fresh out_siz s h,
)

-- If the buffer holds a text that is not shorter than the visible text, which fits, then the end of
-- the old text is returned behind the new one.
pub strip_color_stale :
    (out : List ℕ) (s : Text)
    → Lacks 0 s
    → strlen_color (some s) ≤ length (c_string out)
    → strlen_color (some s) < length out
    → (t : Text) × (strip_color (replicate (length out) 0) s ≡ some t)
      × (strip_color out s ≡ some (t ++ drop (strlen_color (some s)) (c_string out)))
strip_color_stale out s h le fits = (
  strip_loop in_text s,
  rw (strip_color_fresh (length out) s h, lt→ltb (strlen_color (some s)) (length out) fits) refl,
  rw
      (
        strip_color_lem out s h,
        lt→ltb (strlen_color (some s)) (length out) fits,
        c_string-drop (strlen_color (some s)) out le,
      )
      refl,
)

-- Where the visible text fits a buffer of zeros, it has no colour code, and stripping it again changes
-- nothing.
pub strip_color_idem :
    (k : ℕ) (s : Text)
    → Lacks 0 s
    → strlen_color (some s) < k
    → (t : Text) × (strip_color (replicate k 0) s ≡ some t)
      × Lacks color_code t
      × (strip_color (replicate k 0) t ≡ some t)
unfolding strlen_color
strip_color_idem k s h fits =
    let t = strip_loop in_text s in
    let plain = strip_loop-Plain in_text s in
    let same = strip_loop-plain t plain in
    let again = strip_color_fresh k t (strip_loop-Lacks in_text s h) in
    let size : strlen_loop in_text t ≡ length t = strlen_loop_lem in_text t ∙ ap length same in
    (
      t,
      rw (strip_color_fresh k s h, lt→ltb (strlen_loop in_text s) k fits) refl,
      plain,
      again ∙ rw (size, lt→ltb (length t) k (omega (arith, strlen_loop_lem in_text s)), same) refl,
    )
