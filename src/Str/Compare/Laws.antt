-- ===== src/Str/Compare/Laws.antt =====
-- What str_cmp and str_prefix of src/str.c decide.
use mathlib.Core.List.{cons-ne-nil}
use muddled.Base.{
  false, [], ◌∷◌, map, ◌≢◌, ◌↔◌, some, ◌≡◌, refl, arith, Text, tolower, Lacks, length, take,
}
use muddled.Str.Compare.{str_cmp_loop, str_cmp, str_prefix_loop, str_prefix}

str_cmp_loop_sound :
    (s t : Text) → Lacks 0 s → Lacks 0 t → str_cmp_loop s t ≡ false → map tolower s ≡ map tolower t
unfolding str_cmp_loop
str_cmp_loop_sound [] [] hs ht h = refl
str_cmp_loop_sound [] (d ∷ t) hs ht h = ground arith
str_cmp_loop_sound (c ∷ s) [] hs ht h = ground arith
str_cmp_loop_sound (c ∷ s) (d ∷ t) hs ht h = ground (arith, str_cmp_loop_sound s t)

str_cmp_loop_complete : (s t : Text) → map tolower s ≡ map tolower t → str_cmp_loop s t ≡ false
unfolding str_cmp_loop
str_cmp_loop_complete [] [] h = refl
str_cmp_loop_complete [] (d ∷ t) h = cc
str_cmp_loop_complete (c ∷ s) [] h = cc
str_cmp_loop_complete (c ∷ s) (d ∷ t) h = ground (arith, str_cmp_loop_complete s t)

-- Two texts without NUL compare as the same exactly when they are equal up to the case of letters.
pub str_cmp_iff :
    (s t : Text)
    → Lacks 0 s
    → Lacks 0 t
    → (str_cmp (some s) (some t) ≡ false) ↔ (map tolower s ≡ map tolower t)
unfolding str_cmp
str_cmp_iff s t hs ht = (str_cmp_loop_sound s t hs ht, str_cmp_loop_complete s t)

-- `s` is a prefix of `t` up to the case of letters
abbrev pub IsPrefixOf : Text → Text → Type 0
IsPrefixOf s t = take (length s) (map tolower t) ≡ map tolower s

str_prefix_loop_sound : (s t : Text) → Lacks 0 s → str_prefix_loop s t ≡ false → IsPrefixOf s t
unfolding str_prefix_loop
str_prefix_loop_sound [] t hs h = refl
str_prefix_loop_sound (c ∷ s) [] hs h = absurd (ground arith)
str_prefix_loop_sound (c ∷ s) (d ∷ t) hs h = ground (arith, str_prefix_loop_sound s t)

str_prefix_loop_complete : (s t : Text) → IsPrefixOf s t → str_prefix_loop s t ≡ false
unfolding str_prefix_loop
str_prefix_loop_complete [] t h = refl
str_prefix_loop_complete (c ∷ s) [] h = cc
str_prefix_loop_complete (c ∷ s) (d ∷ t) h = ground (arith, str_prefix_loop_complete s t)

pub str_prefix_loop_iff : (s t : Text) → Lacks 0 s → (str_prefix_loop s t ≡ false) ↔ IsPrefixOf s t
str_prefix_loop_iff s t hs = (str_prefix_loop_sound s t hs, str_prefix_loop_complete s t)

-- A text without NUL is reported as a prefix of another exactly when it is not empty and the other
-- begins with it, up to the case of letters.
pub str_prefix_iff :
    (s t : Text) → Lacks 0 s → (str_prefix (some s) (some t) ≡ false) ↔ ((s ≢ []) × IsPrefixOf s t)
unfolding str_prefix
str_prefix_iff [] t hs = (λ h. absurd (ground arith), λ h. absurd (h.0 refl))
str_prefix_iff (c ∷ s) t hs = (
  λ h. (cons-ne-nil c s, str_prefix_loop_sound (c ∷ s) t hs h),
  λ h. str_prefix_loop_complete (c ∷ s) t h.1,
)
