-- ===== src/Input/Lines.antt =====
-- Lines of printable text in src/server/client.c.
use mathlib.Core.List.{reverse, reverse-append}
use muddled.Base.{
  ℕ, zero, suc, ◌+◌, ◌≤◌, ◌<◌, true, false, List, [], ◌∷◌, ◌++◌, append_assoc, append-nil, ◌≢◌, inl,
  inr, none, some, ◌≡◌, refl, sym, ◌∙◌, arith, Text, All, length, ◌>>=◌, ltb, leb, if◌then◌else◌,
  lt→ltb, ==_false, Bool-cases,
}
use muddled.Telnet.{iac, Client}
use muddled.Telnet.Views.{View, View-at, View-next}
use muddled.Input.{is_newline, arg_siz, find_line, copied, overflows, copy_byte, copy_line}

-- a byte that `incomm` takes: no control character, no DEL and no IAC
abbrev pub IsTyped : ℕ → Type 0
IsTyped b = (0x20 ≤ b) × (b ≢ 0x7F) × (b ≢ iac)

pub no_newline : (x : ℕ) → 0x20 ≤ x → is_newline x ≡ false
no_newline x h = ground arith

leb-false : (a b : ℕ) → b < a → leb a b ≡ false
leb-false a b h = ground arith

pub find_line_typed :
    (fuel i : ℕ) (c : Client) (line rest : List ℕ) (b : ℕ)
    → View c.inbuf i (line ++ (b ∷ rest))
    → All IsTyped line
    → is_newline b ≡ true
    → length line < fuel
    → find_line fuel c i ≡ some (c, true)
unfolding find_line
find_line_typed zero i c line rest b v t n h = absurd (omega arith)
find_line_typed (suc fuel) i c [] rest b v t n h =
    let here = View-at c.inbuf i (b ∷ rest) 0 i v (omega arith) in rw (here, ◌>>=◌, n) refl
find_line_typed (suc fuel) i c (x ∷ xs) rest b v ((lo, del, other), t) n h =
    let here = View-at c.inbuf i (x ∷ (xs ++ (b ∷ rest))) 0 i v (omega arith) in
    let ih =
      find_line_typed fuel (i + 1) c xs rest b (View-next c.inbuf i x (xs ++ (b ∷ rest)) v) t n
        (omega arith) in
    rw (here, ◌>>=◌, no_newline x lo, ==_false x iac other, here, ==_false x 0 (λ e. omega arith))
      ih

-- the bytes of a line in front of those before
abbrev pub onto : Text → Text → Text
onto [] typed = typed
onto (x ∷ xs) typed = onto xs (x ∷ typed)

pub length-onto : (xs typed : Text) → length (onto xs typed) ≡ length xs + length typed
length-onto [] typed = omega arith
length-onto (x ∷ xs) typed = omega (arith, length-onto xs (x ∷ typed))

pub reverse-onto : (xs typed : Text) → reverse (onto xs typed) ≡ reverse typed ++ xs
reverse-onto [] typed = sym (append-nil (reverse typed))
reverse-onto (x ∷ xs) typed =
    reverse-onto xs (x ∷ typed)
    ∙ rw (reverse-append (x ∷ []) typed) (append_assoc (reverse typed) (x ∷ []) xs)

copy_byte_typed :
    (typed : Text) (x : ℕ)
    → IsTyped x
    → copy_byte typed x ≡ (if ltb (length typed) arg_siz then some (x ∷ typed) else none)
unfolding copy_byte
copy_byte_typed typed x (lo, del, other) = ground arith

pub copy_line_typed :
    (line typed rest : List ℕ) (b : ℕ)
    → All IsTyped line
    → is_newline b ≡ true
    → length line + length typed ≤ arg_siz
    → copy_line typed (line ++ (b ∷ rest)) ≡ copied (onto line typed) (b ∷ rest)
unfolding copy_line
copy_line_typed [] typed rest b t n h = rw n refl
copy_line_typed (x ∷ xs) typed rest b (tx, t) n h =
    let ih = copy_line_typed xs (x ∷ typed) rest b t n (omega arith) in
    rw
      (
        no_newline x tx.0,
        leb-false 4092 (length typed) (omega arith),
        copy_byte_typed typed x tx,
        lt→ltb (length typed) arg_siz (omega arith),
      )
      ih

pub copy_line_overflows :
    (line typed rest : List ℕ) (b : ℕ)
    → All IsTyped line
    → length typed ≤ arg_siz
    → arg_siz < length line + length typed
    → copy_line typed (line ++ (b ∷ rest)) ≡ overflows
unfolding copy_line
copy_line_overflows [] typed rest b t l h = absurd (omega arith)
copy_line_overflows (x ∷ xs) typed rest b (tx, t) l h =
    elim (Bool-cases (ltb (length typed) arg_siz)) [
      | inl fits ↦
          let ih = copy_line_overflows xs (x ∷ typed) rest b t (ground arith) (omega arith) in
          rw
            (
              no_newline x tx.0,
              leb-false 4092 (length typed) (omega arith),
              copy_byte_typed typed x tx,
              fits,
            )
            ih
      | inr full ↦
          rw
            (
              no_newline x tx.0,
              leb-false 4092 (length typed) (omega arith),
              copy_byte_typed typed x tx,
              full,
            )
            refl
    ]
