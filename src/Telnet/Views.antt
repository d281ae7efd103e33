-- ===== src/Telnet/Views.antt =====
-- The scans of src/server/telnet.c over bytes that are known.
use muddled.Base.{
  ℕ, zero, suc, ◌+◌, ◌≤◌, ◌<◌, false, List, [], ◌∷◌, ◌++◌, ◌≢◌, inl, inr, some, ◌≡◌, refl, ap, ◌∙◌,
  arith, All, length, get_elem?, get_elem?-append_right, ◌>>=◌, ◌==◌, ==_iff, ==_false, Bool-cases,
}
use muddled.Telnet.{telnet_se, at_end, scan_se, scan_term}
use muddled.Telnet.Scan.{scan_se_stop, scan_se_go, scan_term_stop, scan_term_go, masked}

-- the bytes of the buffer from `i` on
abbrev pub View : List ℕ → ℕ → List ℕ → Type 0
View buf i ys = (k : ℕ) → get_elem? buf (i + k) ≡ get_elem? ys k

pub View-append : (pre ys : List ℕ) → View (pre ++ ys) (length pre) ys
View-append pre ys k = get_elem?-append_right pre ys k

pub View-at :
    (buf : List ℕ) (i : ℕ) (ys : List ℕ) (k j : ℕ)
    → View buf i ys
    → j ≡ i + k
    → get_elem? buf j ≡ get_elem? ys k
View-at buf i ys k j v e = ap (get_elem? buf) e ∙ v k

pub View-next : (buf : List ℕ) (i y : ℕ) (ys : List ℕ) → View buf i (y ∷ ys) → View buf (i + 1) ys
View-next buf i y ys v k = View-at buf i (y ∷ ys) (suc k) (i + 1 + k) v (omega arith)

pub View-skip :
    (buf : List ℕ) (i j : ℕ) (xs ys : List ℕ)
    → View buf i (xs ++ ys)
    → j ≡ i + length xs
    → View buf j ys
View-skip buf i j xs ys v e k =
    View-at buf i (xs ++ ys) (length xs + k) (j + k) v (omega (arith, e))
    ∙ get_elem?-append_right xs ys k

-- no SE, and no two NULs
abbrev StartsQuiet : List ℕ → Type 0
StartsQuiet [] = Unit
StartsQuiet (b ∷ bs) = b ≢ 0

abbrev pub IsQuiet : List ℕ → Type 0
IsQuiet [] = Unit
IsQuiet (b ∷ bs) = (b ≢ telnet_se) × (b ≡ 0 → StartsQuiet bs) × IsQuiet bs

at_end_zero :
    (buf : List ℕ) (i c : ℕ)
    → get_elem? buf i ≡ some 0
    → get_elem? buf (i + 1) ≡ some c
    → at_end buf i ≡ some (c == 0)
unfolding at_end
at_end_zero buf i c r s = rw (r, ◌>>=◌, s) refl

pub at_end_other :
    (buf : List ℕ) (i b : ℕ)
    → get_elem? buf i ≡ some b
    → (b == 0) ≡ false
    → at_end buf i ≡ some false
unfolding at_end
at_end_other buf i b r h = rw (r, ◌>>=◌, h) refl

next_byte : List ℕ → ℕ
next_byte [] = telnet_se
next_byte (b ∷ bs) = b

next_byte_lem : (bs rest : List ℕ) → get_elem? (bs ++ (telnet_se ∷ rest)) 0 ≡ some (next_byte bs)
unfolding next_byte
next_byte_lem [] rest = refl
next_byte_lem (b ∷ bs) rest = refl

next_byte_pos : (bs : List ℕ) → StartsQuiet bs → (next_byte bs == 0) ≡ false
unfolding next_byte
next_byte_pos [] h = refl
next_byte_pos (b ∷ bs) h = ==_false b 0 h

quiet_at_end :
    (buf : List ℕ) (i b : ℕ) (bs rest : List ℕ)
    → View buf i ((b ∷ bs) ++ (telnet_se ∷ rest))
    → IsQuiet (b ∷ bs)
    → at_end buf i ≡ some false
quiet_at_end buf i b bs rest v (_, h, _) =
    let here = View-at buf i (b ∷ (bs ++ (telnet_se ∷ rest))) 0 i v (omega arith) in
    let there =
      View-at buf i (b ∷ (bs ++ (telnet_se ∷ rest))) 1 (i + 1) v (omega arith)
      ∙ next_byte_lem bs rest in
    elim (Bool-cases (b == 0)) [
      | inr other ↦ at_end_other buf i b here other
      | inl nul ↦
          let z = (==_iff b 0).0 nul in
          at_end_zero buf i (next_byte bs) (here ∙ ap some z) there
          ∙ ap some (next_byte_pos bs (h z))
    ]

-- a scan of quiet bytes goes to the SE behind them
pub scan_se_quiet :
    (fuel i : ℕ) (buf body rest : List ℕ)
    → View buf i (body ++ (telnet_se ∷ rest))
    → IsQuiet body
    → length body < fuel
    → scan_se fuel buf i ≡ some (i + length body)
scan_se_quiet zero i buf body rest v q h = absurd (omega arith)
scan_se_quiet (suc fuel) i buf [] rest v q h =
    let se = View-at buf i (telnet_se ∷ rest) 0 i v (omega arith) in
    scan_se_stop fuel i telnet_se false buf (at_end_other buf i telnet_se se refl) se refl
    ∙ ap some (omega arith)
scan_se_quiet (suc fuel) i buf (b ∷ bs) rest v (n, q, r) h =
    let here = View-at buf i (b ∷ (bs ++ (telnet_se ∷ rest))) 0 i v (omega arith) in
    scan_se_go fuel i b false buf (quiet_at_end buf i b bs rest v (n, q, r)) here
      (==_false b telnet_se n)
    ∙ scan_se_quiet fuel (i + 1) buf bs rest (View-next buf i b (bs ++ (telnet_se ∷ rest)) v) r
        (omega arith)
    ∙ ap some (omega arith)

-- printable bytes, which the scan of a name leaves
abbrev pub IsPrintable : List ℕ → Type 0
IsPrintable = All (λ b. (0x20 ≤ b) × (b ≢ telnet_se))

unmasked : (b i : ℕ) (buf : List ℕ) → 0x20 ≤ b → masked b i buf ≡ buf
unmasked b i buf h = ground arith

pub scan_term_printable :
    (fuel i : ℕ) (buf body rest : List ℕ)
    → View buf i (body ++ (telnet_se ∷ rest))
    → IsPrintable body
    → length body < fuel
    → scan_term fuel buf i ≡ some (buf, i + length body)
scan_term_printable zero i buf body rest v q h = absurd (omega arith)
scan_term_printable (suc fuel) i buf [] rest v q h =
    let se = View-at buf i (telnet_se ∷ rest) 0 i v (omega arith) in
    scan_term_stop fuel i telnet_se false buf (at_end_other buf i telnet_se se refl) se refl
    ∙ ap (λ e. some (buf, e)) (omega arith)
scan_term_printable (suc fuel) i buf (b ∷ bs) rest v ((lo, n), r) h =
    let here = View-at buf i (b ∷ (bs ++ (telnet_se ∷ rest))) 0 i v (omega arith) in
    scan_term_go fuel i b false buf (at_end_other buf i b here (ground arith)) here
      (==_false b telnet_se n)
    ∙ ap (λ d. scan_term fuel d (i + 1)) (unmasked b i buf lo)
    ∙ scan_term_printable fuel (i + 1) buf bs rest (View-next buf i b (bs ++ (telnet_se ∷ rest)) v)
        r (omega arith)
    ∙ ap (λ e. some (buf, e)) (omega arith)
