-- ===== src/Telnet/Scan.antt =====
-- The scans of src/server/telnet.c in a buffer that two NULs end.
use muddled.Base.{
  ℕ, zero, suc, ◌+◌, ◌≤◌, ◌<◌, Bool, true, false, ◌||◌, List, ◌⊎◌, inl, inr, some, ◌≡◌, refl, ap,
  ◌∙◌, arith, length, get_elem?, set, length-set, get_elem?-in, get_elem?-set, ◌>>=◌, ltb, ◌==◌,
  if◌then◌else◌, Bool-cases,
}
use muddled.Telnet.{telnet_se, at_end, scan_se, scan_term}

-- two NULs at `z`, and one more byte behind them
abbrev pub IsEnded : ℕ → List ℕ → Type 0
IsEnded z buf = (get_elem? buf z ≡ some 0) × (get_elem? buf (z + 1) ≡ some 0) × (z + 3 ≤ length buf)

-- how a scan can stop at `e`
abbrev pub IsStop : List ℕ → ℕ → Type 0
IsStop buf e =
    (at_end buf e ≡ some true) ⊎ ((at_end buf e ≡ some false) × (get_elem? buf e ≡ some telnet_se))

pub IsEnded-set : (z i v : ℕ) (buf : List ℕ) → IsEnded z buf → i < z → IsEnded z (set buf i v)
IsEnded-set z i v buf e h =
    ground (arith, length-set buf i v, get_elem?-set buf i z v, get_elem?-set buf i (z + 1) v)

pub at_end-in :
    (z i : ℕ) (buf : List ℕ) → IsEnded z buf → i ≤ z → (b : Bool) × (at_end buf i ≡ some b)
unfolding at_end
at_end-in z i buf e h =
    let (c, rc) = get_elem?-in buf i (omega arith) in
    let (d, rd) = get_elem?-in buf (i + 1) (omega arith) in
    (if c == 0 then d == 0 else false, rw rc (ground arith))

pub at_end_last : (z : ℕ) (buf : List ℕ) → IsEnded z buf → at_end buf z ≡ some true
unfolding at_end
at_end_last z buf e = rw (e.0, e.1) refl

pub before_end :
    (z i : ℕ) (buf : List ℕ) → IsEnded z buf → i ≤ z → at_end buf i ≡ some false → i < z
before_end z i buf e h f = ground (arith, at_end_last z buf e)

before_bound :
    (z i : ℕ) (buf : List ℕ) → IsEnded z buf → i ≤ z → at_end buf i ≡ some false → i + 1 ≤ z
before_bound z i buf e h f = let lt = before_end z i buf e h f in omega arith

-- the buffer behind one step of the scan of a name
abbrev pub masked : ℕ → ℕ → List ℕ → List ℕ
masked c i buf = if ltb c 0x1F then set buf i b'?' else buf

masked-get :
    (i c j : ℕ) (buf : List ℕ)
    → i < length buf
    → j < i
    → get_elem? (masked c i buf) j ≡ get_elem? buf j
masked-get i c j buf h l = ground (arith, get_elem?-set buf i j b'?' h)

masked-IsEnded : (z i c : ℕ) (buf : List ℕ) → IsEnded z buf → i < z → IsEnded z (masked c i buf)
masked-IsEnded z i c buf e h = elim (Bool-cases (ltb c 0x1F)) [
  | inl low ↦ rw low (IsEnded-set z i b'?' buf e h)
  | inr high ↦ rw high e
]

length-masked : (i c : ℕ) (buf : List ℕ) → length (masked c i buf) ≡ length buf
length-masked i c buf = ground (arith, length-set buf i b'?')

-- one round of a scan
module _ (fuel i c : ℕ) (b : Bool) (buf : List ℕ) (rb : at_end buf i ≡ some b)
    (rc : get_elem? buf i ≡ some c) where
  pub IsStop-or : (b || c == telnet_se) ≡ true → IsStop buf i
  IsStop-or h = elim (Bool-cases b) [
    | inl ended ↦ inl (rb ∙ ap some ended)
    | inr more ↦ inr (rb ∙ ap some more, ground arith)
  ]

  go-at_end : (b || c == telnet_se) ≡ false → at_end buf i ≡ some false
  go-at_end h = ground arith

  pub scan_se_stop : (b || c == telnet_se) ≡ true → scan_se (suc fuel) buf i ≡ some i
  unfolding scan_se
  scan_se_stop h = rw (rb, rc, h) refl

  pub scan_se_go :
      (b || c == telnet_se) ≡ false → scan_se (suc fuel) buf i ≡ scan_se fuel buf (i + 1)
  unfolding scan_se
  scan_se_go h = rw (rb, rc, h) refl

  pub scan_term_stop : (b || c == telnet_se) ≡ true → scan_term (suc fuel) buf i ≡ some (buf, i)
  unfolding scan_term
  scan_term_stop h = rw (rb, rc, ◌>>=◌, h) refl

  pub scan_term_go :
      (b || c == telnet_se) ≡ false
      → scan_term (suc fuel) buf i ≡ scan_term fuel (masked c i buf) (i + 1)
  unfolding scan_term
  scan_term_go h = rw (rb, rc, ◌>>=◌, h) refl

-- a scan from before the end stops in time
pub scan_se_lem :
    (z fuel i : ℕ) (buf : List ℕ)
    → IsEnded z buf
    → i ≤ z
    → z < i + fuel
    → (e : ℕ) × (scan_se fuel buf i ≡ some e) × (i ≤ e) × (e ≤ z) × IsStop buf e
scan_se_lem z zero i buf ends h f = absurd (omega arith)
scan_se_lem z (suc fuel) i buf ends h f =
    let (b, rb) = at_end-in z i buf ends h in
    let (c, rc) = get_elem?-in buf i (omega arith) in
    elim (Bool-cases (b || c == telnet_se)) [
      | inl stop ↦ (
        i,
        scan_se_stop fuel i c b buf rb rc stop,
        omega arith,
        h,
        IsStop-or fuel i c b buf rb rc stop,
      )
      | inr more ↦
          let lt = before_end z i buf ends h (go-at_end fuel i c b buf rb rc more) in
          let (e, r, lo, hi, st) =
            scan_se_lem z fuel (i + 1) buf ends (omega arith) (omega arith) in
          (e, scan_se_go fuel i c b buf rb rc more ∙ r, omega arith, hi, st)
    ]

-- and so does the scan that replaces control characters, which writes between its start and its stop
pub scan_term_lem :
    (z fuel i : ℕ) (buf : List ℕ)
    → IsEnded z buf
    → i ≤ z
    → z < i + fuel
    → (buf' : List ℕ) × (e : ℕ) × (scan_term fuel buf i ≡ some (buf', e))
      × (i ≤ e)
      × (e ≤ z)
      × IsStop buf' e
      × IsEnded z buf'
      × (length buf' ≡ length buf)
      × ((j : ℕ) → j < i → get_elem? buf' j ≡ get_elem? buf j)
scan_term_lem z zero i buf ends h f = absurd (omega arith)
scan_term_lem z (suc fuel) i buf ends h f =
    let (b, rb) = at_end-in z i buf ends h in
    let (c, rc) = get_elem?-in buf i (omega arith) in
    elim (Bool-cases (b || c == telnet_se)) [
      | inl stop ↦ (
        buf,
        i,
        scan_term_stop fuel i c b buf rb rc stop,
        omega arith,
        h,
        IsStop-or fuel i c b buf rb rc stop,
        ends,
        refl,
        λ j l. refl,
      )
      | inr more ↦
          let lt = before_end z i buf ends h (go-at_end fuel i c b buf rb rc more) in
          let ends' = masked-IsEnded z i c buf ends lt in
          let (buf', e, r, lo, hi, st, last, len, same) =
            scan_term_lem z fuel (i + 1) (masked c i buf) ends' (omega arith) (omega arith) in
          (
            buf',
            e,
            scan_term_go fuel i c b buf rb rc more ∙ r,
            omega arith,
            hi,
            st,
            last,
            len ∙ length-masked i c buf,
            λ j l. same j (omega arith) ∙ masked-get i c j buf (omega arith) l,
          )
    ]
