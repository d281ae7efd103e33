-- ===== src/Telnet/Stops.antt =====
-- One round of the parser of src/server/telnet.c behind a scan: what it keeps and where it ends.
use muddled.Base.{
  ℕ, ◌+◌, ◌-◌, ◌≤◌, ◌<◌, true, false, inl, inr, Option, some, ◌≡◌, refl, ap, ◌∙◌, arith, get_elem?,
  get_elem?-in, ◌>>=◌, ◌==◌, ==_iff, Bool-cases,
}
use muddled.Telnet.{iac, at_end, after_scan, Client, Round}
use muddled.Telnet.Scan.{IsEnded, IsStop, before_end}
use muddled.Telnet.Reports.{Keeps}

-- what one round that starts at `i` gives
abbrev pub IsRound : ℕ → ℕ → Client → Round → Type 0
IsRound z i c r =
    Keeps z i c r.conn
    × (i ≤ r.place)
    × (r.finished ≡ true → r.place ≤ z + 1)
    × (r.finished ≡ false → (i < r.place) × (r.place ≤ z))

pub Keeps-refl : (z i : ℕ) (c : Client) → IsEnded z c.inbuf → Keeps z i c c
Keeps-refl z i c e = (e, refl, λ j l. refl, λ h. h)

pub Keeps-trans : (z i : ℕ) (c d e : Client) → Keeps z i c d → Keeps z i d e → Keeps z i c e
Keeps-trans z i c d e (_, l, s, r) (n, l', s', r') =
    (n, l' ∙ l, λ j h. s' j h ∙ s j h, λ h. r' (r h))

pub IsRound-trans :
    (z i : ℕ) (c d : Client) (r : Round) → Keeps z i c d → IsRound z i d r → IsRound z i c r
IsRound-trans z i c d r k (k', a, b, e) = (Keeps-trans z i c d r.conn k k', a, b, e)

pub IsRound-next :
    (z i e : ℕ) (c d : Client)
    → Keeps z i c d
    → i < e
    → e < z
    → IsRound z i c (record { conn = d; place = e + 1; finished = false })
IsRound-next z i e c d k lo hi = (k, omega arith, λ f. absurd (cc), λ _. (omega arith, omega arith))

pub IsRound-last :
    (z i : ℕ) (c : Client)
    → IsEnded z c.inbuf
    → i ≤ z
    → IsRound z i c (record { conn = c; place = i; finished = true })
IsRound-last z i c ends h = (Keeps-refl z i c ends, omega arith, λ _. omega arith, λ f. absurd (cc))

-- the round behind a scan
module _ (c : Client) (report : Client → ℕ → Option Client) (e i : ℕ) where
  after_scan_end :
      at_end c.inbuf e ≡ some true
      → after_scan report c e i ≡ some (record { conn = c; place = i; finished = true })
  unfolding after_scan
  after_scan_end stop = rw (stop, ◌>>=◌) refl

  after_scan_se :
      (b : ℕ)
      → at_end c.inbuf e ≡ some false
      → get_elem? c.inbuf (e - 1) ≡ some b
      → (b == iac) ≡ false
      → after_scan report c e i ≡ some (record { conn = c; place = e + 1; finished = false })
  unfolding after_scan
  after_scan_se b go rb other = rw (go, ◌>>=◌, rb, other) refl

  pub after_scan-iac :
      (d : Client)
      → at_end c.inbuf e ≡ some false
      → get_elem? c.inbuf (e - 1) ≡ some iac
      → report c e ≡ some d
      → after_scan report c e i ≡ some (record { conn = d; place = e + 1; finished = false })
  unfolding after_scan
  after_scan-iac d go rb rd = rw (go, ◌>>=◌, rb, rd) refl

pub after_scan_lem :
    (z i e : ℕ) (c : Client) (report : Client → ℕ → Option Client)
    → IsEnded z c.inbuf
    → i < e
    → e ≤ z
    → IsStop c.inbuf e
    → (e < z
        → get_elem? c.inbuf (e - 1) ≡ some iac
        → (d : Client) × (report c e ≡ some d) × Keeps z i c d)
    → (r : Round) × (after_scan report c e i ≡ some r) × IsRound z i c r
after_scan_lem z i e c report ends lo hi (inl stop) rep = (
  record { conn = c; place = i; finished = true },
  after_scan_end c report e i stop,
  IsRound-last z i c ends (omega arith),
)
after_scan_lem z i e c report ends lo hi (inr (go, se)) rep =
    let lt = before_end z e c.inbuf ends hi go in
    let (b, rb) = get_elem?-in c.inbuf (e - 1) (omega arith) in
    elim (Bool-cases (b == iac)) [
      | inl is_iac ↦
          let rb' = rb ∙ ap some ((==_iff b iac).0 is_iac) in
          let (d, rd, kd) = rep lt rb' in
          (
            record { conn = d; place = e + 1; finished = false },
            after_scan-iac c report e i d go rb' rd,
            IsRound-next z i e c d kd lo lt,
          )
      | inr other ↦ (
        record { conn = c; place = e + 1; finished = false },
        after_scan_se c report e i b go rb other,
        IsRound-next z i e c c (Keeps-refl z i c ends) lo lt,
      )
    ]
