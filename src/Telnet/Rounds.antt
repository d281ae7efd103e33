-- ===== src/Telnet/Rounds.antt =====
-- One round of the parser of src/server/telnet.c, command by command.
use muddled.Base.{
  ℕ, suc, ◌+◌, ◌-◌, ◌≤◌, ◌<◌, true, false, not, ◌&&◌, List, inl, inr, some, ◌≡◌, refl, ap, ◌∙◌,
  arith, length, get_elem?, get_elem?-in, ◌>>=◌, ◌==◌, if◌then◌else◌, Bool-cases,
}
use muddled.Telnet.{
  telnet_se, iac, telnet_sb, telopt_naws, telopt_ttype, after_scan, scan_se, scan_term, Client,
  Round, take_term, take_naws, on_option, is_term_report, on_sb, telnet_round,
}
use muddled.Telnet.Scan.{IsEnded, scan_se_lem, scan_term_lem}
use muddled.Telnet.Reports.{Keeps, take_term_lem, take_naws_lem}
use muddled.Telnet.Stops.{
  IsRound, Keeps-refl, IsRound-trans, IsRound-next, IsRound-last, after_scan_lem,
}
use muddled.Telnet.Options.{before_z, apart, before_z_next, on_option_lem}

pub is_term_report_eq :
    (buf : List ℕ) (i a b c : ℕ)
    → get_elem? buf i ≡ some a
    → get_elem? buf (i + 1) ≡ some b
    → get_elem? buf (i + 2) ≡ some c
    → is_term_report buf i ≡ some (a == telopt_ttype && (b == 0 && not (c == 0)))
unfolding is_term_report
is_term_report_eq buf i a b c ra rb rc = elim (Bool-cases (a == telopt_ttype)) [
  | inl t ↦ elim (Bool-cases (b == 0)) [
    | inl s ↦ rw (ra, ◌>>=◌, t, rb, s, rc) refl
    | inr s ↦ rw (ra, ◌>>=◌, t, rb, s) refl
  ]
  | inr t ↦ rw (ra, ◌>>=◌, t) refl
]

-- a report of the terminal has three bytes before the end
term_report_place :
    (z i a b c : ℕ) (buf : List ℕ)
    → IsEnded z buf
    → i ≤ z
    → get_elem? buf i ≡ some a
    → get_elem? buf (i + 1) ≡ some b
    → get_elem? buf (i + 2) ≡ some c
    → (a == telopt_ttype && (b == 0 && not (c == 0))) ≡ true
    → i + 2 < z
term_report_place z i a b c buf ends l ra rb rc t =
    let lt = before_z z i a buf ends ra l (ground arith) in
    before_z_next z (i + 1) (i + 2) c buf ends rc (omega arith) (omega arith) (ground arith)

-- `case SB` by what the two tests say
pub on_sb_term :
    (c : Client) (i opt e : ℕ) (buf : List ℕ)
    → is_term_report c.inbuf (i + 2) ≡ some true
    → get_elem? c.inbuf (i + 2) ≡ some opt
    → scan_term (suc (length c.inbuf)) c.inbuf (i + 4) ≡ some (buf, e)
    → on_sb c i ≡ after_scan (λ d. take_term d (i + 4)) (record c { inbuf = buf }) e i
unfolding on_sb
on_sb_term c i opt e buf t o s = rw (t, ◌>>=◌, o, s) refl

pub on_sb_naws :
    (c : Client) (i opt e : ℕ)
    → is_term_report c.inbuf (i + 2) ≡ some false
    → get_elem? c.inbuf (i + 2) ≡ some opt
    → (opt == telopt_naws) ≡ true
    → scan_se (suc (length c.inbuf)) c.inbuf (i + 3) ≡ some e
    → on_sb c i ≡ after_scan (λ d. take_naws d (i + 3)) c e i
unfolding on_sb
on_sb_naws c i opt e t o n s = rw (t, ◌>>=◌, o, n, s) refl

on_sb_other :
    (c : Client) (i opt e b : ℕ)
    → is_term_report c.inbuf (i + 2) ≡ some false
    → get_elem? c.inbuf (i + 2) ≡ some opt
    → (opt == telopt_naws) ≡ false
    → scan_se (suc (length c.inbuf)) c.inbuf (i + 2) ≡ some e
    → get_elem? c.inbuf e ≡ some b
    → on_sb c i
      ≡ some (
          if b == telnet_se
          then record { conn = c; place = e + 1; finished = false }
          else record { conn = c; place = i; finished = true })
unfolding on_sb
on_sb_other c i opt e b t o n s rb = rw (t, ◌>>=◌, o, n, s, rb) refl

skip_place :
    (z i e b : ℕ) (c : Client)
    → IsEnded z c.inbuf
    → i < e
    → e ≤ z
    → get_elem? c.inbuf e ≡ some b
    → IsRound z i c (
        if b == telnet_se
        then record { conn = c; place = e + 1; finished = false }
        else record { conn = c; place = i; finished = true })
skip_place z i e b c ends lo hi rb = elim (Bool-cases (b == telnet_se)) [
  | inl se ↦
      let lt = before_z z e b c.inbuf ends rb hi (ground arith) in
      rw se (IsRound-next z i e c c (Keeps-refl z i c ends) lo lt)
  | inr other ↦ rw other (IsRound-last z i c ends (omega arith))
]

module _ (z i a : ℕ) (c : Client) (ends : IsEnded z c.inbuf) (l : i + 2 ≤ z)
    (ra : get_elem? c.inbuf (i + 2) ≡ some a) where
  on_sb-term :
      is_term_report c.inbuf (i + 2) ≡ some true
      → i + 4 < z
      → (r : Round) × (on_sb c i ≡ some r) × IsRound z i c r
  on_sb-term t lt =
      let (buf, e, s, lo, hi, st, ends', len, same) =
        scan_term_lem z (suc (length c.inbuf)) (i + 4) c.inbuf ends (omega arith) (omega arith) in
      let c' : Client = record c { inbuf = buf } in
      let keep : Keeps z i c c' = (ends', len, λ j h. same j (omega arith), λ h. h) in
      let (r, q, ok) =
        after_scan_lem z i e c' (λ d. take_term d (i + 4)) ends' (omega arith) hi st
          (λ h _.
            take_term_lem z i (i + 4) e c' ends' (omega arith) h (omega arith) (omega arith)) in
      (r, on_sb_term c i a e buf t ra s ∙ q, IsRound-trans z i c c' r keep ok)

  on_sb-naws :
      is_term_report c.inbuf (i + 2) ≡ some false
      → (a == telopt_naws) ≡ true
      → (r : Round) × (on_sb c i ≡ some r) × IsRound z i c r
  on_sb-naws t n =
      let lt = before_z z (i + 2) a c.inbuf ends ra l (ground arith) in
      let (e, s, lo, hi, st) =
        scan_se_lem z (suc (length c.inbuf)) (i + 3) c.inbuf ends (omega arith) (omega arith) in
      let (r, q, ok) =
        after_scan_lem z i e c (λ d. take_naws d (i + 3)) ends (omega arith) hi st
          (λ h b.
            let other = apart (e - 1) (i + 2) iac a c.inbuf b ra (ground arith) in
            take_naws_lem z i (i + 3) e c ends (omega arith) h (omega arith)) in
      (r, on_sb_naws c i a e t ra n s ∙ q, ok)

  on_sb-other :
      is_term_report c.inbuf (i + 2) ≡ some false
      → (a == telopt_naws) ≡ false
      → (r : Round) × (on_sb c i ≡ some r) × IsRound z i c r
  on_sb-other t n =
      let (e, s, lo, hi, st) =
        scan_se_lem z (suc (length c.inbuf)) (i + 2) c.inbuf ends l (omega arith) in
      let (b, rb) = get_elem?-in c.inbuf e (omega arith) in
      (_, on_sb_other c i a e b t ra n s rb, skip_place z i e b c ends (omega arith) hi rb)

on_sb_lem :
    (z i : ℕ) (c : Client)
    → IsEnded z c.inbuf
    → i + 2 ≤ z
    → (r : Round) × (on_sb c i ≡ some r) × IsRound z i c r
on_sb_lem z i c ends l =
    let (a, ra) = get_elem?-in c.inbuf (i + 2) (omega arith) in
    let (b, rb) = get_elem?-in c.inbuf (i + 2 + 1) (omega arith) in
    let (d, rd) = get_elem?-in c.inbuf (i + 2 + 2) (omega arith) in
    let t = is_term_report_eq c.inbuf (i + 2) a b d ra rb rd in
    elim (Bool-cases (a == telopt_ttype && (b == 0 && not (d == 0)))) [
      | inl term ↦
          let lt = term_report_place z (i + 2) a b d c.inbuf ends l ra rb rd term in
          on_sb-term z i a c ends l ra (t ∙ ap some term) (omega arith)
      | inr other ↦ elim (Bool-cases (a == telopt_naws)) [
        | inl naws ↦ on_sb-naws z i a c ends l ra (t ∙ ap some other) naws
        | inr skip ↦ on_sb-other z i a c ends l ra (t ∙ ap some other) skip
      ]
    ]

module _ (c : Client) (i cmd : ℕ) (rc : get_elem? c.inbuf (i + 1) ≡ some cmd) where
  telnet_round-iac :
      (cmd == iac) ≡ true
      → telnet_round c i ≡ some (record { conn = c; place = i; finished = true })
  unfolding telnet_round
  telnet_round-iac h = rw (rc, ◌>>=◌, h) refl

  pub telnet_round_sb :
      (cmd == iac) ≡ false → (cmd == telnet_sb) ≡ true → telnet_round c i ≡ on_sb c i
  unfolding telnet_round
  telnet_round_sb h k = rw (rc, ◌>>=◌, h, k) refl

  pub telnet_round_option :
      (opt : ℕ)
      → get_elem? c.inbuf (i + 2) ≡ some opt
      → (cmd == iac) ≡ false
      → (cmd == telnet_sb) ≡ false
      → telnet_round c i ≡ some (on_option c i cmd opt)
  unfolding telnet_round
  telnet_round_option opt ro h k = rw (rc, ◌>>=◌, h, k, ro) refl

pub telnet_round_lem :
    (z i : ℕ) (c : Client)
    → IsEnded z c.inbuf
    → i < z
    → (r : Round) × (telnet_round c i ≡ some r) × IsRound z i c r
telnet_round_lem z i c ends lt =
    let (cmd, rc) = get_elem?-in c.inbuf (i + 1) (omega arith) in
    let (opt, ro) = get_elem?-in c.inbuf (i + 2) (omega arith) in
    elim (Bool-cases (cmd == iac)) [
      | inl escaped ↦ (
        record { conn = c; place = i; finished = true },
        telnet_round-iac c i cmd rc escaped,
        IsRound-last z i c ends (omega arith),
      )
      | inr other ↦ elim (Bool-cases (cmd == telnet_sb)) [
        | inl sb ↦
            let lo = before_z z (i + 1) cmd c.inbuf ends rc (omega arith) (ground arith) in
            let (r, q, ok) = on_sb_lem z i c ends (omega arith) in
            (r, telnet_round_sb c i cmd rc other sb ∙ q, ok)
        | inr option ↦ (
          on_option c i cmd opt,
          telnet_round_option c i cmd rc opt ro other option,
          on_option_lem z i cmd opt c ends lt rc ro,
        )
      ]
    ]
