-- ===== src/Telnet/Reports.antt =====
-- What src/server/telnet.c keeps when it takes the reports of a terminal.
use muddled.Base.{
  ℕ, zero, suc, ◌+◌, ◌-◌, ◌*◌, ◌≤◌, ◌<◌, List, [], ◌∷◌, ◌++◌, inl, inr, some, ◌≡◌, refl, ap, ◌∙◌,
  arith, Text, length, get_elem?, set, take, drop, length-append, length-set, length-take,
  length-drop, get_elem?-in, get_elem?-drop, get_elem?-take_append, get_elem?-take_append_right,
  get_elem?-cons_from, get_elem?-set_other, ◌>>=◌, ltb, ◌==◌, if◌then◌else◌, Bool-cases,
}
use muddled.Telnet.{Client, mark_high, c_string, take_term, take_naws, screen_range}
use muddled.Telnet.Scan.{IsEnded, IsEnded-set}

pub mark_high_lem :
    (bs : List ℕ) (k : ℕ)
    → get_elem? bs k ≡ some 0
    → (r : List ℕ) × (mark_high bs ≡ some r)
      × (length r ≡ length bs)
      × ((j : ℕ) → k ≤ j → get_elem? r j ≡ get_elem? bs j)
unfolding mark_high
mark_high_lem [] k h = absurd (cc)
mark_high_lem (b ∷ bs) zero h = (b ∷ bs, ground arith, refl, λ j l. refl)
mark_high_lem (b ∷ bs) (suc k) h =
    let (r, e, len, same) = mark_high_lem bs k h in
    elim (Bool-cases (b == 0)) [
      | inl stop ↦ (b ∷ bs, rw stop refl, refl, λ j l. refl)
      | inr more ↦ (
        (if ltb 0x7f b then b'?' else b) ∷ r,
        rw (more, e) refl,
        ap suc len,
        λ j l. get_elem?-cons_from _ b r bs k j same l,
      )
    ]

pub c_string_lem :
    (bs : List ℕ) (k : ℕ)
    → get_elem? bs k ≡ some 0
    → (t : Text) × (c_string bs ≡ some t) × (length t ≤ k)
unfolding c_string
c_string_lem [] k h = absurd (cc)
c_string_lem (b ∷ bs) zero h = ([], ground arith, omega arith)
c_string_lem (b ∷ bs) (suc k) h =
    let (t, r, l) = c_string_lem bs k h in
    elim (Bool-cases (b == 0)) [
      | inl stop ↦ ([], rw stop refl, omega arith)
      | inr more ↦ (b ∷ t, rw (more, r) refl, omega arith)
    ]

-- what one round keeps: the end, the length, the bytes before `i`, and sizes in their range
abbrev pub InRange : Client → Type 0
InRange c = (10 ≤ c.scr_width) × (c.scr_width ≤ 250) × (10 ≤ c.scr_height) × (c.scr_height ≤ 250)

abbrev pub Keeps : ℕ → ℕ → Client → Client → Type 0
Keeps z i c d =
    IsEnded z d.inbuf
    × (length d.inbuf ≡ length c.inbuf)
    × ((j : ℕ) → j < i → get_elem? d.inbuf j ≡ get_elem? c.inbuf j)
    × (InRange c → InRange d)

pub add_sub : (a b : ℕ) → a ≤ b → a + (b - a) ≡ b
add_sub a b h = omega arith

-- a buffer whose end is written again, but not from `k` on
retail-get :
    (s k j : ℕ) (buf r : List ℕ)
    → s ≤ length buf
    → ((i : ℕ) → k ≤ i → get_elem? r i ≡ get_elem? (drop s buf) i)
    → s ≤ j
    → k ≤ j - s
    → get_elem? (take s buf ++ r) j ≡ get_elem? buf j
retail-get s k j buf r h same lo hi =
    rw (← add_sub s j lo) (
      get_elem?-take_append_right s (j - s) buf r h
      ∙ same (j - s) hi
      ∙ get_elem?-drop s (j - s) buf)

length-retail :
    (s : ℕ) (buf r : List ℕ)
    → s ≤ length buf
    → length r ≡ length (drop s buf)
    → length (take s buf ++ r) ≡ length buf
length-retail s buf r h e =
    omega (arith, length-append (take s buf) r, length-take s buf, length-drop s buf)

pub take_term_lem :
    (z i starts e : ℕ) (c : Client)
    → IsEnded z c.inbuf
    → i + 2 ≤ e
    → e < z
    → i ≤ starts
    → starts ≤ z
    → (d : Client) × (take_term c starts e ≡ some d) × Keeps z i c d
unfolding take_term
take_term_lem z i starts e c ends lo hi s0 s1 =
    let buf = set c.inbuf (e - 1) 0 in
    let ends' = IsEnded-set z (e - 1) 0 c.inbuf ends (omega arith) in
    let len' = length-set c.inbuf (e - 1) 0 in
    let at_z =
      get_elem?-drop starts (z - starts) buf ∙ ap (get_elem? buf) (add_sub starts z s1) ∙ ends'.0 in
    let (r, re, rl, same) = mark_high_lem (drop starts buf) (z - starts) at_z in
    let (t, te, _) = c_string_lem r (z - starts) (same (z - starts) (omega arith) ∙ at_z) in
    (
      record c { inbuf = take starts buf ++ r; term_type = t },
      rw (re, ◌>>=◌, te) refl,
      (
        (
          retail-get starts (z - starts) z buf r (omega arith) same s1 (omega arith) ∙ ends'.0,
          retail-get starts (z - starts) (z + 1) buf r (omega arith) same (omega arith)
                (omega arith)
              ∙ ends'.1,
          omega (arith, length-retail starts buf r (omega arith) rl),
        ),
        length-retail starts buf r (omega arith) rl ∙ len',
        λ j l.
            get_elem?-take_append starts j buf r (omega arith) (omega arith)
            ∙ get_elem?-set_other c.inbuf (e - 1) j 0 (omega arith) (omega arith),
        λ h. h,
      ),
    )

screen_range_lo : (x : ℕ) → 10 ≤ screen_range x
unfolding screen_range
screen_range_lo x = ground arith

screen_range_hi : (x : ℕ) → screen_range x ≤ 250
unfolding screen_range
screen_range_hi x = ground arith

pub naws_eq :
    (c : Client) (j e t1 t2 t3 t4 : ℕ)
    → let buf = set c.inbuf (e - 1) 0 in
      get_elem? buf (j + 1) ≡ some t1
      → get_elem? buf (j + 2) ≡ some t2
      → get_elem? buf (j + 3) ≡ some t3
      → get_elem? buf (j + 4) ≡ some t4
      → take_naws c j e
        ≡ some (record c {
          inbuf = buf;
          scr_width = screen_range (t1 + t2 * 16);
          scr_height = screen_range (t3 + t4 * 16);
        })
unfolding take_naws
naws_eq c j e t1 t2 t3 t4 r1 r2 r3 r4 = rw (r1, ◌>>=◌, r2, r3, r4) refl

pub take_naws_lem :
    (z i j e : ℕ) (c : Client)
    → IsEnded z c.inbuf
    → i + 2 ≤ e
    → e < z
    → j + 2 ≤ z
    → (d : Client) × (take_naws c j e ≡ some d) × Keeps z i c d
unfolding take_naws
take_naws_lem z i j e c ends lo hi s =
    let buf = set c.inbuf (e - 1) 0 in
    let len = length-set c.inbuf (e - 1) 0 in
    let (t1, r1) = get_elem?-in buf (j + 1) (omega arith) in
    let (t2, r2) = get_elem?-in buf (j + 2) (omega arith) in
    let (t3, r3) = get_elem?-in buf (j + 3) (omega arith) in
    let (t4, r4) = get_elem?-in buf (j + 4) (omega arith) in
    (
      record c {
        inbuf = buf;
        scr_width = screen_range (t1 + t2 * 16);
        scr_height = screen_range (t3 + t4 * 16);
      },
      naws_eq c j e t1 t2 t3 t4 r1 r2 r3 r4,
      (
        IsEnded-set z (e - 1) 0 c.inbuf ends (omega arith),
        len,
        λ k l. get_elem?-set_other c.inbuf (e - 1) k 0 (omega arith) (omega arith),
        λ h. (
          screen_range_lo (t1 + t2 * 16),
          screen_range_hi (t1 + t2 * 16),
          screen_range_lo (t3 + t4 * 16),
          screen_range_hi (t3 + t4 * 16),
        ),
      ),
    )
