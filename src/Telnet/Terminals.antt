-- ===== src/Telnet/Terminals.antt =====
-- The report of the name of a terminal in src/server/telnet.c.
use muddled.Base.{
  ℕ, suc, ◌+◌, ◌-◌, ◌≤◌, true, false, not, List, [], ◌∷◌, ◌++◌, append_assoc, ◌≢◌, some, ◌≡◌, refl,
  ap, ◌∙◌, arith, Text, All, length, get_elem?, set, length-append, get_elem?-append_right,
  set-append_right, drop-append_right, take-append_right, ◌>>=◌, ==_false,
}
use muddled.Telnet.{
  iac, telnet_sb, telnet_se, telopt_ttype, Client, telnet_round, take_term, is_term_report,
  mark_high, c_string,
}
use muddled.Telnet.Stops.{after_scan-iac}
use muddled.Telnet.Views.{
  View, View-append, View-at, View-skip, at_end_other, scan_term_printable, IsPrintable,
}
use muddled.Telnet.Rounds.{is_term_report_eq, on_sb_term, telnet_round_sb}
use muddled.Telnet.Commands.{terminal, respond, IsWellFormed, with_buf, Takes}

marked_name :
    (name rest : List ℕ)
    → All (λ b. (0x20 ≤ b) × (b ≤ 0x7f)) name
    → mark_high (name ++ (0 ∷ rest)) ≡ some (name ++ (0 ∷ rest))
unfolding mark_high
marked_name [] rest h = refl
marked_name (b ∷ bs) rest ((lo, hi), h) = let ih = marked_name bs rest h in ground (arith, ih)

text_of_name :
    (name rest : List ℕ)
    → All (λ b. (0x20 ≤ b) × (b ≤ 0x7f)) name
    → c_string (name ++ (0 ∷ rest)) ≡ some name
unfolding c_string
text_of_name [] rest h = refl
text_of_name (b ∷ bs) rest ((lo, hi), h) = let ih = text_of_name bs rest h in ground (arith, ih)

name-IsPrintable :
    (name : List ℕ) → All (λ b. (0x20 ≤ b) × (b ≤ 0x7f)) name → IsPrintable (name ++ (iac ∷ []))
name-IsPrintable [] h = ((omega arith, λ e. omega arith), tt)
name-IsPrintable (b ∷ bs) ((lo, hi), h) = ((lo, λ e. omega arith), name-IsPrintable bs h)

first_of_name :
    (name rest : List ℕ)
    → All (λ b. (0x20 ≤ b) × (b ≤ 0x7f)) name
    → (b : ℕ) × (get_elem? (name ++ (iac ∷ rest)) 0 ≡ some b) × (b ≢ 0)
first_of_name [] rest h = (iac, refl, λ e. omega arith)
first_of_name (b ∷ bs) rest ((lo, hi), h) = (b, refl, λ e. omega arith)

module _ (name : Text) (c : Client) (pre rest : List ℕ) where
  abbrev term_head : List ℕ
  term_head = iac ∷ telnet_sb ∷ telopt_ttype ∷ 0 ∷ []

  abbrev sent_name : List ℕ
  sent_name = term_head ++ (name ++ (iac ∷ telnet_se ∷ rest))

  abbrev left_name : List ℕ
  left_name = term_head ++ (name ++ (0 ∷ telnet_se ∷ rest))

  name_buf :
      (e : ℕ)
      → e ≡ length pre + 4 + length name + 1
      → set (pre ++ sent_name) (e - 1) 0 ≡ pre ++ left_name
  name_buf e h =
      ap (λ j. set (pre ++ sent_name) j 0) (omega (arith, h, length-append term_head name))
      ∙ set-append_right pre sent_name (4 + length name) 0
      ∙ ap (λ r. pre ++ r)
          (set-append_right term_head (name ++ (iac ∷ telnet_se ∷ rest)) (length name) 0
            ∙ ap (λ r. term_head ++ r)
                (ap (λ j. set (name ++ (iac ∷ telnet_se ∷ rest)) j 0) (omega arith)
                  ∙ set-append_right name (iac ∷ telnet_se ∷ rest) 0 0))

  name-term :
      (e : ℕ)
      → e ≡ length pre + 4 + length name + 1
      → All (λ b. (0x20 ≤ b) × (b ≤ 0x7f)) name
      → take_term (with_buf c (pre ++ sent_name)) (length pre + 4) e
        ≡ some (with_buf (respond (terminal name) c) (pre ++ left_name))
  unfolding take_term
  name-term e h ok =
      rw
        (
          name_buf e h,
          drop-append_right pre left_name 4,
          ◌>>=◌,
          marked_name name (telnet_se ∷ rest) ok,
          text_of_name name (telnet_se ∷ rest) ok,
          take-append_right pre left_name 4,
          append_assoc,
        )
        refl

  name-View : View (pre ++ sent_name) (length pre + 4) ((name ++ (iac ∷ [])) ++ (telnet_se ∷ rest))
  name-View = rw (append_assoc name (iac ∷ []) (telnet_se ∷ rest)) (
      View-skip (pre ++ sent_name) (length pre) (length pre + 4) term_head
        (name ++ (iac ∷ telnet_se ∷ rest)) (View-append pre sent_name) refl)

  name_stop :
      (k j e : ℕ)
      → e ≡ length pre + 4 + length name + 1
      → j + 1 ≡ e + k
      → get_elem? (pre ++ sent_name) j ≡ get_elem? (iac ∷ telnet_se ∷ rest) k
  name_stop k j e h q =
      View-at (pre ++ sent_name) (length pre + 4) (name ++ (iac ∷ telnet_se ∷ rest))
        (length name + k) j
        (View-skip (pre ++ sent_name) (length pre) (length pre + 4) term_head
          (name ++ (iac ∷ telnet_se ∷ rest)) (View-append pre sent_name) refl)
        (omega arith)
      ∙ get_elem?-append_right name (iac ∷ telnet_se ∷ rest) k

  name_report :
      All (λ b. (0x20 ≤ b) × (b ≤ 0x7f)) name
      → is_term_report (pre ++ sent_name) (length pre + 2) ≡ some true
  name_report ok =
      let n = length pre in
      let buf = pre ++ sent_name in
      let v = View-append pre sent_name in
      let (b, first, pos) = first_of_name name (telnet_se ∷ rest) ok in
      is_term_report_eq buf (n + 2) telopt_ttype 0 b (v 2)
        (View-at buf n sent_name 3 (n + 2 + 1) v (omega arith))
        (View-at buf n sent_name 4 (n + 2 + 2) v (omega arith) ∙ first)
      ∙ ap (λ t. some (not t)) (==_false b 0 pos)

  name_round :
      All (λ b. (0x20 ≤ b) × (b ≤ 0x7f)) name
      → telnet_round (with_buf c (pre ++ sent_name)) (length pre)
        ≡ some (record {
          conn = with_buf (respond (terminal name) c) (pre ++ left_name);
          place = length pre + 4 + length name + 1 + 1;
          finished = false;
        })
  name_round ok =
      let n = length pre in
      let buf = pre ++ sent_name in
      let c' = with_buf c buf in
      let v = View-append pre sent_name in
      let e = n + 4 + length name + 1 in
      let s =
        scan_term_printable (suc (length buf)) (n + 4) buf (name ++ (iac ∷ [])) rest name-View
          (name-IsPrintable name ok)
          (omega (
            arith,
            length-append pre sent_name,
            length-append term_head (name ++ (iac ∷ telnet_se ∷ rest)),
            length-append name (iac ∷ telnet_se ∷ rest),
            length-append name (iac ∷ []),
          )) in
      telnet_round_sb c' n telnet_sb (v 1) refl refl
      ∙ on_sb_term c' n telopt_ttype e buf (name_report ok) (v 2)
          (s ∙ ap (λ p. some (buf, p)) (omega (arith, length-append name (iac ∷ []))))
      ∙ after_scan-iac c' (λ x. take_term x (n + 4)) e n
          (with_buf (respond (terminal name) c) (pre ++ left_name))
          (at_end_other buf e telnet_se (name_stop 1 e e refl (omega arith)) refl)
          (name_stop 0 (e - 1) e refl (omega arith)) (name-term e refl ok)

  pub terminal-Takes : IsWellFormed (terminal name) → Takes (terminal name) c pre rest
  terminal-Takes ok = (
    term_head ++ (name ++ (0 ∷ telnet_se ∷ [])),
    omega
        (arith, length-append name (0 ∷ telnet_se ∷ []), length-append name (iac ∷ telnet_se ∷ [])),
    rw (append_assoc name (iac ∷ telnet_se ∷ []) rest, append_assoc name (0 ∷ telnet_se ∷ []) rest)
        (name_round ok
          ∙ ap
              (λ p. some (record {
                conn = with_buf (respond (terminal name) c) (pre ++ left_name);
                place = p;
                finished = false;
              }))
              (omega (arith, length-append name (0 ∷ telnet_se ∷ [])))),
  )
