-- ===== src/Telnet/Commands.antt =====
-- Whole commands in the input of src/server/telnet.c: what each one does.
use muddled.Base.{
  ℕ, ◌+◌, ◌≤◌, ◌<◌, false, ◌&&◌, List, [], ◌∷◌, ◌++◌, ◌≢◌, some, ◌≡◌, refl, ap, ◌∙◌, arith, Text,
  All, length, get_elem?-append_right, ltb, ◌==◌, if◌then◌else◌,
}
use muddled.Telnet.{
  iac, telnet_sb, telnet_se, telnet_do, telnet_dont, telnet_will, telopt_naws, telopt_ttype,
  telopt_tspeed, Client, send_telopt, send_telopt_sb, advertise_telopts, on_option, on_do, on_will,
  on_wont, on_unknown, telnet_round,
}
use muddled.Telnet.Rounds.{telnet_round_option}

-- an option that the terminal wants or offers, the size of its window, and its name
pub data Command : Type 0 where
  option : ℕ → ℕ → Command
  window : ℕ → ℕ → Command
  terminal : Text → Command

abbrev pub encode : Command → List ℕ
encode (option cmd opt) = iac ∷ cmd ∷ opt ∷ []
encode (window w h) = iac ∷ telnet_sb ∷ telopt_naws ∷ 0 ∷ w ∷ 0 ∷ h ∷ iac ∷ telnet_se ∷ []
encode (terminal name) = iac ∷ telnet_sb ∷ telopt_ttype ∷ 0 ∷ (name ++ (iac ∷ telnet_se ∷ []))

-- sizes below 240, and names of printable characters
abbrev pub IsWellFormed : Command → Type 0
IsWellFormed (option cmd opt) = (telnet_will ≤ cmd) × (cmd ≤ telnet_dont) × (opt ≢ 0)
IsWellFormed (window w h) = (0 < w) × (w < telnet_se) × (0 < h) × (h < telnet_se)
IsWellFormed (terminal name) = All (λ b. (0x20 ≤ b) × (b ≤ 0x7f)) name

-- the answer to a command, and what is stored of it
abbrev pub respond : Command → Client → Client
respond (option cmd opt) c =
    if opt == telopt_tspeed
    then send_telopt (send_telopt c telnet_do telopt_naws) telnet_do telopt_ttype
    else if cmd == telnet_will && opt == telopt_naws
    then send_telopt c telnet_do telopt_naws
    else if cmd == telnet_will && opt == telopt_ttype
    then send_telopt_sb c telopt_ttype
    else c
respond (window w h) c = record c {
  scr_width = if ltb w 10 then 10 else w;
  scr_height = if ltb h 10 then 10 else h;
}
respond (terminal name) c = record c { term_type = name }

abbrev pub with_buf : Client → List ℕ → Client
with_buf c b = record c { inbuf = b }

-- What a round does at a whole command between `pre` and `rest`: it goes behind the command, of which
-- `mid` is left.
abbrev pub Takes : Command → Client → List ℕ → List ℕ → Type 0
Takes k c pre rest =
    (mid : List ℕ) × (length mid ≡ length (encode k))
    × (telnet_round (with_buf c (pre ++ (encode k ++ rest))) (length pre)
        ≡ some (record {
          conn = with_buf (respond k c) (pre ++ (mid ++ rest));
          place = length pre + length mid;
          finished = false;
        }))

pub option-Takes :
    (cmd opt : ℕ) (c : Client) (pre rest : List ℕ)
    → IsWellFormed (option cmd opt)
    → Takes (option cmd opt) c pre rest
unfolding on_option on_do on_will on_wont on_unknown advertise_telopts send_telopt send_telopt_sb
option-Takes cmd opt c pre rest (lo, hi, n) =
    let buf = pre ++ (iac ∷ cmd ∷ opt ∷ rest) in
    let q =
      telnet_round_option (with_buf c buf) (length pre) cmd
        (get_elem?-append_right pre (iac ∷ cmd ∷ opt ∷ rest) 1) opt
        (get_elem?-append_right pre (iac ∷ cmd ∷ opt ∷ rest) 2) (ground arith) (ground arith) in
    (iac ∷ cmd ∷ opt ∷ [], refl, q ∙ ap some (ground arith))
