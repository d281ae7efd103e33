-- ===== src/Tests/Sessions.antt =====
-- Runs of the parser of src/server/telnet.c and of the lines of src/server/client.c.
use muddled.Base.{
  ℕ, ◌<◌, false, List, [], ◌∷◌, ◌++◌, some, ◌≡◌, refl, arith, Text, codes, length, get_elem?,
  replicate,
}
use muddled.Telnet.{
  test_telopts, iac, telnet_do, telnet_will, telopt_naws, telopt_tspeed, Client, send_telopt,
  process_telnet,
}
use muddled.Telnet.Reports.{InRange}
use muddled.Telnet.Safety.{process_telnet_lem}
use muddled.Telnet.Commands.{Command, option, window, terminal, with_buf}
use muddled.Telnet.Refinement.{encode_all, respond_all, process_telnet_commands}
use muddled.Telnet.Incomplete.{process_telnet_incomplete}
use muddled.Input.{Input}

abbrev plain : List ℕ → Client
plain buf = record {
  websocket = false;
  inbuf = buf;
  sent = [];
  term_type = [];
  scr_width = 80;
  scr_height = 24;
}

-- `send` of an answer, and nothing left of the command
offered :
    process_telnet (plain (iac ∷ telnet_will ∷ telopt_naws ∷ 0 ∷ 0 ∷ 0 ∷ [])) 0
    ≡ some (record (plain (0 ∷ telnet_will ∷ telopt_naws ∷ 0 ∷ 0 ∷ 0 ∷ [])) {
      sent = (iac ∷ telnet_do ∷ telopt_naws ∷ []) ∷ [];
    })
unfolding process_telnet send_telopt
offered = refl

abbrev offer : Client
offer = plain (iac ∷ telnet_will ∷ telopt_naws ∷ 0 ∷ 0 ∷ 0 ∷ [])

process_telnet_lem_example :
    (d : Client) × (process_telnet offer 0 ≡ some d)
    × (length d.inbuf ≡ length offer.inbuf)
    × ((j : ℕ) → j < 0 → get_elem? d.inbuf j ≡ get_elem? offer.inbuf j)
    × (InRange offer → InRange d)
process_telnet_lem_example = process_telnet_lem 3 0 offer (refl, refl, omega arith) (omega arith)

abbrev greeting : List Command
greeting = window 100 40 ∷ option telnet_will telopt_tspeed ∷ terminal (codes "xterm") ∷ []

process_telnet_commands_example :
    (tail' : List ℕ) × (process_telnet
        (with_buf (plain []) (codes "lo" ++ (encode_all greeting ++ (codes "ok" ++ (0 ∷ 0 ∷ [])))))
        2
      ≡ some
          (with_buf (respond_all greeting (plain [])) (codes "lo" ++ (codes "ok" ++ (0 ∷ tail')))))
process_telnet_commands_example =
    process_telnet_commands greeting (plain []) (codes "lo") (codes "ok") (0 ∷ [])
      (
        (omega arith, omega arith, omega arith, omega arith),
        ((omega arith, omega arith, λ e. omega arith), (omega arith, tt)),
      )
      ((λ e. omega arith, λ e. omega arith), ((λ e. omega arith, λ e. omega arith), tt))

process_telnet_incomplete_example :
    process_telnet (with_buf (plain []) (codes "lo" ++ (iac ∷ telnet_will ∷ 0 ∷ 0 ∷ []))) 2
    ≡ some (with_buf (plain []) (codes "lo" ++ (0 ∷ telnet_will ∷ 0 ∷ 0 ∷ [])))
process_telnet_incomplete_example =
    process_telnet_incomplete telnet_will (plain []) (codes "lo") [] (omega arith) (omega arith)

-- a player who has typed a command and has begun another
abbrev typing : Input
typing = record {
  conn = plain (codes "look" ++ (13 ∷ 10 ∷ (codes "up" ++ (0 ∷ 0 ∷ []))));
  incomm = [];
  last_command = codes "north";
  repeat = 3;
}

abbrev long_line : Text
long_line = replicate 600 b'a'

abbrev flooding : Input
flooding = record {
  conn = plain (long_line ++ (10 ∷ 0 ∷ []));
  incomm = [];
  last_command = codes "north";
  repeat = 0;
}

asked_speed : test_telopts (plain []) ≡ record (plain []) { sent = (255 ∷ 253 ∷ 32 ∷ []) ∷ [] }
unfolding test_telopts
asked_speed = refl
