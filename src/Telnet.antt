-- ===== src/Telnet.antt =====
-- src/server/telnet.c: the options of a connection, and the removal of telnet commands from its input.
pub mod Scan
pub mod Reports
pub mod Stops
pub mod Options
pub mod Rounds
pub mod Safety
pub mod Views
pub mod Commands
pub mod Windows
pub mod Terminals
pub mod Refinement
pub mod Incomplete
use muddled.Base.{
  ℕ, zero, suc, ◌+◌, ◌-◌, ◌*◌, Bool, true, false, not, ◌||◌, List, [], ◌∷◌, ◌++◌, Option, none,
  some, Text, length, get_elem?, set, take, drop, ◌>>=◌, ltb, ◌==◌, if◌then◌else◌,
}

abbrev pub iac : ℕ
iac = 255

abbrev pub telnet_dont : ℕ
telnet_dont = 254

abbrev pub telnet_do : ℕ
telnet_do = 253

abbrev pub telnet_wont : ℕ
telnet_wont = 252

abbrev pub telnet_will : ℕ
telnet_will = 251

abbrev pub telnet_sb : ℕ
telnet_sb = 250

abbrev pub telnet_se : ℕ
telnet_se = 240

abbrev pub telopt_ttype : ℕ
telopt_ttype = 24

abbrev pub telopt_naws : ℕ
telopt_naws = 31

abbrev pub telopt_tspeed : ℕ
telopt_tspeed = 32

-- What the parser reads and writes of a connection; `sent` are the bytes of each call of send(), the
-- last first.
pub record Client : Type 0 where
  pub websocket : Bool
  pub inbuf : List ℕ
  pub sent : List (List ℕ)
  pub term_type : Text
  pub scr_width : ℕ
  pub scr_height : ℕ

unfoldable pub send_telopt : Client → ℕ → ℕ → Client
send_telopt conn cmd opt =
    if conn.websocket then conn else record conn { sent = (iac ∷ cmd ∷ opt ∷ []) ∷ conn.sent }

-- SEND is 1
pub send_telopt_sb : Client → ℕ → Client
send_telopt_sb conn opt =
    if conn.websocket
    then conn
    else record conn { sent = (iac ∷ telnet_sb ∷ opt ∷ 1 ∷ iac ∷ telnet_se ∷ []) ∷ conn.sent }

unfoldable pub test_telopts : Client → Client
unfolding send_telopt
test_telopts conn = send_telopt conn telnet_do telopt_tspeed

pub advertise_telopts : Client → Client
unfolding send_telopt
advertise_telopts conn = send_telopt (send_telopt conn telnet_do telopt_naws) telnet_do telopt_ttype

-- The state behind one round of the loop. A read outside the buffer, here and below, is `none`.
pub record Round : Type 0 where
  pub conn : Client
  pub place : ℕ
  pub finished : Bool

-- `case DO` and `case DONT`; the place is left, as 3 is taken off it and added again
pub on_do : Client → ℕ → ℕ → Round
on_do conn i opt =
    if opt == 0
    then record { conn = conn; place = i; finished = true }
    else if opt == telopt_tspeed
    then record { conn = advertise_telopts conn; place = i + 3; finished = false }
    else record { conn = conn; place = i + 3; finished = false }

pub on_will : Client → ℕ → ℕ → Round
on_will conn i opt = record {
  conn =
      if opt == telopt_tspeed
      then advertise_telopts conn
      else if opt == telopt_naws
      then send_telopt conn telnet_do telopt_naws
      else if opt == telopt_ttype
      then send_telopt_sb conn telopt_ttype
      else conn;
  place = i + 3;
  finished = opt == 0;
}

pub on_wont : Client → ℕ → ℕ → Round
on_wont conn i opt = record {
  conn = if opt == telopt_tspeed then advertise_telopts conn else conn;
  place = i + 3;
  finished = opt == 0;
}

pub on_unknown : Client → ℕ → ℕ → Round
on_unknown conn i opt =
    if opt == 0
    then record { conn = conn; place = i; finished = true }
    else record { conn = conn; place = i + 3; finished = false }

-- the commands of three bytes
pub on_option : Client → ℕ → ℕ → ℕ → Round
unfolding on_do on_will on_wont on_unknown
on_option conn i cmd opt =
    if cmd == telnet_do || cmd == telnet_dont
    then on_do conn i opt
    else if cmd == telnet_will
    then on_will conn i opt
    else if cmd == telnet_wont
    then on_wont conn i opt
    else on_unknown conn i opt

-- `buf[i] == '\0' && buf[i + 1] == '\0'`
pub at_end : List ℕ → ℕ → Option Bool
at_end buf i = do
  b ← get_elem? buf i
  if b == 0 then (do c ← get_elem? buf (i + 1); some (c == 0)) else some false

-- the two scans for SE, on fuel
pub scan_se : ℕ → List ℕ → ℕ → Option ℕ
scan_se zero buf i = none
scan_se (suc fuel) buf i =
    let rest = scan_se fuel buf (i + 1) in
    do ended ← at_end buf i; b ← get_elem? buf i; if ended || b == telnet_se then some i else rest

-- control characters are replaced on the way
pub scan_term : ℕ → List ℕ → ℕ → Option (List ℕ × ℕ)
scan_term zero buf i = none
scan_term (suc fuel) buf i = do
  ended ← at_end buf i
  b ← get_elem? buf i
  elim (ended || b == telnet_se) [
    | true ↦ some (buf, i)
    | false ↦ scan_term fuel (if ltb b 0x1F then set buf i b'?' else buf) (i + 1)
  ]

-- the text that starts at `i`, up to its NUL
unfoldable pub c_string : List ℕ → Option Text
c_string [] = none
c_string (b ∷ bs) = if b == 0 then some [] else (do t ← c_string bs; some (b ∷ t))

-- `for (j = term_type_starts; buf[j]; j++)` over the rest of the buffer
pub mark_high : List ℕ → Option (List ℕ)
mark_high [] = none
mark_high (b ∷ bs) =
    if b == 0
    then some (b ∷ bs)
    else (do r ← mark_high bs; some ((if ltb 0x7f b then b'?' else b) ∷ r))

-- the name of the terminal, which the bytes IAC SE at `i` end
pub take_term : Client → ℕ → ℕ → Option Client
unfolding c_string mark_high
take_term conn starts i =
    let buf = set conn.inbuf (i - 1) 0 in
    do
      rest ← mark_high (drop starts buf)
      name ← c_string rest
      some (record conn { inbuf = take starts buf ++ rest; term_type = name })

-- `URANGE(10, x, 250)`
pub screen_range : ℕ → ℕ
screen_range x = if ltb x 10 then 10 else if ltb 250 x then 250 else x

-- the size of the window
pub take_naws : Client → ℕ → ℕ → Option Client
unfolding screen_range
take_naws conn j i =
    let buf = set conn.inbuf (i - 1) 0 in
    do
      t1 ← get_elem? buf (j + 1)
      t2 ← get_elem? buf (j + 2)
      t3 ← get_elem? buf (j + 3)
      t4 ← get_elem? buf (j + 4)
      some (record conn {
        inbuf = buf;
        scr_width = screen_range (t1 + t2 * 16);
        scr_height = screen_range (t3 + t4 * 16);
      })

-- what follows a scan that stopped at `i`: back to the start of the command at a double NUL; else the
-- report is taken if IAC stands before SE
pub after_scan : (Client → ℕ → Option Client) → Client → ℕ → ℕ → Option Round
unfolding at_end
after_scan report conn i sb_index = do
  ended ← at_end conn.inbuf i
  elim ended [
    | true ↦ some (record { conn = conn; place = sb_index; finished = true })
    | false ↦ do
      b ← get_elem? conn.inbuf (i - 1)
      conn' ← elim (b == iac) [ true ↦ report conn i | false ↦ some conn ]
      some (record { conn = conn'; place = i + 1; finished = false })
  ]

-- `buf[i] == TELOPT_TTYPE && buf[i + 1] == IS && buf[i + 2] != '\0'`; IS is 0
pub is_term_report : List ℕ → ℕ → Option Bool
is_term_report buf i = do
  a ← get_elem? buf i
  elim (a == telopt_ttype) [
    | false ↦ some false
    | true ↦ do
      b ← get_elem? buf (i + 1)
      elim (b == 0) [
        | false ↦ some false
        | true ↦ (do c ← get_elem? buf (i + 2); some (not (c == 0)))
      ]
  ]

-- `case SB`, where the command starts at `i`
pub on_sb : Client → ℕ → Option Round
unfolding is_term_report scan_term scan_se after_scan take_term take_naws
on_sb conn i =
    let fuel = suc (length conn.inbuf) in
    do
      term ← is_term_report conn.inbuf (i + 2)
      opt ← get_elem? conn.inbuf (i + 2)
      elim term [
        | true ↦ do
          (buf, e) ← scan_term fuel conn.inbuf (i + 4)
          after_scan (λ c. take_term c (i + 4)) (record conn { inbuf = buf }) e i
        | false ↦ elim (opt == telopt_naws) [
          | true ↦ do
            e ← scan_se fuel conn.inbuf (i + 3)
            after_scan (λ c. take_naws c (i + 3)) conn e i
          | false ↦ do
            e ← scan_se fuel conn.inbuf (i + 2)
            b ← get_elem? conn.inbuf e
            some (
                if b == telnet_se
                then record { conn = conn; place = e + 1; finished = false }
                else record { conn = conn; place = i; finished = true })
        ]
      ]

-- the body of the loop of `process_telnet`
pub telnet_round : Client → ℕ → Option Round
unfolding on_sb on_option
telnet_round conn i = do
  cmd ← get_elem? conn.inbuf (i + 1)
  elim (cmd == iac) [
    | true ↦ some (record { conn = conn; place = i; finished = true })
    | false ↦ elim (cmd == telnet_sb) [
      | true ↦ on_sb conn i
      | false ↦ (do opt ← get_elem? conn.inbuf (i + 2); some (on_option conn i cmd opt))
    ]
  ]

pub process_loop : ℕ → Client → ℕ → Option (Client × ℕ)
unfolding telnet_round
process_loop zero conn i = none
process_loop (suc fuel) conn i = do
  b ← get_elem? conn.inbuf i
  elim (b == iac) [
    | false ↦ some (conn, i)
    | true ↦ do
      r ← telnet_round conn i
      elim r.finished [ true ↦ some (r.conn, r.place) | false ↦ process_loop fuel r.conn r.place ]
  ]

-- `memmove(&buf[index], &buf[i], strlen(&buf[i]) + 1)`
pub move_down : List ℕ → ℕ → ℕ → Option (List ℕ)
unfolding c_string
move_down buf index i = do
  s ← c_string (drop i buf)
  some (take index buf ++ (s ++ (0 ∷ drop (index + length s + 1) buf)))

unfoldable pub process_telnet : Client → ℕ → Option Client
unfolding process_loop move_down
process_telnet conn index = do
  (conn', i) ← process_loop (suc (length conn.inbuf)) conn index
  buf ← move_down conn'.inbuf index i
  some (record conn' { inbuf = buf })
