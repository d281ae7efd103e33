-- ===== src/Input.antt =====
-- src/server/client.c: a line is taken from the input of a connection.
pub mod Lines
pub mod Commands
use mathlib.Core.List.{reverse}
use muddled.Base.{
  ℕ, zero, suc, ◌+◌, ◌-◌, Bool, true, false, not, ◌&&◌, ◌||◌, List, [], ◌∷◌, ◌++◌, Option, none,
  some, Text, codes, tolower, length, get_elem?, set, take, drop, ◌>>=◌, ltb, leb, ◌==◌,
  if◌then◌else◌,
}
use muddled.Telnet.{iac, Client, c_string, process_telnet}

-- What `parse_input_buffer` reads and writes of a connection.
pub record Input : Type 0 where
  pub conn : Client
  pub incomm : Text
  pub last_command : Text
  pub repeat : ℕ

abbrev pub newline : ℕ
newline = 10

abbrev pub return : ℕ
return = 13

abbrev pub is_newline : ℕ → Bool
is_newline c = c == newline || c == return

-- the sizes of `incomm` and of `lastCommand`
abbrev pub arg_siz : ℕ
arg_siz = 1024

abbrev pub buf_siz : ℕ
buf_siz = 512

-- The first loop, which leaves the telnet commands to `process_telnet`: whether a line has come. A
-- read outside the buffer is `none`.
pub find_line : ℕ → Client → ℕ → Option (Client × Bool)
find_line zero conn i = none
find_line (suc fuel) conn i = do
  b ← get_elem? conn.inbuf i
  elim (is_newline b) [
    | true ↦ some (conn, true)
    | false ↦ do
      conn' ← elim (b == iac) [ true ↦ process_telnet conn i | false ↦ some conn ]
      b' ← get_elem? conn'.inbuf i
      elim (b' == 0) [ true ↦ some (conn', false) | false ↦ find_line fuel conn' (i + 1) ]
  ]

-- How the second loop ends: in front of the rest at a line's end, or as it writes behind `incomm`, or
-- reads behind `inbuf`; `typed` are the bytes of `incomm`, the last first. With `sizeof(conn->inbuf) - 4` bytes the line is too long.
pub data Copy : Type 0 where
  copied : Text → List ℕ → Copy
  too_long : Text → List ℕ → Copy
  overflows outside : Copy

pub copy_byte : Text → ℕ → Option Text
copy_byte typed b =
    if b == 8 && ltb 0 (length typed)
    then some (drop 1 typed)
    else if ltb 0x1F b && (not (b == 0x7F) && not (b == 0xFF))
    then (if ltb (length typed) arg_siz then some (b ∷ typed) else none)
    else some typed

pub copy_line : Text → List ℕ → Copy
unfolding copy_byte
copy_line typed [] = outside
copy_line typed (b ∷ bs) =
    if is_newline b
    then copied typed (b ∷ bs)
    else if leb 4092 (length typed)
    then too_long typed (b ∷ bs)
    else elim (copy_byte typed b) [ none ↦ overflows | some t ↦ copy_line t bs ]

-- `strcasecmp(s, t) != 0`
unfoldable pub strcasecmp : Text → Text → Bool
strcasecmp [] [] = false
strcasecmp [] (d ∷ t) = true
strcasecmp (c ∷ s) [] = true
strcasecmp (c ∷ s) (d ∷ t) = if tolower c == tolower d then strcasecmp s t else true

abbrev pub is_again : Text → Bool
is_again [] = false
is_again (c ∷ s) = c == b'!'

-- The command and the count behind the test for repeated lines; `k` is the length of the line.
pub count_repeats : ℕ → Text → Text → ℕ → Text × ℕ
unfolding strcasecmp
count_repeats k incomm last_command repeat =
    if not (ltb 1 k || is_again incomm)
    then (incomm, repeat)
    else if not (is_again incomm) && strcasecmp incomm last_command
    then (incomm, 0)
    else if leb 45 (repeat + 1)
    then (codes "quit", 0)
    else (incomm, repeat + 1)

-- The line and the line before, where a mark stands for the line before; `none` is a copy that does
-- not fit in `lastCommand`.
pub recall : Text → Text → Option (Text × Text)
recall incomm last_command =
    if is_again incomm
    then some (last_command, last_command)
    else if ltb (length incomm) buf_siz
    then some (incomm, incomm)
    else none

-- the loop over the end of the line, which takes each of its two bytes once
pub skip_newlines : Bool → Bool → List ℕ → List ℕ
skip_newlines got_r got_n [] = []
skip_newlines got_r got_n (b ∷ bs) =
    let rest = skip_newlines (got_r || b == return) (got_n || b == newline) bs in
    if not (is_newline b) || (b == return && got_r || b == newline && got_n) then b ∷ bs else rest

-- what comes behind the copy of `typed` in front of `bs`
pub take_line : Input → Text → List ℕ → Option (Input × Bool)
unfolding count_repeats recall skip_newlines c_string
take_line inp typed bs =
    let line = take (arg_siz - 1) (reverse typed) in
    let (incomm, repeat) = count_repeats (length typed) line inp.last_command inp.repeat in
    do
      (said, last) ← recall incomm inp.last_command
      s ← c_string (skip_newlines false false bs)
      some (
        record inp {
          conn = record (inp.conn) { inbuf = s ++ (0 ∷ drop (length s + 1) inp.conn.inbuf) };
          incomm = said;
          last_command = last;
          repeat = repeat;
        },
        true,
      )

-- the rest of a line that is too long
pub to_line_end : List ℕ → List ℕ
to_line_end [] = []
to_line_end (b ∷ bs) = let rest = to_line_end bs in if b == 0 || is_newline b then b ∷ bs else rest

-- `conn->inbuf[i] = '\n'; conn->inbuf[i + 1] = 0;`
pub end_line : Client → List ℕ → Client
unfolding to_line_end
end_line conn bs =
    let i = length conn.inbuf - length (to_line_end bs) in
    record conn { inbuf = set (set conn.inbuf i newline) (i + 1) 0 }

pub parse_input_buffer : Input → Option (Input × Bool)
unfolding find_line copy_line take_line end_line
parse_input_buffer inp = elim inp.incomm [
  | c ∷ s ↦ some (inp, true)
  | [] ↦ do
    (conn, found) ← find_line (suc (length inp.conn.inbuf)) inp.conn 0
    elim found [
      | false ↦ some (record inp { conn = conn }, false)
      | true ↦ elim (copy_line [] conn.inbuf) [
        | copied typed bs ↦ take_line (record inp { conn = conn }) typed bs
        | too_long typed bs ↦
            take_line (record inp { conn = end_line conn bs }) typed (newline ∷ 0 ∷ [])
        | overflows ↦ none
        | outside ↦ none
      ]
    ]
]
