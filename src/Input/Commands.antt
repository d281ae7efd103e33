-- ===== src/Input/Commands.antt =====
-- What src/server/client.c makes of a line of printable text.
use muddled.Base.{
  ℕ, ◌-◌, false, List, [], ◌∷◌, ◌++◌, none, ◌≡◌, Text, All, length, take, ltb, if◌then◌else◌,
}
use muddled.Input.{Input, newline, return, is_newline, arg_siz, is_again, count_repeats, recall}
use muddled.Input.Lines.{IsTyped}

-- the ends of a line that terminals send
pub data LineEnd : Type 0 where
  lf cr crlf lfcr : LineEnd

abbrev pub end_bytes : LineEnd → List ℕ
end_bytes lf = newline ∷ []
end_bytes cr = return ∷ []
end_bytes crlf = return ∷ newline ∷ []
end_bytes lfcr = newline ∷ return ∷ []

-- the bytes of an end, the first apart
abbrev end_first : LineEnd → ℕ
end_first lf = newline
end_first cr = return
end_first crlf = return
end_first lfcr = newline

abbrev end_rest : LineEnd → List ℕ
end_rest lf = []
end_rest cr = []
end_rest crlf = newline ∷ []
end_rest lfcr = return ∷ []

-- text that is no line's end, up to its NUL
abbrev pub StartsLine : Text → Type 0
StartsLine [] = Unit
StartsLine (b ∷ bs) = is_newline b ≡ false

-- the command is the line as it was copied, and there is no room for it in `lastCommand`
abbrev pub TooLong : Input → Text → Type 0
TooLong inp line =
    (count_repeats (length line) (take (arg_siz - 1) line) inp.last_command inp.repeat
      ≡ (take (arg_siz - 1) line, if ltb 1 (length line) then 0 else inp.repeat))
    × (recall (take (arg_siz - 1) line) inp.last_command ≡ none)

module _ (inp : Input) (line : Text) (e : LineEnd) (more tail : List ℕ) (ready : inp.incomm ≡ [])
    (buf : inp.conn.inbuf ≡ line ++ (end_bytes e ++ (more ++ (0 ∷ tail))))
    (typed : All IsTyped line) (first : is_again line ≡ false) where
  -- behind the end of the line
  rest : List ℕ
  rest = end_rest e ++ (more ++ (0 ∷ tail))
