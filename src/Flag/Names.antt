-- ===== src/Flag/Names.antt =====
-- src/flag.c: parse_flags, parse_flags_toggle, format_flags.
pub mod RoundTrip
use muddled.Base.{
  ℕ, ◌+◌, not, List, [], ◌∷◌, ◌++◌, Option, none, some, Text, codes, ◌==◌, if◌then◌else◌,
}
use muddled.Flag.Defs.{Flag, set_bit, toggle_bit, is_set}
use muddled.Lookup.{Lookup, Table, value_lookup, not_found}
use muddled.Str.Args.{is_name, is_nil}

-- the tokens that `strtok(format, ",")` returns in turn: the runs of bytes between commas
pub tokens : Text → Text → List Text
tokens cur [] = if is_nil cur then [] else cur ∷ []
tokens cur (c ∷ s) =
    let at_comma = tokens [] s in
    let longer = tokens (cur ++ c ∷ []) s in
    if c == b',' then (if is_nil cur then at_comma else cur ∷ at_comma) else longer

-- the loop over the tokens, with `res`
pub parse_tokens : Flag → ℕ → Table → List Text → Flag × ℕ
parse_tokens flags res table [] = (flags, res)
parse_tokens flags res table (name ∷ names) =
    let f = value_lookup table (some name) in
    let found = not (f == not_found) in
    parse_tokens (if found then set_bit flags f else flags) (if found then res + 1 else res) table
      names

unfoldable pub parse_flags : Flag → Option Text → Table → Flag × ℕ
unfolding tokens parse_tokens
parse_flags flags none table = (flags, 0)
parse_flags flags (some []) table = (flags, 0)
parse_flags flags (some (c ∷ s)) table = parse_tokens flags 0 table (tokens [] (c ∷ s))

-- `none` is an `is_name` that does not end; NULL pointers give no flags
pub toggle_loop : Flag → ℕ → Text → Table → Option (Flag × ℕ)
toggle_loop flags res arglist [] = some (flags, res)
toggle_loop flags res arglist (t ∷ ts) = elim (is_name (some t.name) (some arglist)) [
  | none ↦ none
  | some named ↦
      toggle_loop (if named then toggle_bit flags t.value else flags)
        (if named then res + 1 else res) arglist ts
]

unfoldable pub parse_flags_toggle :
    Option Flag → Option Text → Option Table → Option (Option Flag × ℕ)
unfolding toggle_loop
parse_flags_toggle none arglist table = some (none, 0)
parse_flags_toggle (some flags) none table = some (some flags, 0)
parse_flags_toggle (some flags) (some arglist) none = some (some flags, 0)
parse_flags_toggle (some flags) (some arglist) (some table) =
    elim (toggle_loop flags 0 arglist table) [ none ↦ none | some (f, n) ↦ some (some f, n) ]

-- the names of the bits that are set, each with a comma
pub format_loop : Flag → Table → Text
format_loop flags [] = []
format_loop flags (t ∷ ts) =
    let rest = format_loop flags ts in
    if is_set flags t.value then t.name ++ (b',' ∷ rest) else rest

-- `res[strlen(res) - 1] = 0`
pub drop_last : Text → Text
drop_last [] = []
drop_last (c ∷ []) = []
drop_last (c ∷ d ∷ s) = c ∷ drop_last (d ∷ s)

-- The static buffers are as large as the names need.
unfoldable pub format_flags : Flag → Table → Text
unfolding format_loop drop_last
format_flags flags table =
    let res = format_loop flags table in if is_nil res then codes "None" else drop_last res
