-- ===== src/Flag/Names/RoundTrip.antt =====
-- Parsing a formatted flag (src/flag.c).
use muddled.Base.{
  ℕ, ◌+◌, Bool, true, false, ◌&&◌, ◌||◌, List, [], ◌∷◌, ◌++◌, append_assoc, append-nil, ◌≢◌, ◌⊎◌,
  inl, inr, some, ◌≡◌, refl, sym, ap, ◌∙◌, arith, Text, codes, All, Lacks, ◌==◌, if◌then◌else◌,
  ==_iff, ==_false, Bool-cases,
}
use muddled.Flag.Defs.{Flag, set_bit, is_set, new_flag}
use muddled.Flag.Bits.{is_set_after}
use muddled.Flag.Names.{tokens, parse_tokens, parse_flags, format_loop, drop_last, format_flags}
use muddled.Lookup.{Lookup, Table, value_lookup, not_found}
use muddled.Str.Args.{is_nil}

tokens_word :
    (cur w rest : Text)
    → Lacks b',' w
    → is_nil (cur ++ w) ≡ false
    → tokens cur (w ++ b',' ∷ rest) ≡ (cur ++ w) ∷ tokens [] rest
unfolding tokens
tokens_word cur [] rest h e =
    let full : is_nil cur ≡ false = rw append-nil at e in rw (append-nil cur, full)
tokens_word cur (c ∷ w) rest h e =
    let plain : (c == b',') ≡ false = ground arith in
    let more : is_nil ((cur ++ c ∷ []) ++ w) ≡ false = rw append_assoc e in
    rw plain (
      tokens_word (cur ++ c ∷ []) w rest h.1 more
      ∙ ap (λ r. r ∷ tokens [] rest) (append_assoc cur (c ∷ []) w))

tokens_comma : (cur s : Text) → tokens cur (s ++ b',' ∷ []) ≡ tokens cur s
unfolding tokens
tokens_comma cur [] = refl
tokens_comma cur (c ∷ s) = ground (arith, tokens_comma [] s, tokens_comma (cur ++ c ∷ []) s)

drop_last_lem : (c : ℕ) (s : Text) → drop_last (s ++ c ∷ []) ≡ s
unfolding drop_last
drop_last_lem c [] = refl
drop_last_lem c (d ∷ []) = refl
drop_last_lem c (d ∷ e ∷ s) = ap (λ r. d ∷ r) (drop_last_lem c (e ∷ s))

-- what a table needs, so that a formatted flag can be read back: every name is not empty, holds no
-- comma and is found as itself, and no value is the one that stands for a name that is not found
abbrev pub Readable : Table → Lookup → Type 0
Readable table t =
    (is_nil t.name ≡ false)
    × Lacks b',' t.name
    × (value_lookup table (some t.name) ≡ t.value)
    × (t.value ≢ not_found)

-- the rows whose bits are set
abbrev names_of : Flag → Table → List Text
names_of f [] = []
names_of f (t ∷ ts) = if is_set f t.value then t.name ∷ names_of f ts else names_of f ts

abbrev any_value : Flag → Table → ℕ → Bool
any_value f [] b = false
any_value f (t ∷ ts) b = (is_set f t.value && t.value == b) || any_value f ts b

abbrev pub has_value : Table → ℕ → Bool
has_value [] b = false
has_value (t ∷ ts) b = t.value == b || has_value ts b

abbrev pub count_set : Flag → Table → ℕ
count_set f [] = 0
count_set f (t ∷ ts) = (if is_set f t.value then 1 else 0) + count_set f ts

tokens-format_loop :
    (table ts : Table) (f : Flag)
    → All (Readable table) ts
    → tokens [] (format_loop f ts) ≡ names_of f ts
unfolding format_loop
tokens-format_loop table [] f h = unfold tokens in refl
tokens-format_loop table (t ∷ ts) f h = elim (Bool-cases (is_set f t.value)) [
  | inl e ↦ rw e (
      tokens_word [] t.name (format_loop f ts) h.0.1 h.0.0
      ∙ ap (λ r. t.name ∷ r) (tokens-format_loop table ts f h.1))
  | inr e ↦ rw e (tokens-format_loop table ts f h.1)
]

-- the text ends in a comma, unless it is empty
format_loop_end :
    (f : Flag) (ts : Table)
    → (format_loop f ts ≡ []) ⊎ ((s : Text) × (format_loop f ts ≡ s ++ b',' ∷ []))
unfolding format_loop
format_loop_end f [] = inl refl
format_loop_end f (t ∷ ts) = elim (Bool-cases (is_set f t.value)) [
  | inr e ↦ rw e (format_loop_end f ts)
  | inl e ↦ elim (format_loop_end f ts) [
    | inl nothing ↦ inr (t.name, rw (e, nothing))
    | inr (s, at) ↦
        inr (t.name ++ (b',' ∷ s), rw (e, at, append_assoc t.name (b',' ∷ s) (b',' ∷ [])))
  ]
]

any_value_lem : (f : Flag) (ts : Table) (b : ℕ) → any_value f ts b ≡ (is_set f b && has_value ts b)
any_value_lem f [] b = ground arith
any_value_lem f (t ∷ ts) b = elim (Bool-cases (t.value == b)) [
  | inl e ↦
      let same : t.value ≡ b = (==_iff t.value b).0 e in
      rw (e, same) (ground (arith, any_value_lem f ts b))
  | inr e ↦ rw e (ground (arith, any_value_lem f ts b))
]

parse_tokens_found :
    (table : Table) (t : Lookup) (ns : List Text) (g : Flag) (n : ℕ)
    → Readable table t
    → parse_tokens g n table (t.name ∷ ns) ≡ parse_tokens (set_bit g t.value) (n + 1) table ns
unfolding parse_tokens
parse_tokens_found table t ns g n h =
    let other : (t.value == not_found) ≡ false = ==_false t.value not_found h.3 in rw (h.2, other)

parse_tokens_lem :
    (table ts : Table) (f g : Flag) (n b : ℕ)
    → All (Readable table) ts
    → (is_set (parse_tokens g n table (names_of f ts)).0 b ≡ (is_set g b || any_value f ts b))
      × ((parse_tokens g n table (names_of f ts)).1 ≡ n + count_set f ts)
unfolding parse_tokens
parse_tokens_lem table [] f g n b h = (ground arith, omega arith)
parse_tokens_lem table (t ∷ ts) f g n b h = elim (Bool-cases (is_set f t.value)) [
  | inl e ↦
      let (bits, total) = parse_tokens_lem table ts f (set_bit g t.value) (n + 1) b h.1 in
      let step = parse_tokens_found table t (names_of f ts) g n h.0 in
      rw (e, step) (ground (arith, bits, (is_set_after g t.value b).0), omega (arith, total))
  | inr e ↦
      let (bits, total) = parse_tokens_lem table ts f g n b h.1 in
      rw e (ground (arith, bits), omega (arith, total))
]

new_flag-is_set : (b : ℕ) → is_set new_flag b ≡ false
unfolding is_set new_flag
new_flag-is_set b = ground arith

-- the text that is read back holds the names of the set bits
tokens-format_flags :
    (f : Flag) (table : Table)
    → All (Readable table) table
    → is_nil (format_loop f table) ≡ false
    → tokens [] (format_flags f table) ≡ names_of f table
unfolding format_flags
tokens-format_flags f table h e =
    let names = tokens-format_loop table table f h in
    elim (format_loop_end f table) [
      | inl nothing ↦ absurd (cc (ap is_nil nothing))
      | inr (s, at) ↦
          let comma = tokens_comma [] s in
          let dropped = drop_last_lem b',' s in
          rw (e, at, dropped) (sym comma ∙ ap (tokens []) (sym at) ∙ names)
    ]

parse_flags_lem :
    (g : Flag) (s : Text) (table : Table)
    → parse_flags g (some s) table ≡ parse_tokens g 0 table (tokens [] s)
unfolding parse_flags tokens parse_tokens
parse_flags_lem g [] table = refl
parse_flags_lem g (c ∷ s) table = refl

parse_none :
    (g : Flag) (table : Table)
    → value_lookup table (some (codes "None")) ≡ not_found
    → parse_tokens g 0 table (tokens [] (codes "None")) ≡ (g, 0)
unfolding parse_tokens tokens
parse_none g table h = rw h

names_of-nil :
    (f : Flag) (table : Table)
    → All (Readable table) table
    → is_nil (format_loop f table) ≡ true
    → names_of f table ≡ []
names_of-nil f table h e =
    let names = tokens-format_loop table table f h in
    elim (format_loop_end f table) [
      | inl nothing ↦ sym names ∙ ap (tokens []) nothing ∙ unfold tokens in refl
      | inr (s, at) ↦ absurd (nonempty s (rw at at e))
    ]
  where
    nonempty : (s : Text) → is_nil (s ++ b',' ∷ []) ≡ true → ⊥
    nonempty [] h = cc
    nonempty (c ∷ s) h = cc

parse-format :
    (f : Flag) (table : Table)
    → All (Readable table) table
    → value_lookup table (some (codes "None")) ≡ not_found
    → parse_flags new_flag (some (format_flags f table)) table
      ≡ parse_tokens new_flag 0 table (names_of f table)
parse-format f table h free = elim (Bool-cases (is_nil (format_loop f table))) [
  | inr e ↦
      rw (parse_flags_lem new_flag (format_flags f table) table, tokens-format_flags f table h e)
  | inl e ↦
      let text : format_flags f table ≡ codes "None" = unfold format_flags in rw e in
      rw (parse_flags_lem new_flag (format_flags f table) table, text, names_of-nil f table h e)
        (parse_none new_flag table free ∙ unfold parse_tokens in refl)
]

-- If every name of a table can be read back and none begins with "None", then parsing what
-- `format_flags` writes sets in a new flag just those bits of the old one that the table names, and
-- returns their number.
pub parse_flags-format_flags :
    (f : Flag) (table : Table) (b : ℕ)
    → All (Readable table) table
    → value_lookup table (some (codes "None")) ≡ not_found
    → (is_set (parse_flags new_flag (some (format_flags f table)) table).0 b
        ≡ (is_set f b && has_value table b))
      × ((parse_flags new_flag (some (format_flags f table)) table).1 ≡ count_set f table)
parse_flags-format_flags f table b h free =
    let (bits, total) = parse_tokens_lem table table f new_flag 0 b h in
    rw (parse-format f table h free)
      (ground (arith, bits, any_value_lem f table b, new_flag-is_set b), omega (arith, total))
