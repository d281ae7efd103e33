-- ===== src/Command/Dispatch.antt =====
-- Which command of src/server/command.c a line runs.
use muddled.Base.{
  ℕ, ◌≤◌, ◌<◌, true, false, List, [], ◌∷◌, ◌++◌, ◌⊎◌, inl, inr, none, some, ◌≡◌, refl, sym, ap, ◌∙◌,
  arith, Text, All, length, ltb, leb, if◌then◌else◌, Bool-cases,
}
use muddled.Str.Args.{one_argument}
use muddled.Str.Numbers.{skip_space}
use muddled.Command.{
  interpret_text, Command, Actor, Outcome, outside, no_command, forbidden, runs, cmd_table,
  fits_command, find_command, interpret_in, command_interpret,
}

-- the command is the first in the table that fits
abbrev pub IsFirst : Actor → Text → List Command → Command → Type 0
IsFirst ch arg table cmd =
    (earlier : List Command) × (later : List Command) × (table ≡ earlier ++ (cmd ∷ later))
    × All (λ c. fits_command ch arg c ≡ false) earlier
    × (fits_command ch arg cmd ≡ true)

find_command_lem :
    (ch : Actor) (arg : Text) (table : List Command)
    → ((find_command ch arg table ≡ none) × All (λ c. fits_command ch arg c ≡ false) table)
      ⊎ ((cmd : Command) × (find_command ch arg table ≡ some cmd) × IsFirst ch arg table cmd)
unfolding find_command
find_command_lem ch arg [] = inl (refl, tt)
find_command_lem ch arg (c ∷ table) = elim (Bool-cases (fits_command ch arg c)) [
  | inl fits ↦ inr (c, rw fits refl, ([], table, refl, tt, fits))
  | inr other ↦ elim (find_command_lem ch arg table) [
    | inl (e, h) ↦ inl (rw other e, (other, h))
    | inr (cmd, e, (earlier, later, q, h, f)) ↦
        inr (cmd, rw other e, (c ∷ earlier, later, ap (λ t. c ∷ t) q, (other, h), f))
  ]
]

-- how a word is interpreted
abbrev pub Interprets : Actor → Text → Text → Outcome → Type 0
Interprets ch arg argument o =
    ((o ≡ no_command arg argument) × All (λ c. fits_command ch arg c ≡ false) cmd_table)
    ⊎ ((cmd : Command) × IsFirst ch arg cmd_table cmd
        × (o ≡ (if ltb cmd.position ch.position then forbidden cmd else runs cmd argument)))

interpret_in_lem :
    (ch : Actor) (arg argument : Text)
    → Interprets ch arg argument (interpret_in cmd_table ch arg argument)
unfolding interpret_in
interpret_in_lem ch arg argument = elim (find_command_lem ch arg cmd_table) [
  | inl (e, h) ↦ inl (rw (interpret_in, e) refl, h)
  | inr (cmd, e, first) ↦ inr (cmd, first, rw (interpret_in, e) refl)
]

fits_level :
    (ch : Actor) (arg : Text) (cmd : Command)
    → fits_command ch arg cmd ≡ true
    → cmd.level ≤ ch.level
unfolding fits_command
fits_level ch arg cmd h = ground arith

-- what a command that is run has
abbrev pub IsAllowed : Actor → Command → Type 0
IsAllowed ch cmd = (cmd.level ≤ ch.level) × (ch.position ≤ cmd.position)

runs-IsAllowed :
    (ch : Actor) (arg argument rest : Text) (cmd : Command)
    → interpret_in cmd_table ch arg argument ≡ runs cmd rest
    → IsAllowed ch cmd
runs-IsAllowed ch arg argument rest cmd h = elim (interpret_in_lem ch arg argument) [
  | inl (e, _) ↦ absurd (cc)
  | inr (c, (_, _, _, _, fits), e) ↦ elim (Bool-cases (ltb c.position ch.position)) [
    | inl low ↦
        let forbid : interpret_in cmd_table ch arg argument ≡ forbidden c = e ∙ rw low refl in
        absurd (cc)
    | inr high ↦
        let ran : interpret_in cmd_table ch arg argument ≡ runs c argument = e ∙ rw high refl in
        let same : c ≡ cmd = cc in rw (← same) (fits_level ch arg c fits, ground arith)
  ]
]

interpret_text_lem :
    (ch : Actor) (c : ℕ) (s : Text)
    → length (one_argument (c ∷ s)).1 < 500
    → interpret_text ch (c ∷ s)
      ≡ interpret_in cmd_table ch (one_argument (c ∷ s)).1 (one_argument (c ∷ s)).0
unfolding interpret_text
interpret_text_lem ch c s l =
    let short : leb 500 (length (one_argument (c ∷ s)).1) ≡ false = ground arith in rw short refl

interpret_text_outside :
    (ch : Actor) (c : ℕ) (s : Text)
    → 500 ≤ length (one_argument (c ∷ s)).1
    → interpret_text ch (c ∷ s) ≡ outside
unfolding interpret_text
interpret_text_outside ch c s l =
    let long : leb 500 (length (one_argument (c ∷ s)).1) ≡ true = ground arith in rw long refl

long_word : (n : ℕ) → leb 500 n ≡ true → 500 ≤ n
long_word n h = ground arith

short_word : (n : ℕ) → leb 500 n ≡ false → n < 500
short_word n h = ground arith

text-IsAllowed :
    (ch : Actor) (s rest : Text) (cmd : Command)
    → interpret_text ch s ≡ runs cmd rest
    → IsAllowed ch cmd
unfolding interpret_text
text-IsAllowed ch [] rest cmd h = absurd (cc)
text-IsAllowed ch (c ∷ s) rest cmd h =
    let arg = (one_argument (c ∷ s)).1 in
    let argument = (one_argument (c ∷ s)).0 in
    elim (Bool-cases (leb 500 (length arg))) [
      | inl long ↦
          let out = interpret_text_outside ch c s (long_word (length arg) long) in absurd (cc)
      | inr short ↦
          runs-IsAllowed ch arg argument rest cmd
            (sym (interpret_text_lem ch c s (short_word (length arg) short)) ∙ h)
    ]

-- A line whose first word has less than 500 bytes comes to the first command of the table that the
-- word is the beginning of and that the level allows; it is run, or refused if the position forbids
-- it. If there is none, the line is left to the socials.
pub command_interpret_lem :
    (ch : Actor) (line : Text) (c : ℕ) (s : Text)
    → skip_space line ≡ c ∷ s
    → length (one_argument (c ∷ s)).1 < 500
    → Interprets ch (one_argument (c ∷ s)).1 (one_argument (c ∷ s)).0 (command_interpret ch line)
unfolding command_interpret
command_interpret_lem ch line c s e l =
    let same = ap (interpret_text ch) e ∙ interpret_text_lem ch c s l in
    rw same (interpret_in_lem ch (one_argument (c ∷ s)).1 (one_argument (c ∷ s)).0)

-- Whatever is typed, a command that is run has a level that the character has, and a position that is
-- no better than the character's.
pub command_interpret-IsAllowed :
    (ch : Actor) (line : Text) (cmd : Command) (rest : Text)
    → command_interpret ch line ≡ runs cmd rest
    → IsAllowed ch cmd
unfolding command_interpret
command_interpret-IsAllowed ch line cmd rest h = text-IsAllowed ch (skip_space line) rest cmd h
