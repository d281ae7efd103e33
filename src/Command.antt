-- ===== src/Command.antt =====
-- src/server/command.c: the table of commands, and which of them a line runs.
pub mod Dispatch
use Prim.Native.String.{String}
use muddled.Base.{
  ℕ, Bool, not, ◌&&◌, List, [], ◌∷◌, Option, none, some, Text, codes, toupper, length, ltb, leb,
  ◌==◌, if◌then◌else◌,
}
use muddled.Str.Args.{first_arg, one_argument}
use muddled.Str.Compare.{char_at, str_prefix}
use muddled.Str.Numbers.{skip_space}
use muddled.Update.{level_immortal, pos_resting, pos_sleeping}

abbrev pub pos_standing : ℕ
pos_standing = 1

abbrev pub pos_dead : ℕ
pos_dead = 8

-- What the interpreter reads of a command; the row stands for its function.
pub record Command : Type 0 where
  pub name : Text
  pub level : ℕ
  pub position : ℕ

abbrev pub row : String → ℕ → ℕ → Command
row name level position = record { name = codes name; level = level; position = position }

abbrev pub cmd_table : List Command
cmd_table =
    row "north" 0 pos_standing
    ∷ row "east" 0 pos_standing
    ∷ row "south" 0 pos_standing
    ∷ row "west" 0 pos_standing
    ∷ row "up" 0 pos_standing
    ∷ row "down" 0 pos_standing
    ∷ row "look" 0 pos_resting
    ∷ row "quit" 0 pos_dead
    ∷ row "logout" 0 pos_dead
    ∷ row "commands" 0 pos_dead
    ∷ row "shutdown" level_immortal pos_dead
    ∷ row "reboot" level_immortal pos_dead
    ∷ row "save" 0 pos_dead
    ∷ row "edit" level_immortal pos_dead
    ∷ row "color" 0 pos_dead
    ∷ row "time" 0 pos_dead
    ∷ row "title" 0 pos_dead
    ∷ row "who" 0 pos_dead
    ∷ row "score" 0 pos_dead
    ∷ row "autotick" 0 pos_dead
    ∷ row "brief" 0 pos_dead
    ∷ row "say" 0 pos_resting
    ∷ row "timezone" 0 pos_dead
    ∷ row "hints" 0 pos_dead
    ∷ row "logoff" 0 pos_dead
    ∷ row "delete" 0 pos_dead
    ∷ row "kill" 0 pos_standing
    ∷ row "map" 0 pos_resting
    ∷ row "explored" 0 pos_dead
    ∷ row "kick" 0 pos_standing
    ∷ row "cast" 0 pos_resting
    ∷ row "automap" 0 pos_dead
    ∷ row "prompt" 0 pos_dead
    ∷ row "chat" 0 pos_sleeping
    ∷ row "admin" level_immortal pos_dead
    ∷ row "autologin" 0 pos_dead
    ∷ row "get" 0 pos_resting
    ∷ row "inventory" 0 pos_dead
    ∷ row "equipment" 0 pos_dead
    ∷ row "drop" 0 pos_resting
    ∷ row "wear" 0 pos_resting
    ∷ row "forum" 0 pos_dead
    ∷ row "note" 0 pos_dead
    ∷ row "subscribe" 0 pos_dead
    ∷ row "think" 0 pos_resting
    ∷ row "whisper" 0 pos_resting
    ∷ row "shout" 0 pos_resting
    ∷ row "affects" 0 pos_dead
    ∷ row "force" level_immortal pos_dead
    ∷ row "resists" 0 pos_dead
    ∷ row "sockets" level_immortal pos_dead
    ∷ row "goto" level_immortal pos_dead
    ∷ row "socials" 0 pos_dead
    ∷ row "db" level_immortal pos_dead
    ∷ row "import" level_immortal pos_dead
    ∷ row "help" 0 pos_dead
    ∷ row "areas" 0 pos_dead
    ∷ []

-- what the interpreter reads of a character
pub record Actor : Type 0 where
  pub level : ℕ
  pub position : ℕ

-- What a line comes to: no word; a word behind the buffer of 500 bytes; no command, so that
-- interpret_social() is called; a command that the position forbids; or a command that is run.
pub data Outcome : Type 0 where
  no_word outside : Outcome
  no_command : Text → Text → Outcome
  forbidden : Command → Outcome
  runs : Command → Text → Outcome

-- the test of the loop over the table
pub fits_command : Actor → Text → Command → Bool
unfolding str_prefix
fits_command ch arg cmd =
    toupper (char_at arg) == toupper (char_at cmd.name)
    && not (str_prefix (some arg) (some cmd.name))
    && leb cmd.level ch.level

pub find_command : Actor → Text → List Command → Option Command
unfolding fits_command
find_command ch arg [] = none
find_command ch arg (cmd ∷ table) =
    let rest = find_command ch arg table in if fits_command ch arg cmd then some cmd else rest

-- a table is searched for the word
pub interpret_in : List Command → Actor → Text → Text → Outcome
unfolding find_command
interpret_in table ch arg argument = elim (find_command ch arg table) [
  | none ↦ no_command arg argument
  | some cmd ↦ if ltb cmd.position ch.position then forbidden cmd else runs cmd argument
]

-- a line without the blanks in front
pub interpret_text : Actor → Text → Outcome
unfolding interpret_in first_arg
interpret_text ch [] = no_word
interpret_text ch (c ∷ s) =
    let (argument, arg) = one_argument (c ∷ s) in
    if leb 500 (length arg) then outside else interpret_in cmd_table ch arg argument

unfoldable pub command_interpret : Actor → Text → Outcome
unfolding interpret_text skip_space
command_interpret ch line = interpret_text ch (skip_space line)
