-- ===== src/Tests/Commands.antt =====
-- Lines for the interpreter of src/server/command.c.
use muddled.Base.{[], ◌≡◌, refl, arith, codes}
use muddled.Str.Args.{first_arg}
use muddled.Str.Numbers.{skip_space}
use muddled.Command.{Actor, no_command, forbidden, row, pos_dead, command_interpret}
use muddled.Command.Dispatch.{
  Interprets, IsAllowed, command_interpret_lem, command_interpret-IsAllowed,
}

abbrev mortal : Actor
mortal = record { level = 10; position = 1 }

mortal_shutdown :
    command_interpret mortal (codes "shutdown now") ≡ no_command (codes "shutdown") (codes "now")
unfolding command_interpret first_arg
mortal_shutdown = refl

asleep_kill :
    command_interpret (record mortal { position = 5 }) (codes "kill rat")
    ≡ forbidden (row "kill" 0 1)
unfolding command_interpret first_arg
asleep_kill = refl

command_interpret_lem_example :
    Interprets mortal (codes "sh") (codes "hello") (command_interpret mortal (codes " sh hello"))
unfolding skip_space first_arg
command_interpret_lem_example =
    command_interpret_lem mortal (codes " sh hello") b's' (codes "h hello") refl (omega arith)

command_interpret-IsAllowed_example : IsAllowed mortal (row "quit" 0 pos_dead)
unfolding command_interpret first_arg
command_interpret-IsAllowed_example =
    command_interpret-IsAllowed mortal (codes "qu") (row "quit" 0 pos_dead) [] refl
