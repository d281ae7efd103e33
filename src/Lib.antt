-- ===== src/Lib.antt =====
-- Models of the parts of muddled, a multi-user dungeon server in C, that the rest of the server
-- stands on, with their properties.
--
-- The program. The library under `src` holds the game: strings and their colour codes
-- (`src/str.c`), tables of named values (`src/lookup.c`), bit fields with names (`src/flag.c`), a
-- hash table (`src/hashmap.c`), growing output buffers (`src/buffer.c`), and the characters,
-- objects, rooms and areas over a SQLite database. The program under `src/server` adds the
-- connections, the commands and the online editors. Flags are written as names through the lookup
-- tables, which compare by `str_prefix`; commands are cut into words by `first_arg`.
--
-- Which file models what (names are those of the functions in the code):
--   Base        shared notation: lists, tests and integers over the native numbers, C texts
--   Str         `src/str.c`: Compare (`str_cmp`, `str_prefix`, `str_infix`, `str_suffix`), Args
--               (`first_arg`, `one_argument`, `is_name`, `is_exact_name`), Colors (`strip_color`,
--               `strlen_color`, `strpos`), Lines (`get_line`, `count_lines`, `trim`), Numbers
--               (`is_number`, `number_argument`, `multi_argument`), Replace (`str_replace`,
--               `str_replace_all` and their kin, `capitalize`), Fill (`fillstr`, `align_string`)
--   Lookup      `src/lookup.c`: `index_lookup`, `value_lookup`, `lookup_name`, `lookup_names`
--   Flag        `src/flag.c`: Defs (one bit), Sets (two flags), Names (`parse_flags`, `format_flags`)
--   Hashmap     `src/hashmap.c`: Defs, the loops as paths in the table (Probe, Search, Route), the
--               invariant, one write, and the operations as those of a finite map (Laws, Remove)
--   Buffer      `src/buffer.c`: the sizes, one write, and a sequence of writes
--   Color       `src/color.c`: `convert_color_code`, `make_terminal_color`, `make_html_color`
--   World       the lists of `src/macro.h` (Links) and the moves of objects (Moves) and
--               characters (Characters) of `src/util.c`
--   Affect      `src/affect.c`: the callbacks, `affect_to_char`, `affect_remove`, `affect_find`
--   Explored    `src/explored.c` and `get_room_by_id` of `src/room.c`
--   Grid        `src/grid.c`: the rows and cells (Invariant), what one cell prints (Fields), and the width of the lines (Widths)
--   Random      the random numbers and dice of `src/util.c`
--   Telnet      `src/server/telnet.c`: the scans and reports (Scan, Reports), one round of the
--               parser (Options, Rounds), its end and its reads (Safety), the commands that a client
--               sends (Commands, Windows, Terminals), and what the parser does with them
--               (Refinement) and with one that is cut off (Incomplete)
--   Input       `parse_input_buffer` of `src/server/client.c`, which calls `process_telnet`
--   Command     `src/server/command.c`: `command_interpret`, on the words of Str and the comparison of
--               Str, with which command is run (Dispatch)
--   Update      `src/server/update.c`: Gains (`hit_gain` and its kin), Conditions
--               (`gain_condition`), Affects and Pulses (`update_handler`)
--   Importer    `src/server/importer.c`: the readers, with numbers (Numbers), letters of flags
--               (Letters) and strings (Strings), and the tables (Tables, Convert)
--   Fight       `src/fight.c`: Alignment and Experience (`xp_compute`), Levels (`gain_exp`)
--   Tests       runs at single inputs, and the theorems at inputs that meet their hypotheses
--
-- Representation. A C string is the list of its bytes before the terminator, and NULL is `none`
-- where a function tests for it. A result `none` of a model stands for a read or a write outside
-- the object, or, where a comment says so, for a loop that has used up its fuel. A static buffer
-- is passed in as the list of its bytes. Machine words are native numbers with the wrap-around
-- written out; a flag word is the bit pattern of an `int`; a key of the hash table is an `int64`,
-- so a signed number.
--
-- Fuel. The loops over arguments run on one more round than the text has bytes, since each round
-- consumes at least one. The searches of the hash table run on the number of its entries, as in
-- the code. The loop that increases the size of a buffer runs on 11 rounds, one more than there
-- are sizes. The walk along a linked list needs more rounds than the list has elements, and
-- `update_explored` more than the numbers of rooms that it passes; `str_replace_all` takes any
-- fuel, and `fread_to_eol` one round more than the line has bytes. The parser of telnet commands
-- runs on one round more than the buffer has bytes, as do its scans and the search of a line. The
-- loop of `gain_exp` runs on 101 rounds, as it ends at level 100, and the search of a power of two
-- on 31. The cells of a row are visited on one round more than there are columns. What `rand`
-- gives is a list of draws; a loop that draws needs one draw for a round. The sums of numbers and
-- flags in a file run on one round more than the file has bytes.
--
-- Not modelled: the database and all loading and saving, the use of sockets, threads and logging,
-- `malloc` failure, formatted printing and the messages to players; the handlers of the commands
-- and the editors; the growth of the hash table (`rehash`, which tests primes with `rand`):
-- `insert_here` is the body of `hm_insert` where the table has room.
pub mod Base
pub mod Str
pub mod Lookup
pub mod Flag
pub mod Hashmap
pub mod Buffer
pub mod Color
pub mod World
pub mod Affect
pub mod Explored
pub mod Grid
pub mod Random
pub mod Telnet
pub mod Input
pub mod Command
pub mod Update
pub mod Fight
pub mod Importer
pub mod Tests
