-- ===== src/Console/Defaults.antt =====
-- serial_console/default_commands.c: the commands that every console has. The commands that read the
-- hardware, restart into the boot loader, or poll the console again, are given as a parameter.
pub mod Echo
pub mod System
use pico_common.Common.{ℕ, ◌-◌, List, [], ◌∷◌, ◌++◌, Option, none, some, ◌>>=◌, load_bytes}
use pico_common.Http.Text.{codes}
use pico_common.Console.Commands.{Commands, echoed, add_command, print_help_message}
use pico_common.Console.Poll.{Console}

-- The functions of the default commands, and those that a program registers, by a number.
pub data CommandFunction : Type 0 where
  help_func echo_func status_malloc_func status_sys_func capture_func bootloader_func :
      CommandFunction
  program_func : ℕ → CommandFunction

-- `print_help_message`, called as a command.
abbrev pub run_help : Console CommandFunction → Option (Console CommandFunction)
run_help s = some (record s { output = s.output ++ print_help_message s.commands })

-- The bytes from `recive_buffer[5]` to the end of the line.
unfoldable pub run_echo : Console CommandFunction → Option (Console CommandFunction)
unfolding load_bytes
run_echo s = load_bytes s.recive_buffer 5 (s.recive_buffer_index - 5) >>= λ text.
    some (record s { output = s.output ++ echoed text ∷ [] })

module _
    (others : CommandFunction → Console CommandFunction → Option (Console CommandFunction)) where
  abbrev pub call_default :
      CommandFunction → Console CommandFunction → Option (Console CommandFunction)
  call_default help_func s = run_help s
  call_default echo_func s = run_echo s
  call_default status_malloc_func s = others status_malloc_func s
  call_default status_sys_func s = others status_sys_func s
  call_default capture_func s = others capture_func s
  call_default bootloader_func s = others bootloader_func s
  call_default (program_func n) s = others (program_func n) s

unfoldable pub register_default_commands : Commands CommandFunction → Commands CommandFunction
unfolding add_command
register_default_commands m0 =
    let m1 = add_command (codes "help") (some (codes "Print this message.")) help_func m0 in
    let m2 = add_command (codes "?") none help_func m1 in
    let m3 = add_command (codes "echo") (some (codes "echo - print given text.")) echo_func m2 in
    let m4 =
      add_command (codes "status_malloc")
        (some
          (codes "status_malloc - print information about the current state of malloc to console."))
        status_malloc_func m3 in
    let m5 =
      add_command (codes "status_sys")
        (some (
          codes "status_sys - print information about the current state of the system to console."))
        status_sys_func m4 in
    let m6 =
      add_command (codes "capture")
        (some (
          codes "capture - traps the program flow in a loop (but still alows commands to be run)."))
        capture_func m5 in
    let m7 =
      add_command (codes "bootloader")
        (some (codes "uf2 | bootloader | F - this device will enter bootloader mode."))
        bootloader_func m6 in
    let m8 = add_command (codes "uf2") none bootloader_func m7 in
    add_command (codes "F") none bootloader_func m8
