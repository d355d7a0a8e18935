-- ===== src/Console/Tests.antt =====
-- serial_console/serial_console.cpp: concrete commands and lines.
use pico_common.Common.{
  List, ℕ, zero, suc, ◌≡◌, refl, [], ◌∷◌, ◌++◌, Option, none, some, ◌>>=◌, arith, replicate,
  overwrite,
}
use pico_common.Http.Text.{codes}
use pico_common.Console.Commands.{Command, recived, command, echoed, register_command}
use pico_common.Console.Commands.Laws.{view, register_in_table, register_command-refines}
use pico_common.Console.Commands.Order.{IsSorted}
use pico_common.Console.Poll.{newline, Console, serial_poll}
use pico_common.Console.Poll.Text.{IsText}
use pico_common.Console.Poll.Refinement.{typing, run_lines, KeepsSize, serial_poll-refines}
use pico_common.Console.Poll.Overflow.{long_word_faults, long_line_faults}
use pico_common.Console.Defaults.{
  CommandFunction, bootloader_func, call_default, register_default_commands,
}
use pico_common.Status.{print_current_system_uptime}
use pico_common.Status.Tests.{platform}
use pico_common.Console.Defaults.System.{
  call_system, HasSizes, Shows, after_status_sys, status_sys_typed,
}
use pico_common.Console.Defaults.Echo.{echo_line, echo_typed}

abbrev others : CommandFunction → Console CommandFunction → Option (Console CommandFunction)
others f s = some s

abbrev flash : Command CommandFunction
flash = record {
  command_name = some (codes "flash");
  command_help_str = none;
  func = some bootloader_func;
}

-- A console with the default commands.
abbrev console : Console CommandFunction
console = record {
  recive_buffer = replicate 1024 0;
  recive_buffer_index = 0;
  commands = register_default_commands [];
  output = [];
}

abbrev no_commands : Console CommandFunction
no_commands = record {
  recive_buffer = replicate 1024 0;
  recive_buffer_index = 0;
  commands = [];
  output = [];
}

register_command-refines_example :
    view (register_command flash (register_default_commands [])) (codes "flash")
    ≡ register_in_table flash (view (register_default_commands [])) (codes "flash")
register_command-refines_example =
    register_command-refines flash (register_default_commands []) (codes "flash")

one_command-IsSorted : IsSorted (register_command flash [])
unfolding register_command
one_command-IsSorted = (tt, tt)

others-KeepsSize : KeepsSize others
others-KeepsSize f s size = size

serial_poll-refines_example :
    serial_poll others no_commands (typing (codes "hi you" ∷ [] ∷ []))
    ≡ (run_lines others no_commands (codes "hi you" ∷ [] ∷ []) >>= λ t. some (t, []))
serial_poll-refines_example =
    serial_poll-refines others (codes "hi you" ∷ [] ∷ []) no_commands others-KeepsSize
      ((ground arith, omega arith, omega arith), ((tt, omega arith, omega arith), tt)) (refl, refl)

replicate-IsText : (n : ℕ) → IsText (replicate n b'a')
replicate-IsText zero = tt
replicate-IsText (suc n) = (ground arith, ground arith, replicate-IsText n)

long_word_faults_example : serial_poll others no_commands (replicate 64 b'a' ++ newline ∷ []) ≡ none
long_word_faults_example =
    long_word_faults others (replicate 64 b'a') [] no_commands (replicate-IsText 64) (omega arith)
      (omega arith) refl refl

long_line_faults_example :
    serial_poll others (record no_commands { recive_buffer_index = 1023 }) (b'a' ∷ [] ++ []) ≡ none
long_line_faults_example =
    long_line_faults others (b'a' ∷ []) [] (record no_commands { recive_buffer_index = 1023 })
      (replicate-IsText 1) refl (omega arith) (omega arith)

echo_typed_example :
    serial_poll (call_default others) console (echo_line (codes "hello") ++ newline ∷ [])
    ≡ serial_poll
        (call_default others)
        (record console {
          recive_buffer = overwrite console.recive_buffer 0 (echo_line (codes "hello") ++ 0 ∷ []);
          recive_buffer_index = 0;
          output =
              []
              ++ recived (echo_line (codes "hello")) ∷ []
              ++ command (codes "echo") ∷ []
              ++ echoed (codes "hello") ∷ [];
        })
        []
echo_typed_example =
    echo_typed others (codes "hello") [] console (refl, (refl, (refl, (refl, (refl, tt)))))
      (omega arith) (refl, refl) refl

platform-HasSizes : HasSizes platform 364544 230000 227000
platform-HasSizes = record {
  flash_ends = refl;
  flash_small = omega arith;
  heap_ends = refl;
  heap_small = omega arith;
  heap_used = refl;
  flash_size = omega arith;
}

status_sys_typed_example :
    (uptime : List ℕ) × (maximum : List ℕ) × (available : List ℕ) × (all : List ℕ) × (serial_poll
        (call_default (call_system others platform))
        console
        (codes "status_sys" ++ newline ∷ [])
      ≡ serial_poll
          (call_default (call_system others platform))
          (after_status_sys console platform 364544 230000 227000 uptime maximum available all)
          [])
    × (print_current_system_uptime platform ≡ uptime ∷ [])
    × Shows maximum 2097152
    × Shows available 227000
    × Shows all 230000
status_sys_typed_example =
    status_sys_typed others platform 364544 230000 227000 [] console platform-HasSizes (refl, refl)
      refl
