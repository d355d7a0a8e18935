-- ===== src/Console/Defaults/System.antt =====
-- serial_console/default_commands.c: the commands that print the state of the system.
use pico_common.Common.{
  ◌+◌, ◌-◌, ◌%◌, ◌^◌, ◌<◌, ℕ, ◌≡◌, refl, ◌∙◌, ap, List, [], ◌∷◌, ◌++◌, Option, some, arith, ◌>>=◌,
  overwrite,
}
use pico_common.Http.Text.{codes}
use pico_common.Http.Text.Numbers.{AreDigits, digits-AreDigits, value_from, value-digits}
use pico_common.Status.{
  print_u, get_total_heap, get_free_heap, Platform, print_current_system_uptime, print_flash_usage,
  print_ram_usage, print_mallinfo,
}
use pico_common.Console.Commands.{Output, Command, recived, command, printed, find_command}
use pico_common.Console.Poll.{newline, Console, serial_poll}
use pico_common.Console.Poll.Lines.{run_line, poll_line}
use pico_common.Console.Poll.Refinement.{IsReady}
use pico_common.Console.Defaults.{
  CommandFunction, help_func, echo_func, status_malloc_func, status_sys_func, capture_func,
  bootloader_func, program_func, call_default, register_default_commands,
}
use pico_common.Console.Defaults.Echo.{AllPrintable, AllPrintable-IsText, line_of-AllPrintable}

abbrev pub all_printed : List (List ℕ) → List Output
all_printed [] = []
all_printed (t ∷ ts) = printed t ∷ all_printed ts

unfoldable pub run_status_malloc_command :
    Platform → Console CommandFunction → Option (Console CommandFunction)
unfolding print_mallinfo
run_status_malloc_command p s =
    some (record s { output = s.output ++ all_printed (print_mallinfo p) })

unfoldable pub run_status_sys_command :
    Platform → Console CommandFunction → Option (Console CommandFunction)
unfolding print_current_system_uptime print_flash_usage print_ram_usage
run_status_sys_command p s = some (record s {
  output =
      s.output
      ++ all_printed (print_current_system_uptime p)
      ++ all_printed (print_flash_usage p)
      ++ all_printed (print_ram_usage p);
})

module _
    (others : CommandFunction → Console CommandFunction → Option (Console CommandFunction)) where
  -- The functions that read the platform; the rest stays a parameter.
  abbrev pub call_system :
      Platform → CommandFunction → Console CommandFunction → Option (Console CommandFunction)
  call_system p status_malloc_func s = run_status_malloc_command p s
  call_system p status_sys_func s = run_status_sys_command p s
  call_system p help_func s = others help_func s
  call_system p echo_func s = others echo_func s
  call_system p capture_func s = others capture_func s
  call_system p bootloader_func s = others bootloader_func s
  call_system p (program_func n) s = others (program_func n) s

abbrev sys_command : Command CommandFunction
sys_command = record {
  command_name = some (codes "status_sys");
  command_help_str =
      some
        (codes "status_sys - print information about the current state of the system to console.");
  func = some status_sys_func;
}

find_sys : find_command (codes "status_sys") (register_default_commands []) ≡ some sys_command
unfolding find_command register_default_commands
find_sys = refl

module _ (others : CommandFunction → Console CommandFunction → Option (Console CommandFunction))
    (p : Platform) where
  -- The console after the line.
  abbrev pub status_printed : Console CommandFunction → Console CommandFunction
  status_printed s = record s {
    recive_buffer = overwrite s.recive_buffer 0 (codes "status_sys" ++ 0 ∷ []);
    recive_buffer_index = 0;
    output =
        s.output
        ++ recived (codes "status_sys") ∷ []
        ++ command (codes "status_sys") ∷ []
        ++ all_printed (print_current_system_uptime p)
        ++ all_printed (print_flash_usage p)
        ++ all_printed (print_ram_usage p);
  }

  run_status_line :
      (s : Console CommandFunction)
      → s.commands ≡ register_default_commands []
      → run_line (call_default (call_system others p)) s (codes "status_sys")
        ≡ some (status_printed s)
  unfolding run_status_sys_command
  run_status_line s registered = rw (registered, find_sys, ◌>>=◌) refl

  -- The line is read, its command runs, and the console is between two lines again.
  status_sys_prints :
      (more : List ℕ) (s : Console CommandFunction)
      → IsReady s
      → s.commands ≡ register_default_commands []
      → serial_poll (call_default (call_system others p)) s (codes "status_sys" ++ newline ∷ more)
        ≡ serial_poll (call_default (call_system others p)) (status_printed s) more
  status_sys_prints more s ready registered =
      poll_line run (codes "status_sys") more s (AllPrintable-IsText (codes "status_sys") printable)
        (omega arith) (omega arith) ready.0 ready.1
      ∙ (ap (λ l. run_line run s l >>= λ t. serial_poll run t more)
            (line_of-AllPrintable (codes "status_sys") printable)
          ∙ ap (λ r. r >>= λ t. serial_poll run t more) (run_status_line s registered))
    where
      run : CommandFunction → Console CommandFunction → Option (Console CommandFunction)
      run = call_default (call_system others p)

      printable : AllPrintable (codes "status_sys")
      printable = ground arith

-- The flash and the heap of a platform, where the addresses are in order: the bytes of the program, and those of the
-- heap, of which `free` are not handed out.
pub record HasSizes (p : Platform) (program_size total free : ℕ) : Type 0 where
  pub flash_ends : p.flash_binary_end ≡ p.xip_base + program_size
  pub flash_small : p.flash_binary_end < 2 ^ 32
  pub heap_ends : p.stack_limit ≡ p.bss_end + total
  pub heap_small : p.stack_limit < 2 ^ 32
  pub heap_used : total ≡ p.mallinfo.uordblks + free
  pub flash_size : p.pico_flash_size_bytes < 2 ^ 32

-- Decimal digits that stand for a number.
abbrev pub Shows : List ℕ → ℕ → Type 0
Shows text n = AreDigits text × (value_from 0 text ≡ n)

print_u-Shows : (n : ℕ) → n < 2 ^ 32 → Shows (print_u n) n
print_u-Shows n h = (digits-AreDigits 10 n, value-digits 10 n (omega arith))

abbrev flash_texts : Platform → ℕ → List ℕ → List (List ℕ)
flash_texts p program_size maximum =
    (codes "Currently used flash memory: "
      ++ (p.percent_of program_size p.pico_flash_size_bytes ++ codes "% bytes\n"))
    ∷ (codes "Maximum flash memory: " ++ (maximum ++ codes " bytes\n"))
    ∷ []

module _ (p : Platform) (program_size total free : ℕ)
    (sizes : HasSizes p program_size total free) where
  program_lem : (p.flash_binary_end + (2 ^ 32 - p.xip_base)) % 2 ^ 32 ≡ program_size
  program_lem = omega (arith, sizes.flash_ends, sizes.flash_small)

  total_lem : (p.stack_limit + (2 ^ 32 - p.bss_end)) % 2 ^ 32 ≡ total
  total_lem = omega (arith, sizes.heap_ends, sizes.heap_small)

  free_lem : (total + (2 ^ 32 - p.mallinfo.uordblks)) % 2 ^ 32 ≡ free
  free_lem = omega (arith, sizes.heap_used, sizes.heap_ends, sizes.heap_small)

  flash_lem : print_flash_usage p ≡ flash_texts p program_size (print_u p.pico_flash_size_bytes)
  unfolding print_flash_usage
  flash_lem = rw program_lem refl

  ram_lem :
      print_ram_usage p
      ≡ (codes "avalable_ram: " ++ (print_u free ++ codes " bytes.\n"))
        ∷ (codes "total_ram: " ++ (print_u total ++ codes " bytes.\n"))
        ∷ (codes "ram_used: " ++ (p.percent_left free total ++ codes "%\n"))
        ∷ []
  unfolding print_ram_usage get_free_heap get_total_heap
  ram_lem = rw (total_lem, free_lem) refl

  uptime_lem : (text : List ℕ) × (print_current_system_uptime p ≡ text ∷ [])
  unfolding print_current_system_uptime
  uptime_lem = (_, refl)

-- The console after "status_sys", with the texts of the uptime and of three numbers.
abbrev pub after_status_sys :
    Console CommandFunction
    → Platform
    → ℕ
    → ℕ
    → ℕ
    → List ℕ
    → List ℕ
    → List ℕ
    → List ℕ
    → Console CommandFunction
after_status_sys s p program_size total free uptime maximum available all = record s {
  recive_buffer = overwrite s.recive_buffer 0 (codes "status_sys" ++ 0 ∷ []);
  recive_buffer_index = 0;
  output =
      s.output
      ++ recived (codes "status_sys") ∷ []
      ++ command (codes "status_sys") ∷ []
      ++ printed uptime ∷ []
      ++ (printed (
            codes "Currently used flash memory: "
            ++ (p.percent_of program_size p.pico_flash_size_bytes ++ codes "% bytes\n"))
          ∷ printed (codes "Maximum flash memory: " ++ (maximum ++ codes " bytes\n"))
          ∷ [])
      ++ (printed (codes "avalable_ram: " ++ (available ++ codes " bytes.\n"))
          ∷ printed (codes "total_ram: " ++ (all ++ codes " bytes.\n"))
          ∷ printed (codes "ram_used: " ++ (p.percent_left free total ++ codes "%\n"))
          ∷ []);
}

-- On a console with the default commands, between two lines, "status_sys" with a newline prints the line, the name,
-- the uptime, the percentage of the flash that the program takes, the size of the flash, the free bytes of the heap,
-- its size, and its percentage, each in its text, where the linker's addresses are in order and fit into 32 bits and
-- no more bytes are handed out than the heap has; the numbers are in decimal digits, and the console is between two
-- lines again.
pub status_sys_typed :
    (others : CommandFunction → Console CommandFunction → Option (Console CommandFunction))
    (p : Platform) (program_size total free : ℕ) (more : List ℕ) (s : Console CommandFunction)
    → HasSizes p program_size total free
    → IsReady s
    → s.commands ≡ register_default_commands []
    → (uptime : List ℕ) × (maximum : List ℕ) × (available : List ℕ) × (all : List ℕ) × (serial_poll
          (call_default (call_system others p))
          s
          (codes "status_sys" ++ newline ∷ more)
        ≡ serial_poll
            (call_default (call_system others p))
            (after_status_sys s p program_size total free uptime maximum available all)
            more)
      × (print_current_system_uptime p ≡ uptime ∷ [])
      × Shows maximum p.pico_flash_size_bytes
      × Shows available free
      × Shows all total
status_sys_typed others p program_size total free more s sizes ready registered =
    let (uptime, is) = uptime_lem p program_size total free sizes in
    (
      uptime,
      print_u p.pico_flash_size_bytes,
      print_u free,
      print_u total,
      status_sys_prints others p more s ready registered
          ∙ ap (λ t. serial_poll (call_default (call_system others p)) t more)
              (ap (λ u. with_texts u (print_flash_usage p) (print_ram_usage p)) is
                ∙ ap (λ f. with_texts (uptime ∷ []) f (print_ram_usage p))
                    (flash_lem p program_size total free sizes)
                ∙ ap
                    (λ r.
                      with_texts (uptime ∷ [])
                        (flash_texts p program_size (print_u p.pico_flash_size_bytes)) r)
                    (ram_lem p program_size total free sizes)),
      is,
      print_u-Shows p.pico_flash_size_bytes sizes.flash_size,
      print_u-Shows free (omega (arith, sizes.heap_used, sizes.heap_ends, sizes.heap_small)),
      print_u-Shows total (omega (arith, sizes.heap_ends, sizes.heap_small)),
    )
  where
    with_texts : List (List ℕ) → List (List ℕ) → List (List ℕ) → Console CommandFunction
    with_texts u f r = record s {
      recive_buffer = overwrite s.recive_buffer 0 (codes "status_sys" ++ 0 ∷ []);
      recive_buffer_index = 0;
      output =
          s.output
          ++ recived (codes "status_sys") ∷ []
          ++ command (codes "status_sys") ∷ []
          ++ all_printed u
          ++ all_printed f
          ++ all_printed r;
    }
