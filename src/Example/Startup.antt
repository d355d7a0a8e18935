-- ===== src/Example/Startup.antt =====
-- main_ap.cpp and main.cpp: what both programs do before and beside their servers.
use pico_common.Common.{ℕ, zero, suc, ◌+◌, List, [], ◌∷◌, ◌++◌, Option, some}
use pico_common.Http.Text.{codes, print_d}
use pico_common.Console.Commands.{Commands, printed, add_command}
use pico_common.Console.Poll.{Console}
use pico_common.Console.Defaults.{
  CommandFunction, help_func, echo_func, status_malloc_func, status_sys_func, capture_func,
  bootloader_func, program_func, register_default_commands,
}

-- The prints of `prepare_loop` from index `i` on, for `n` more rounds. The waits between them are left out.
unfoldable pub prepare_loop_from : ℕ → ℕ → List (List ℕ)
unfolding print_d
prepare_loop_from i zero = []
prepare_loop_from i (suc n) =
    (codes "Prepairing " ++ print_d i)
    ∷ codes "."
    ∷ codes "."
    ∷ codes "."
    ∷ codes "\n"
    ∷ prepare_loop_from (i + 1) n

unfoldable pub prepare_loop : ℕ → List (List ℕ)
unfolding prepare_loop_from
prepare_loop delay_in_seconds = prepare_loop_from 0 delay_in_seconds

abbrev pub print_status_func : CommandFunction
print_status_func = program_func 0

abbrev pub print_temp_func : CommandFunction
print_temp_func = program_func 1

unfoldable pub print_status : Console CommandFunction → Option (Console CommandFunction)
print_status s = some (record s { output = s.output ++ printed (codes "Status: \n") ∷ [] })

-- The texts of the two temperatures are those of `%.02f`.
unfoldable pub print_temp :
    List ℕ → List ℕ → Console CommandFunction → Option (Console CommandFunction)
print_temp temp_c temp_f s = some (record s {
  output =
      s.output
      ++ printed (codes "Onboard temperature C = " ++ (temp_c ++ codes " \n")) ∷ []
      ++ printed (codes "Onboard temperature F = " ++ (temp_f ++ codes " \n")) ∷ [];
})

-- What the functions of the program's commands do; the rest is a parameter.
abbrev pub call_program :
    (CommandFunction → Console CommandFunction → Option (Console CommandFunction))
    → List ℕ
    → List ℕ
    → CommandFunction
    → Console CommandFunction
    → Option (Console CommandFunction)
call_program others temp_c temp_f (program_func zero) s = print_status s
call_program others temp_c temp_f (program_func (suc zero)) s = print_temp temp_c temp_f s
call_program others temp_c temp_f (program_func (suc (suc n))) s =
    others (program_func (suc (suc n))) s
call_program others temp_c temp_f help_func s = others help_func s
call_program others temp_c temp_f echo_func s = others echo_func s
call_program others temp_c temp_f status_malloc_func s = others status_malloc_func s
call_program others temp_c temp_f status_sys_func s = others status_sys_func s
call_program others temp_c temp_f capture_func s = others capture_func s
call_program others temp_c temp_f bootloader_func s = others bootloader_func s

unfoldable pub register_commands : Commands CommandFunction → Commands CommandFunction
unfolding register_default_commands add_command
register_commands m0 =
    let m1 = register_default_commands m0 in
    let m2 = add_command (codes "status") (some (codes "Prints the status")) print_status_func m1 in
    add_command (codes "temp") (some (codes "Prints the system temp")) print_temp_func m2
