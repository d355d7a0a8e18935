-- ===== src/Console/Defaults/Echo.antt =====
-- serial_console/default_commands.c: a typed echo.
use pico_common.Common.{
  ℕ, ◌-◌, ◌≤◌, ◌≡◌, ◌≢◌, refl, ◌∙◌, ap, List, [], ◌∷◌, ◌++◌, append_assoc, true, false, Option,
  some, arith, ◌==◌, ◌>>=◌, length, overwrite, drop, take, load_bytes, load_bytes-eq-take,
  take-append, overwrite-zero, length-append,
}
use pico_common.Http.Text.{codes}
use pico_common.Console.Commands.{Command, recived, command, echoed, find_command}
use pico_common.Console.Poll.{newline, Console, isprint, serial_poll}
use pico_common.Console.Poll.Lines.{run_line, poll_line}
use pico_common.Console.Poll.Text.{IsText, line_of, isprint-ne}
use pico_common.Console.Poll.Refinement.{IsReady}
use pico_common.Console.Defaults.{
  CommandFunction, echo_func, run_echo, call_default, register_default_commands,
}

abbrev pub AllPrintable : List ℕ → Type 0
AllPrintable [] = Unit {0}
AllPrintable (c ∷ cs) = (isprint c ≡ true) × AllPrintable cs

printable-ne_255 : (c : ℕ) → isprint c ≡ true → c ≢ 255
printable-ne_255 c printable = ground arith

pub AllPrintable-IsText : (cs : List ℕ) → AllPrintable cs → IsText cs
AllPrintable-IsText [] all = tt
AllPrintable-IsText (c ∷ cs) all =
    (isprint-ne c 10 (omega arith) all.0, printable-ne_255 c all.0, AllPrintable-IsText cs all.1)

pub line_of-AllPrintable : (cs : List ℕ) → AllPrintable cs → line_of cs ≡ cs
line_of-AllPrintable [] all = refl
line_of-AllPrintable (c ∷ cs) all = rw all.0 (ap (◌∷◌ c) (line_of-AllPrintable cs all.1))

abbrev pub echo_line : List ℕ → List ℕ
echo_line text = codes "echo " ++ text

echo_line-AllPrintable : (text : List ℕ) → AllPrintable text → AllPrintable (echo_line text)
echo_line-AllPrintable text all = (refl, (refl, (refl, (refl, (refl, all)))))

-- What the default commands add to the table of an empty console under the name.
abbrev echo_command : Command CommandFunction
echo_command = record {
  command_name = some (codes "echo");
  command_help_str = some (codes "echo - print given text.");
  func = some echo_func;
}

find_echo : find_command (codes "echo") (register_default_commands []) ≡ some echo_command
unfolding find_command register_default_commands
find_echo = refl

echo_text :
    (buf text : List ℕ)
    → length buf ≡ 1024
    → length text ≤ 1018
    → load_bytes (overwrite buf 0 (echo_line text ++ 0 ∷ [])) 5 (length (echo_line text) - 5)
      ≡ some text
unfolding load_bytes
echo_text buf text size room =
    ap (λ k. load_bytes (overwrite buf 0 (echo_line text ++ 0 ∷ [])) 5 k) (omega arith)
    ∙ (ap (λ b. load_bytes b 5 (length text))
          (overwrite-zero buf (echo_line text ++ 0 ∷ [])
            (omega (arith, length-append text (0 ∷ []))))
        ∙ (load_bytes-eq-take (text ++ 0 ∷ [] ++ rest) 0 (length text)
              (omega (arith, length-append text (0 ∷ []), length-append (text ++ 0 ∷ []) rest))
            ∙ ap some (
                ap (take (length text)) (append_assoc text (0 ∷ []) rest)
                ∙ take-append (length text) text (0 ∷ rest) refl)))
  where
    rest : List ℕ
    rest = drop (length (echo_line text ++ 0 ∷ [])) buf

module _
    (others : CommandFunction → Console CommandFunction → Option (Console CommandFunction)) where
  run_echo_line :
      (s : Console CommandFunction) (text : List ℕ)
      → length s.recive_buffer ≡ 1024
      → length text ≤ 1018
      → s.commands ≡ register_default_commands []
      → run_line (call_default others) s (echo_line text)
        ≡ some (record s {
          recive_buffer = overwrite s.recive_buffer 0 (echo_line text ++ 0 ∷ []);
          recive_buffer_index = 0;
          output =
              s.output
              ++ recived (echo_line text) ∷ []
              ++ command (codes "echo") ∷ []
              ++ echoed text ∷ [];
        })
  unfolding run_echo
  run_echo_line s text size room registered =
      let nonempty : (length (echo_line text) == 0) ≡ false = ground arith in
      rw (registered, find_echo, echo_text s.recive_buffer text size room, ◌>>=◌, nonempty) refl

  -- On a console with the default commands, between two lines, "echo " and at most 1018 printable
  -- characters, with a newline, print the line, the word "echo" and then exactly these characters; the
  -- console is then between two lines again.
  pub echo_typed :
      (text more : List ℕ) (s : Console CommandFunction)
      → AllPrintable text
      → length text ≤ 1018
      → IsReady s
      → s.commands ≡ register_default_commands []
      → serial_poll (call_default others) s (echo_line text ++ newline ∷ more)
        ≡ serial_poll
            (call_default others)
            (record s {
              recive_buffer = overwrite s.recive_buffer 0 (echo_line text ++ 0 ∷ []);
              recive_buffer_index = 0;
              output =
                  s.output
                  ++ recived (echo_line text) ∷ []
                  ++ command (codes "echo") ∷ []
                  ++ echoed text ∷ [];
            })
            more
  echo_typed text more s all room ready registered =
      poll_line (call_default others) (echo_line text) more s
        (AllPrintable-IsText (echo_line text) (echo_line-AllPrintable text all))
        (omega (arith, ap length whole)) (omega arith) ready.0 ready.1
      ∙ (ap
            (λ l.
              run_line (call_default others) s l >>= λ t. serial_poll (call_default others) t more)
            whole
          ∙ ap (λ r. r >>= λ t. serial_poll (call_default others) t more)
              (run_echo_line s text ready.0 room registered))
    where
      whole : line_of (echo_line text) ≡ echo_line text
      whole = line_of-AllPrintable (echo_line text) (echo_line-AllPrintable text all)
