-- ===== src/Console/Poll/Refinement.antt =====
-- serial_console/serial_console.cpp: `serial_poll` beside a console that takes whole lines.
use pico_common.Common.{
  ℕ, suc, ◌≤◌, ◌≡◌, refl, ◌∙◌, List, [], ◌∷◌, ◌++◌, false, Option, none, some, ◌==◌, ◌>>=◌, length,
  overwrite, length-overwrite, arith,
}
use pico_common.Http.Url.{until_space}
use pico_common.Console.Commands.{Command, recived, command, find_command}
use pico_common.Console.Poll.{newline, Console, answer_command, call_func, serial_poll}
use pico_common.Console.Poll.Lines.{run_line, poll_line}
use pico_common.Console.Poll.Text.{IsText, line_of}

-- Typed before a newline: a line that fits into the buffer, with a first word that fits into `arg_string`.
abbrev pub IsLine : List ℕ → Type 0
IsLine cs = IsText cs × (length (line_of cs) ≤ 1023) × (length (until_space (line_of cs)) ≤ 63)

abbrev pub AllLines : List (List ℕ) → Type 0
AllLines [] = Unit {0}
AllLines (cs ∷ lines) = IsLine cs × AllLines lines

-- The characters of the lines, a newline behind each.
abbrev pub typing : List (List ℕ) → List ℕ
typing [] = []
typing (cs ∷ lines) = cs ++ newline ∷ typing lines

-- Between two lines.
abbrev pub IsReady : {F : Type 0} → Console F → Type 0
IsReady s = (length s.recive_buffer ≡ 1024) × (s.recive_buffer_index ≡ 0)

abbrev pub Readies : {F : Type 0} → Option (Console F) → Type 0
Readies none = Unit {0}
Readies (some s) = IsReady s

-- The buffer of what a step leaves has its size.
abbrev pub Sizes : {F : Type 0} → Option (Console F) → Type 0
Sizes none = Unit {0}
Sizes (some s) = length s.recive_buffer ≡ 1024

module _ {F : Type 0} (call : F → Console F → Option (Console F)) where
  -- No command changes the size of the buffer.
  abbrev pub KeepsSize : Type 0
  KeepsSize = (f : F) (s : Console F) → length s.recive_buffer ≡ 1024 → Sizes (call f s)

  -- The console that is given whole lines.
  abbrev pub run_lines : Console F → List (List ℕ) → Option (Console F)
  run_lines s [] = some s
  run_lines s (cs ∷ lines) = run_line call s (line_of cs) >>= λ t. run_lines t lines

  answer_command-Readies :
      (keeps : KeepsSize) (s : Console F) (arg : List ℕ) (found : Option (Command F))
      → length s.recive_buffer ≡ 1024
      → Readies (answer_command call s arg found)
  answer_command-Readies keeps s arg none size = (size, refl)
  answer_command-Readies keeps s arg (some c) size = called c.func
    where
      reset :
          (r : Option (Console F))
          → Sizes r
          → Readies (r >>= λ t. some (record t { recive_buffer_index = 0 }))
      reset none sized = tt
      reset (some t) sized = (sized, refl)

      called :
          (func : Option F)
          → Readies (call_func call func s >>= λ t. some (record t { recive_buffer_index = 0 }))
      called none = tt
      called (some f) = reset (call f s) (keeps f s size)

  run_line-Readies :
      (keeps : KeepsSize) (s : Console F) (line : List ℕ)
      → length s.recive_buffer ≡ 1024
      → Readies (run_line call s line)
  run_line-Readies keeps s [] size = (length-overwrite s.recive_buffer 0 (0 ∷ []) ∙ size, refl)
  run_line-Readies keeps s (b ∷ bs) size =
      let text = (b ∷ bs) ++ 0 ∷ [] in
      let word = until_space (b ∷ bs) in
      let nonempty : (suc (length bs) == 0) ≡ false = ground arith in
      rw nonempty (
        answer_command-Readies keeps
          (record s {
            recive_buffer = overwrite s.recive_buffer 0 text;
            recive_buffer_index = suc (length bs);
            output = s.output ++ recived (b ∷ bs) ∷ [] ++ command word ∷ [];
          })
          word (find_command word s.commands) (length-overwrite s.recive_buffer 0 text ∙ size))

  -- From between two lines, `serial_poll`, given the characters of lines that fit, does what the console
  -- that is given whole lines does, byte for byte and with the same outcome where a command fails, and
  -- reads them all, where no command changes the size of the buffer.
  pub serial_poll-refines :
      (lines : List (List ℕ)) (s : Console F)
      → KeepsSize
      → AllLines lines
      → IsReady s
      → serial_poll call s (typing lines) ≡ (run_lines s lines >>= λ t. some (t, []))
  unfolding serial_poll
  serial_poll-refines [] s keeps fit ready = refl
  serial_poll-refines (cs ∷ lines) s keeps fit ready =
      poll_line call cs (typing lines) s fit.0.0 fit.0.1 fit.0.2 ready.0 ready.1
      ∙ go (run_line call s (line_of cs)) (run_line-Readies keeps s (line_of cs) ready.0)
          (λ t r. serial_poll-refines lines t keeps fit.1 r)
    where
      go :
          (r : Option (Console F))
          → Readies r
          → ((t : Console F)
              → IsReady t
              → serial_poll call t (typing lines) ≡ (run_lines t lines >>= λ u. some (u, [])))
          → (r >>= λ t. serial_poll call t (typing lines))
            ≡ ((r >>= λ t. run_lines t lines) >>= λ u. some (u, []))
      go none ready continues = refl
      go (some t) ready continues = continues t ready
