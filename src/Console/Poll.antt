-- ===== src/Console/Poll.antt =====
-- serial_console/serial_console.cpp: the line buffer, which `serial_poll` fills and `run_command` reads.
-- `none` is an access outside an array, or a call of NULL. The commands' functions are named by a type
-- `F`, and what a call of one does to the console is a parameter.
pub mod Buffer
pub mod Text
pub mod Lines
pub mod Refinement
pub mod Overflow
use pico_common.Common.{
  ℕ, ◌+◌, ◌≤◌, List, [], ◌∷◌, ◌++◌, Bool, true, false, Option, none, some, ltb, leb, ◌==◌,
  if◌then◌else◌, ◌&&◌, ◌||◌, ◌>>=◌, replicate, store, store_bytes, load_bytes,
}
use pico_common.Http.Text.{c_string}
use pico_common.Console.Commands.{
  Command, Commands, Output, recived, command, not_recognized, find_command,
}

abbrev pub newline : ℕ
newline = b'\n'

abbrev pub command_delimiter_char : ℕ
command_delimiter_char = b' '

abbrev pub input_buffer_size : ℕ
input_buffer_size = 1024

abbrev pub max_command_name_size : ℕ
max_command_name_size = 64

-- A char with the value -1, as which `getchar_timeout_us` reports that nothing came.
abbrev pub error_char : ℕ
error_char = 255

-- `isprint` of the C locale.
abbrev pub isprint : ℕ → Bool
isprint c = leb 32 c && leb c 126

-- The globals, and what was printed.
pub record Console (F : Type 0) : Type 0 where
  pub recive_buffer : List ℕ
  pub recive_buffer_index : ℕ
  pub commands : Commands F
  pub output : List Output

-- `first_index_of` from index `i` on: whether it found the byte, and what `*index` is then.
unfoldable pub first_index_from : List ℕ → ℕ → ℕ → ℕ → ℕ → Option (Bool × ℕ)
first_index_from [] size ch i index = if ltb i size then none else some (false, index)
first_index_from (b ∷ bs) size ch i index =
    let rest = first_index_from bs size ch (i + 1) index in
    let here = if b == ch then some (true, i) else rest in
    let seen = if b == 0 then some (false, i) else here in
    if ltb i size then seen else some (false, index)

unfoldable pub first_index_of : List ℕ → ℕ → ℕ → ℕ → Option (Bool × ℕ)
unfolding first_index_from
first_index_of buffer buffer_size search_char index =
    first_index_from buffer buffer_size search_char 0 index

-- The end of the first word: the second search follows where the first found nothing.
unfoldable pub first_arg_end : List ℕ → Option ℕ
unfolding first_index_of
first_arg_end buffer =
    first_index_of buffer input_buffer_size command_delimiter_char 0 >>= λ (found, i).
    let again = first_index_of buffer input_buffer_size 0 i >>= λ (_, j). some j in
    if found then some i else again

-- `arg_string`, with the first word copied into it, as a text.
unfoldable pub arg_string : List ℕ → Option (List ℕ)
unfolding first_arg_end store_bytes load_bytes c_string
arg_string buffer = first_arg_end buffer >>= λ n. load_bytes buffer 0 n >>= λ bytes.
    store_bytes (replicate max_command_name_size 0) 0 bytes >>= λ arg. c_string arg

module _ {F : Type 0} (call : F → Console F → Option (Console F)) where
  -- `found_command->second.func()`.
  abbrev pub call_func : Option F → Console F → Option (Console F)
  call_func none s = none
  call_func (some f) s = call f s

  -- What follows the search for the command.
  abbrev pub answer_command : Console F → List ℕ → Option (Command F) → Option (Console F)
  answer_command s arg none =
      some (record s { recive_buffer_index = 0; output = s.output ++ not_recognized arg ∷ [] })
  answer_command s arg (some c) =
      call_func c.func s >>= λ s'. some (record s' { recive_buffer_index = 0 })

  unfoldable pub run_command : Console F → Option (Console F)
  unfolding arg_string find_command
  run_command s = arg_string s.recive_buffer >>= λ arg.
      answer_command (record s { output = s.output ++ command arg ∷ [] }) arg
        (find_command arg s.commands)

  -- A line that is closed by a zero: a command is run, unless the line is empty.
  unfoldable pub finish_line : Console F → Option (Console F)
  unfolding c_string run_command
  finish_line s = c_string s.recive_buffer >>= λ line.
      let s' = record s { output = s.output ++ recived line ∷ [] } in
      let ran = run_command s' >>= λ t. some (record t { recive_buffer_index = 0 }) in
      if s.recive_buffer_index == 0 then some s' else ran

  unfoldable pub end_line : Console F → Option (Console F)
  unfolding store finish_line
  end_line s = store s.recive_buffer s.recive_buffer_index 0 >>= λ buffer.
      finish_line (record s { recive_buffer = buffer })

  unfoldable pub put_char : Console F → ℕ → Option (Console F)
  unfolding store
  put_char s c = store s.recive_buffer s.recive_buffer_index c >>= λ buffer.
      store buffer (s.recive_buffer_index + 1) 0 >>= λ closed.
      some (record s { recive_buffer = closed; recive_buffer_index = s.recive_buffer_index + 1 })

  abbrev pub wrap : Console F → Console F
  wrap s = record s {
    recive_buffer_index =
        if leb input_buffer_size s.recive_buffer_index then 0 else s.recive_buffer_index;
  }

  -- The body of `serial_poll`'s loop.
  unfoldable pub take_char : Console F → ℕ → Option (Console F)
  unfolding end_line put_char
  take_char s c =
      let taken = if c == newline then end_line (wrap s) else put_char (wrap s) c in
      if isprint c || (c == newline) then taken else some s

  -- `serial_poll`, given the characters that are there to be read; with those that it leaves.
  unfoldable pub serial_poll : Console F → List ℕ → Option (Console F × List ℕ)
  unfolding take_char
  serial_poll s [] = some (s, [])
  serial_poll s (c ∷ cs) =
      if c == error_char then some (s, cs) else take_char s c >>= λ s'. serial_poll s' cs
