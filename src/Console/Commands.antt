-- ===== src/Console/Commands.antt =====
-- serial_console/serial_console.cpp and serial_console/serial_console.h: the registered commands, in a
-- std::map from texts, which keeps its entries in the order of their keys.
pub mod Laws
pub mod Order
use pico_common.Common.{
  ℕ, List, [], ◌∷◌, ◌++◌, Bool, true, false, Option, none, some, ltb, ◌==◌, if◌then◌else◌, ◌&&◌,
  ◌||◌, bytes_eq,
}

-- `command_t`: a name and a help text are C strings, or NULL.
pub record Command (F : Type 0) : Type 0 where
  pub command_name : Option (List ℕ)
  pub command_help_str : Option (List ℕ)
  pub func : Option F

-- `std::string`'s order.
abbrev pub text_ltb : List ℕ → List ℕ → Bool
text_ltb xs [] = false
text_ltb [] (y ∷ ys) = true
text_ltb (x ∷ xs) (y ∷ ys) = ltb x y || ((x == y) && text_ltb xs ys)

-- What the console prints: the greeting, the title of the help message and its lines, and the texts of
-- a line, of a command, of one that is not known, of an echo, and of what else a command prints.
pub data Output : Type 0 where
  hello help_title : Output
  recived command not_recognized echoed printed : List ℕ → Output
  help : List ℕ → List ℕ → Output

abbrev pub Commands : Type 0 → Type 0
Commands F = List (List ℕ × Command F)

-- `print_hello_message`.
abbrev pub print_hello_message : List Output
print_hello_message = hello ∷ []

-- No help text, no line.
abbrev pub help_line : List ℕ → Option (List ℕ) → List Output
help_line name none = []
help_line name (some text) = help name text ∷ []

module _ {F : Type 0} where
  -- `commands[name] = command`.
  unfoldable pub assign : List ℕ → Command F → Commands F → Commands F
  assign name c [] = (name, c) ∷ []
  assign name c ((k, v) ∷ xs) =
      let behind = (k, v) ∷ assign name c xs in
      if text_ltb name k
      then (name, c) ∷ (k, v) ∷ xs
      else if bytes_eq name k
      then (name, c) ∷ xs
      else behind

  unfoldable pub find_command : List ℕ → Commands F → Option (Command F)
  find_command name [] = none
  find_command name ((k, v) ∷ xs) = if bytes_eq k name then some v else find_command name xs

  -- The tests of `register_command` on the name and on the function.
  unfoldable pub register_if : Option (List ℕ) → Option F → Command F → Commands F → Commands F
  unfolding assign
  register_if none func c commands = commands
  register_if (some name) none c commands = commands
  register_if (some name) (some f) c commands = assign name c commands

  unfoldable pub register_command : Command F → Commands F → Commands F
  unfolding register_if
  register_command c commands = register_if c.command_name c.func c commands

  unfoldable pub add_command : List ℕ → Option (List ℕ) → F → Commands F → Commands F
  unfolding register_command
  add_command name help_str func commands =
      register_command
        (record { command_name = some name; command_help_str = help_str; func = some func })
        commands

  abbrev pub help_lines : Commands F → List Output
  help_lines [] = []
  help_lines ((k, v) ∷ xs) = help_line k v.command_help_str ++ help_lines xs

  unfoldable pub print_help_message : Commands F → List Output
  print_help_message commands = help_title ∷ help_lines commands
