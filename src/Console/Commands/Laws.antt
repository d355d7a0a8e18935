-- ===== src/Console/Commands/Laws.antt =====
-- serial_console/serial_console.cpp: the registered commands as a table from names.
use pico_common.Common.{
  ℕ, ◌≡◌, refl, inl, inr, ◌⊎◌, List, [], ◌∷◌, Bool, true, false, Option, none, some, if◌then◌else◌,
  Bool-cases, bytes_eq, bytes_eq_iff,
}
use pico_common.Console.Commands.{
  Command, Commands, text_ltb, assign, find_command, register_if, register_command,
}

-- The names that a console knows, with what it runs for them.
abbrev pub Table : Type 0 → Type 0
Table F = List ℕ → Option (Command F)

module _ {F : Type 0} where
  abbrev pub view : Commands F → Table F
  view commands name = find_command name commands

  abbrev pub put : List ℕ → Command F → Table F → Table F
  put name c table other = if bytes_eq name other then some c else table other

  -- A registration without a name or without a function changes nothing.
  abbrev pub put_if : Option (List ℕ) → Option F → Command F → Table F → Table F
  put_if none func c table = table
  put_if (some name) none c table = table
  put_if (some name) (some f) c table = put name c table

  abbrev pub register_in_table : Command F → Table F → Table F
  register_in_table c table = put_if c.command_name c.func c table

  find_command-assign :
      (name : List ℕ) (c : Command F) (commands : Commands F) (other : List ℕ)
      → find_command other (assign name c commands) ≡ put name c (view commands) other
  unfolding assign find_command
  find_command-assign name c [] other = refl
  find_command-assign name c ((k, v) ∷ xs) other = elim (Bool-cases (text_ltb name k)) [
    | inl before ↦ rw before refl
    | inr not_before ↦ elim (Bool-cases (bytes_eq name k)) [
      | inl same ↦
          let e : name ≡ k = (bytes_eq_iff name k).0 same in
          rw (not_before, same) (rw⁻¹ e (overwritten (bytes_eq name other)))
      | inr different ↦
          rw (not_before, different, find_command-assign name c xs other)
            (behind (Bool-cases (bytes_eq k other)) different)
    ]
  ]
    where
      overwritten :
          (b : Bool)
          → (if b then some c else find_command other xs)
            ≡ (if b then some c else if b then some v else find_command other xs)
      overwritten true = refl
      overwritten false = refl

      behind :
          (bytes_eq k other ≡ true) ⊎ (bytes_eq k other ≡ false)
          → bytes_eq name k ≡ false
          → (if bytes_eq k other then some v else put name c (view xs) other) ≡ (
              if bytes_eq name other
              then some c
              else if bytes_eq k other
              then some v
              else find_command other xs)
      behind (inl here) different =
          let e : k ≡ other = (bytes_eq_iff k other).0 here in
          let no : bytes_eq name other ≡ false = rw⁻¹ e different in rw (here, no) refl
      behind (inr elsewhere) different = rw elsewhere refl

  -- A registration changes the table at the command's name, and nowhere else; one without a name or
  -- without a function changes nothing.
  pub register_command-refines :
      (c : Command F) (commands : Commands F) (name : List ℕ)
      → view (register_command c commands) name ≡ register_in_table c (view commands) name
  unfolding register_command
  register_command-refines c commands name = registered c.command_name c.func
    where
      registered :
          (n : Option (List ℕ)) (f : Option F)
          → find_command name (register_if n f c commands) ≡ put_if n f c (view commands) name
      registered none f = refl
      registered (some n) none = refl
      registered (some n) (some f) = find_command-assign n c commands name
