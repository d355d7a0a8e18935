-- ===== src/Console/Commands/Order.antt =====
-- serial_console/serial_console.cpp: the order of the registered commands.
use pico_common.Common.{
  ℕ, ◌≡◌, refl, inl, inr, List, [], ◌∷◌, true, false, Option, none, some, arith, Bool-cases,
  bytes_eq, bytes_eq_iff,
}
use pico_common.Console.Commands.{
  Command, Commands, text_ltb, assign, register_if, register_command,
}

module _ {F : Type 0} where
  -- The name comes before the first of the commands.
  abbrev pub Leads : List ℕ → Commands F → Type 0
  Leads name [] = Unit {0}
  Leads name ((k, v) ∷ xs) = text_ltb name k ≡ true

  -- In strictly ascending order of the names.
  abbrev pub IsSorted : Commands F → Type 0
  IsSorted [] = Unit {0}
  IsSorted ((k, v) ∷ xs) = Leads k xs × IsSorted xs

text_ltb-connex :
    (xs ys : List ℕ) → text_ltb xs ys ≡ false → bytes_eq xs ys ≡ false → text_ltb ys xs ≡ true
text_ltb-connex [] [] le ne = ground arith
text_ltb-connex [] (y ∷ ys) le ne = ground arith
text_ltb-connex (x ∷ xs) [] le ne = refl
text_ltb-connex (x ∷ xs) (y ∷ ys) le ne = ground (arith, text_ltb-connex xs ys)

module _ {F : Type 0} where
  assign-Leads :
      (head name : List ℕ) (c : Command F) (commands : Commands F)
      → Leads head commands
      → text_ltb head name ≡ true
      → Leads head (assign name c commands)
  unfolding assign
  assign-Leads head name c [] leads before = before
  assign-Leads head name c ((k, v) ∷ xs) leads before = elim (Bool-cases (text_ltb name k)) [
    | inl first ↦ rw first before
    | inr not_first ↦ elim (Bool-cases (bytes_eq name k)) [
      | inl same ↦ rw (not_first, same) before
      | inr behind ↦ rw (not_first, behind) leads
    ]
  ]

  assign-IsSorted :
      (name : List ℕ) (c : Command F) (commands : Commands F)
      → IsSorted commands
      → IsSorted (assign name c commands)
  unfolding assign
  assign-IsSorted name c [] sorted = (tt, tt)
  assign-IsSorted name c ((k, v) ∷ xs) sorted = elim (Bool-cases (text_ltb name k)) [
    | inl first ↦ rw first (first, sorted)
    | inr not_first ↦ elim (Bool-cases (bytes_eq name k)) [
      | inl same ↦
          let e : name ≡ k = (bytes_eq_iff name k).0 same in
          rw (not_first, same) (rw e sorted.0, sorted.1)
      | inr behind ↦
          rw (not_first, behind)
            (
              assign-Leads k name c xs sorted.0 (text_ltb-connex name k not_first behind),
              assign-IsSorted name c xs sorted.1,
            )
    ]
  ]

  -- Every registration leaves the commands in strictly ascending order of their names, so that no name
  -- is there twice and the help message lists them in that order.
  pub register_command-IsSorted :
      (c : Command F) (commands : Commands F)
      → IsSorted commands
      → IsSorted (register_command c commands)
  unfolding register_command
  register_command-IsSorted c commands sorted = registered c.command_name c.func
    where
      registered : (n : Option (List ℕ)) (f : Option F) → IsSorted (register_if n f c commands)
      registered none f = sorted
      registered (some n) none = sorted
      registered (some n) (some f) = assign-IsSorted n c commands sorted
