-- ===== src/Console/Poll/Lines.antt =====
-- serial_console/serial_console.cpp: `serial_poll` on the characters of one line.
use pico_common.Common.{
  ℕ, suc, ◌+◌, ◌≤◌, ◌<◌, ◌≡◌, ◌≢◌, refl, sym, ◌∙◌, ap, inl, inr, List, [], ◌∷◌, ◌++◌, append_assoc,
  true, false, Option, none, some, arith, ◌==◌, if◌then◌else◌, ◌>>=◌, length, length-append, drop,
  set, length-set, overwrite, Bool-cases, store_lem, overwrite_one, overwrite-zero,
  length-overwrite, lt→leb_false,
}
use pico_common.Http.Text.Strings.{Without, c_string-zero}
use pico_common.Http.Url.{until_space}
use pico_common.Console.Commands.{Command, recived, command, find_command}
use pico_common.Console.Poll.{
  newline, error_char, isprint, Console, answer_command, call_func, run_command, finish_line,
  end_line, put_char, take_char, serial_poll,
}
use pico_common.Console.Poll.Buffer.{arg_string_lem}
use pico_common.Console.Poll.Text.{
  IsText, line_of, line_of-Without, overwrite-covers_plus, two_stores,
}

module _ {F : Type 0} (call : F → Console F → Option (Console F)) where
  -- The line stands in the buffer: it is printed, and its first word looked up and run.
  abbrev pub executed : Console F → List ℕ → Option (Console F)
  executed s line =
      let word = until_space line in
      let received = record s { output = s.output ++ recived line ∷ [] } in
      let named = record s { output = s.output ++ recived line ∷ [] ++ command word ∷ [] } in
      if length line == 0
      then some received
      else answer_command call named word (find_command word s.commands)

  -- The line that is written into the buffer from its start, with its closing zero.
  abbrev pub typed : Console F → List ℕ → Console F
  typed s line = record s {
    recive_buffer = overwrite s.recive_buffer s.recive_buffer_index (line ++ 0 ∷ []);
    recive_buffer_index = s.recive_buffer_index + length line;
  }

  typed_after :
      (s : Console F) (c : ℕ) (line : List ℕ)
      → typed
          (record s {
            recive_buffer = overwrite s.recive_buffer s.recive_buffer_index (c ∷ 0 ∷ []);
            recive_buffer_index = s.recive_buffer_index + 1;
          })
          line
        ≡ typed s (c ∷ line)
  typed_after s c line =
      ap
        (λ b. record s {
          recive_buffer = b;
          recive_buffer_index = s.recive_buffer_index + 1 + length line;
        })
        (overwrite-covers_plus s.recive_buffer s.recive_buffer_index c line)
      ∙ ap
          (λ i. record s {
            recive_buffer = overwrite s.recive_buffer s.recive_buffer_index (c ∷ (line ++ 0 ∷ []));
            recive_buffer_index = i;
          })
          (omega arith)

  pub put_char_lem :
      (s : Console F) (c : ℕ)
      → s.recive_buffer_index + 1 < length s.recive_buffer
      → put_char call s c
        ≡ some (record s {
          recive_buffer = overwrite s.recive_buffer s.recive_buffer_index (c ∷ 0 ∷ []);
          recive_buffer_index = s.recive_buffer_index + 1;
        })
  unfolding put_char
  put_char_lem s c room =
      rw
        (
          store_lem s.recive_buffer s.recive_buffer_index c (omega arith),
          ◌>>=◌,
          store_lem (set s.recive_buffer s.recive_buffer_index c) (s.recive_buffer_index + 1) 0
              (omega (arith, length-set s.recive_buffer s.recive_buffer_index c)),
          two_stores s.recive_buffer s.recive_buffer_index c,
        )
        refl

  pub take_printable :
      (s : Console F) (c : ℕ)
      → s.recive_buffer_index < 1024
      → isprint c ≡ true
      → c ≢ newline
      → take_char call s c ≡ put_char call s c
  unfolding take_char
  take_printable s c room printable ne =
      let no : (c == newline) ≡ false = ground arith in
      rw (printable, no, lt→leb_false 1024 s.recive_buffer_index room) refl

  pub take_other :
      (s : Console F) (c : ℕ) → isprint c ≡ false → c ≢ newline → take_char call s c ≡ some s
  unfolding take_char
  take_other s c other ne = let no : (c == newline) ≡ false = ground arith in rw (other, no) refl

  take_newline :
      (s : Console F) → s.recive_buffer_index < 1024 → take_char call s newline ≡ end_line call s
  unfolding take_char
  take_newline s room = rw (lt→leb_false 1024 s.recive_buffer_index room) refl

  end_line_lem :
      (s : Console F)
      → s.recive_buffer_index < length s.recive_buffer
      → end_line call s
        ≡ finish_line call
            (record s { recive_buffer = overwrite s.recive_buffer s.recive_buffer_index (0 ∷ []) })
  unfolding end_line
  end_line_lem s room =
      rw
        (
          store_lem s.recive_buffer s.recive_buffer_index 0 room,
          ◌>>=◌,
          overwrite_one s.recive_buffer s.recive_buffer_index 0,
        )
        refl

  pub poll_one :
      (s : Console F) (c : ℕ) (cs : List ℕ)
      → c ≢ error_char
      → serial_poll call s (c ∷ cs) ≡ (take_char call s c >>= λ s'. serial_poll call s' cs)
  unfolding serial_poll
  poll_one s c cs ne = let no : (c == error_char) ≡ false = ground arith in rw no refl

  -- The characters of a line that has room in the buffer are collected there.
  pub typed_lem :
      (cs more : List ℕ) (s : Console F)
      → IsText cs
      → length s.recive_buffer ≡ 1024
      → s.recive_buffer_index + length (line_of cs) ≤ 1023
      → serial_poll call s (cs ++ newline ∷ more)
        ≡ (finish_line call (typed s (line_of cs)) >>= λ t. serial_poll call t more)
  typed_lem [] more s text size room =
      rw
        (
          poll_one s newline more (ground arith),
          take_newline s (omega arith),
          end_line_lem s (omega arith),
        )
        (ap
          (λ i.
            finish_line call (record s {
              recive_buffer = overwrite s.recive_buffer s.recive_buffer_index (0 ∷ []);
              recive_buffer_index = i;
            })
            >>= λ t. serial_poll call t more)
          (omega arith))
  typed_lem (c ∷ cs) more s text size room = elim (Bool-cases (isprint c)) [
    | inl printable ↦
        let room' : s.recive_buffer_index + suc (length (line_of cs)) ≤ 1023 =
          rw printable at room in
        rw
          (
            printable,
            poll_one s c (cs ++ newline ∷ more) text.1,
            take_printable s c (omega arith) printable text.0,
            put_char_lem s c (omega arith),
            ◌>>=◌,
          )
          (typed_lem cs more
              (record s {
                recive_buffer = overwrite s.recive_buffer s.recive_buffer_index (c ∷ 0 ∷ []);
                recive_buffer_index = s.recive_buffer_index + 1;
              })
              text.2 (length-overwrite s.recive_buffer s.recive_buffer_index (c ∷ 0 ∷ []) ∙ size)
              (omega arith)
            ∙ ap (λ t. finish_line call t >>= λ t'. serial_poll call t' more)
                (typed_after s c (line_of cs)))
    | inr other ↦
        let room' : s.recive_buffer_index + length (line_of cs) ≤ 1023 = rw other at room in
        rw (other, poll_one s c (cs ++ newline ∷ more) text.1, take_other s c other text.0, ◌>>=◌)
          (typed_lem cs more s text.2 size room')
  ]

  -- `serial_poll` resets the index once more.
  answer-index :
      (s : Console F) (arg : List ℕ) (found : Option (Command F))
      → (answer_command call s arg found >>= λ t. some (record t { recive_buffer_index = 0 }))
        ≡ answer_command call s arg found
  answer-index s arg none = refl
  answer-index s arg (some c) = reset (call_func call c.func s)
    where
      reset :
          (r : Option (Console F))
          → ((r >>= λ t. some (record t { recive_buffer_index = 0 })) >>= λ t'.
              some (record t' { recive_buffer_index = 0 }))
            ≡ (r >>= λ t. some (record t { recive_buffer_index = 0 }))
      reset none = refl
      reset (some t) = refl

  finish_line_lem :
      (s : Console F) (line tail : List ℕ)
      → Without 0 line
      → length line ≤ 1023
      → length (until_space line) ≤ 63
      → let closed = record s {
        recive_buffer = line ++ 0 ∷ tail;
        recive_buffer_index = length line;
      } in
        finish_line call closed ≡ executed closed line
  unfolding finish_line run_command
  finish_line_lem s line tail w room short =
      rw
        (
          c_string-zero line tail w,
          ◌>>=◌,
          arg_string_lem line tail w (omega arith) (omega arith),
          answer-index named (until_space line) (find_command (until_space line) s.commands),
        )
        refl
    where
      named : Console F
      named = record s {
        recive_buffer = line ++ 0 ∷ tail;
        recive_buffer_index = length line;
        output = s.output ++ recived line ∷ [] ++ command (until_space line) ∷ [];
      }

  -- What a line comes to, from an index of zero: it is in the buffer, closed by a zero, and executed.
  abbrev pub run_line : Console F → List ℕ → Option (Console F)
  run_line s line =
      executed
        (record s {
          recive_buffer = overwrite s.recive_buffer 0 (line ++ 0 ∷ []);
          recive_buffer_index = length line;
        })
        line

  typed-run_line :
      (s : Console F) (line : List ℕ)
      → length s.recive_buffer ≡ 1024
      → s.recive_buffer_index ≡ 0
      → Without 0 line
      → length line ≤ 1023
      → length (until_space line) ≤ 63
      → finish_line call (typed s line) ≡ run_line s line
  typed-run_line s line size start w room short =
      ap (λ r. finish_line call r)
        (ap
            (λ i. record s {
              recive_buffer = overwrite s.recive_buffer i (line ++ 0 ∷ []);
              recive_buffer_index = i + length line;
            })
            start
          ∙ (ap
                (λ i. record s {
                  recive_buffer = overwrite s.recive_buffer 0 (line ++ 0 ∷ []);
                  recive_buffer_index = i;
                })
                (omega arith)
              ∙ ap (λ b. record s { recive_buffer = b; recive_buffer_index = length line }) buffer))
      ∙ (finish_line_lem s line (drop (length (line ++ 0 ∷ [])) s.recive_buffer) w room short
          ∙ ap
              (λ b.
                executed (record s { recive_buffer = b; recive_buffer_index = length line }) line)
              (sym buffer))
    where
      buffer :
          overwrite s.recive_buffer 0 (line ++ 0 ∷ [])
          ≡ line ++ 0 ∷ drop (length (line ++ 0 ∷ [])) s.recive_buffer
      buffer =
          overwrite-zero s.recive_buffer (line ++ 0 ∷ [])
            (omega (arith, length-append line (0 ∷ [])))
          ∙ append_assoc line (0 ∷ []) (drop (length (line ++ 0 ∷ [])) s.recive_buffer)

  -- A line that is typed whole, from an index of zero.
  pub poll_line :
      (cs more : List ℕ) (s : Console F)
      → IsText cs
      → length (line_of cs) ≤ 1023
      → length (until_space (line_of cs)) ≤ 63
      → length s.recive_buffer ≡ 1024
      → s.recive_buffer_index ≡ 0
      → serial_poll call s (cs ++ newline ∷ more)
        ≡ (run_line s (line_of cs) >>= λ t. serial_poll call t more)
  poll_line cs more s text room short size start =
      typed_lem cs more s text size (omega (arith, start))
      ∙ ap (λ r. r >>= λ t. serial_poll call t more)
          (typed-run_line s (line_of cs) size start (line_of-Without cs) room short)
