-- ===== src/Console/Poll/Overflow.antt =====
-- serial_console/serial_console.cpp: lines and words that do not fit.
use pico_common.Common.{
  ℕ, suc, ◌+◌, ◌≤◌, ◌<◌, ◌≡◌, refl, ◌∙◌, ap, inl, inr, List, [], ◌∷◌, ◌++◌, append_assoc, false,
  Option, none, arith, ◌==◌, ◌>>=◌, length, length-append, length-set, set, drop, overwrite,
  store_lem, store_out, Bool-cases, overwrite-zero, length-overwrite, ltb, ltb→lt, ltb_false→le,
}
use pico_common.Http.Text.Strings.{Without, c_string-zero}
use pico_common.Http.Url.{until_space}
use pico_common.Console.Poll.{
  newline, Console, isprint, run_command, finish_line, put_char, serial_poll,
}
use pico_common.Console.Poll.Buffer.{arg_string-overflow, length-until_space}
use pico_common.Console.Poll.Lines.{
  typed, typed_lem, poll_one, take_printable, take_other, put_char_lem,
}
use pico_common.Console.Poll.Text.{IsText, line_of, line_of-Without}

module _ {F : Type 0} (call : F → Console F → Option (Console F)) where
  finish_line-overflow :
      (s : Console F) (line tail : List ℕ)
      → Without 0 line
      → length line ≤ 1023
      → 64 ≤ length (until_space line)
      → s.recive_buffer ≡ line ++ 0 ∷ tail
      → s.recive_buffer_index ≡ length line
      → finish_line call s ≡ none
  unfolding finish_line run_command
  finish_line-overflow s line tail w room long held at =
      let nonempty : (length line == 0) ≡ false = ground (arith, length-until_space line) in
      rw
        (
          held,
          at,
          c_string-zero line tail w,
          ◌>>=◌,
          arg_string-overflow line tail w (omega arith) long,
          nonempty,
        )
        refl

  -- From between two lines, a line of at most 1023 printable characters whose first word has 64 or more
  -- makes `run_command` write or read behind `arg_string`.
  pub long_word_faults :
      (cs more : List ℕ) (s : Console F)
      → IsText cs
      → length (line_of cs) ≤ 1023
      → 64 ≤ length (until_space (line_of cs))
      → length s.recive_buffer ≡ 1024
      → s.recive_buffer_index ≡ 0
      → serial_poll call s (cs ++ newline ∷ more) ≡ none
  long_word_faults cs more s text room long size start =
      typed_lem call cs more s text size (omega (arith, start))
      ∙ rw
          (
            finish_line-overflow (typed call s line) line
                (drop (length (line ++ 0 ∷ [])) s.recive_buffer) (line_of-Without cs) room long held
                (omega (arith, start)),
            ◌>>=◌,
          )
          refl
    where
      line : List ℕ
      line = line_of cs

      held :
          overwrite s.recive_buffer s.recive_buffer_index (line ++ 0 ∷ [])
          ≡ line ++ 0 ∷ drop (length (line ++ 0 ∷ [])) s.recive_buffer
      held =
          ap (λ i. overwrite s.recive_buffer i (line ++ 0 ∷ [])) start
          ∙ (overwrite-zero s.recive_buffer (line ++ 0 ∷ [])
                (omega (arith, length-append line (0 ∷ [])))
              ∙ append_assoc line (0 ∷ []) (drop (length (line ++ 0 ∷ [])) s.recive_buffer))

  put_char-out :
      (s : Console F) (c : ℕ)
      → length s.recive_buffer ≡ 1024
      → s.recive_buffer_index ≡ 1023
      → put_char call s c ≡ none
  unfolding put_char
  put_char-out s c size full =
      rw
        (
          store_lem s.recive_buffer s.recive_buffer_index c (omega (arith, size, full)),
          ◌>>=◌,
          store_out (set s.recive_buffer s.recive_buffer_index c) (s.recive_buffer_index + 1) 0
              (omega (arith, length-set s.recive_buffer s.recive_buffer_index c)),
        )
        refl

  -- The printable character that makes 1024 in a line makes `serial_poll` write a zero behind the buffer.
  pub long_line_faults :
      (cs more : List ℕ) (s : Console F)
      → IsText cs
      → length s.recive_buffer ≡ 1024
      → s.recive_buffer_index ≤ 1023
      → 1024 ≤ s.recive_buffer_index + length (line_of cs)
      → serial_poll call s (cs ++ more) ≡ none
  long_line_faults [] more s text size inside long = absurd (omega arith)
  long_line_faults (c ∷ cs) more s text size inside long = elim (Bool-cases (isprint c)) [
    | inr other ↦
        let long' : 1024 ≤ s.recive_buffer_index + length (line_of cs) = rw other at long in
        rw (poll_one call s c (cs ++ more) text.1, take_other call s c other text.0, ◌>>=◌)
          (long_line_faults cs more s text.2 size inside long')
    | inl printable ↦
        let long' : 1024 ≤ s.recive_buffer_index + suc (length (line_of cs)) =
          rw printable at long in
        elim (Bool-cases (ltb s.recive_buffer_index 1023)) [
          | inr full ↦
              rw
                (
                  poll_one call s c (cs ++ more) text.1,
                  take_printable call s c (omega arith) printable text.0,
                  put_char-out s c size
                      (omega (arith, ltb_false→le s.recive_buffer_index 1023 full)),
                )
                refl
          | inl more_room ↦
              let less : s.recive_buffer_index < 1023 =
                ltb→lt s.recive_buffer_index 1023 more_room in
              rw
                (
                  poll_one call s c (cs ++ more) text.1,
                  take_printable call s c (omega arith) printable text.0,
                  put_char_lem call s c (omega arith),
                  ◌>>=◌,
                )
                (long_line_faults cs more
                  (record s {
                    recive_buffer = overwrite s.recive_buffer s.recive_buffer_index (c ∷ 0 ∷ []);
                    recive_buffer_index = s.recive_buffer_index + 1;
                  })
                  text.2
                  (length-overwrite s.recive_buffer s.recive_buffer_index (c ∷ 0 ∷ []) ∙ size)
                  (omega arith) (omega arith))
        ]
  ]
