-- ===== src/Html.antt =====
-- ap_website/html_helper.c: newlines become line breaks in HTML.
pub mod Replace
pub mod Tests
use pico_common.Common.{
  ℕ, ◌+◌, List, [], ◌∷◌, Option, none, some, ◌==◌, if◌then◌else◌, ◌>>=◌, store, store_bytes,
}
use pico_common.Http.Text.{c_string}

abbrev pub newline : ℕ
newline = 10

-- The first loop: the length of the output.
unfoldable pub output_length : List ℕ → ℕ → ℕ
output_length [] n = n
output_length (b ∷ bs) n = output_length bs (if b == newline then n + 4 else n + 1)

-- One round of the second loop: the buffer, and `output_index`.
unfoldable pub put : List ℕ → ℕ → ℕ → Option (List ℕ × ℕ)
put dst i b =
    let break = store_bytes dst i (b'<' ∷ b'b' ∷ b'r' ∷ b'>' ∷ []) >>= λ d. some (d, i + 4) in
    let plain = store dst i b >>= λ d. some (d, i + 1) in if b == newline then break else plain

unfoldable pub put_all : List ℕ → ℕ → List ℕ → Option (List ℕ × ℕ)
unfolding put
put_all dst i [] = some (dst, i)
put_all dst i (b ∷ bs) = put dst i b >>= λ (d, j). put_all d j bs

-- The buffer, and the length of the output. `none` is an access outside the input or the buffer.
unfoldable pub replace_newlines_with_html : List ℕ → List ℕ → Option (List ℕ × ℕ)
unfolding output_length put_all
replace_newlines_with_html dst input = c_string input >>= λ text.
    put_all dst 0 text >>= λ (d, output_index).
    store d output_index 0 >>= λ d'. some (d', output_length text 0)
