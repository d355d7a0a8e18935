-- ===== src/Html/Replace.antt =====
-- ap_website/html_helper.c: what is written to the buffer, and how much room it takes.
use native.Mathlib.Decide.{dec_lt}
use pico_common.Common.{
  ℕ, suc, ◌+◌, ◌≤◌, ◌<◌, ◌≡◌, refl, ap, List, [], ◌∷◌, ◌++◌, Option, none, some, arith, ◌==◌,
  if◌then◌else◌, ◌>>=◌, length, length-append, store, store_bytes, store_out, overwrite, set,
  store_lem, length-set, store_bytes-eq-overwrite, Bool-cases, inl, inr,
}
use pico_common.Http.Text.{c_string}
use pico_common.Html.{newline, output_length, put, put_all, replace_newlines_with_html}

-- What one byte becomes, and what a text becomes.
abbrev pub line_break : ℕ → List ℕ
line_break b = if b == newline then b'<' ∷ b'b' ∷ b'r' ∷ b'>' ∷ [] else b ∷ []

abbrev pub expand : List ℕ → List ℕ
expand [] = []
expand (b ∷ bs) = line_break b ++ expand bs

output_length-expand : (text : List ℕ) (n : ℕ) → output_length text n ≡ n + length (expand text)
unfolding output_length
output_length-expand [] n = omega arith
output_length-expand (b ∷ bs) n = ground (
  arith,
  output_length-expand bs (n + 4),
  output_length-expand bs (n + 1),
  length-append (line_break b) (expand bs),
)

put_lem :
    (dst : List ℕ) (i b : ℕ)
    → put dst i b ≡ (store_bytes dst i (line_break b) >>= λ d. some (d, i + length (line_break b)))
unfolding put store_bytes
put_lem dst i b = elim (Bool-cases (b == newline)) [
  | inl break ↦ rw break refl
  | inr plain ↦ rw plain (store_only (store dst i b))
]
  where
    store_only :
        (o : Option (List ℕ))
        → ◌>>=◌ {B = List ℕ × ℕ} o (λ d. some (d, i + 1))
          ≡ ◌>>=◌ {B = List ℕ × ℕ} (o >>= λ d. some d) (λ d. some (d, i + 1))
    store_only none = refl
    store_only (some d) = refl

store_bytes-append :
    (dst : List ℕ) (i j : ℕ) (xs ys : List ℕ)
    → j ≡ i + length xs
    → store_bytes dst i (xs ++ ys) ≡ (store_bytes dst i xs >>= λ d. store_bytes d j ys)
unfolding store_bytes
store_bytes-append dst i j [] ys h = ap (λ k. store_bytes dst k ys) (omega arith)
store_bytes-append dst i j (x ∷ xs) ys h =
    split (store dst i x) λ d. store_bytes-append d (suc i) j xs ys (omega arith)
  where
    split :
        (o : Option (List ℕ))
        → ((d : List ℕ)
            → store_bytes d (suc i) (xs ++ ys)
              ≡ (store_bytes d (suc i) xs >>= λ d'. store_bytes d' j ys))
        → (o >>= λ d. store_bytes d (suc i) (xs ++ ys))
          ≡ ((o >>= λ d. store_bytes d (suc i) xs) >>= λ d. store_bytes d j ys)
    split none ih = refl
    split (some d) ih = ih d

-- The second loop stores the expansion, one byte after the other.
put_all_lem :
    (dst : List ℕ) (i j : ℕ) (text : List ℕ)
    → j ≡ i + length (expand text)
    → put_all dst i text ≡ (store_bytes dst i (expand text) >>= λ d. some (d, j))
unfolding put_all store_bytes
put_all_lem dst i j [] h = ap (λ k. some (dst, k)) (omega arith)
put_all_lem dst i j (b ∷ bs) h =
    rw
      (
        put_lem dst i b,
        store_bytes-append dst i (i + length (line_break b)) (line_break b) (expand bs) refl,
      )
      (split (store_bytes dst i (line_break b)) λ d.
        put_all_lem d (i + length (line_break b)) j bs
          (omega (arith, length-append (line_break b) (expand bs))))
  where
    k : ℕ
    k = i + length (line_break b)

    split :
        (o : Option (List ℕ))
        → ((d : List ℕ) → put_all d k bs ≡ (store_bytes d k (expand bs) >>= λ d'. some (d', j)))
        → ((o >>= λ d. some (d, k)) >>= λ (d, n). put_all d n bs)
          ≡ ((o >>= λ d. store_bytes d k (expand bs)) >>= λ d. some (d, j))
    split none ih = refl
    split (some d) ih = ih d

store_bytes-out :
    (dst : List ℕ) (i : ℕ) (bs : List ℕ)
    → length dst < i + length bs
    → 0 < length bs
    → store_bytes dst i bs ≡ none
unfolding store_bytes
store_bytes-out dst i [] h some_byte = absurd (omega arith)
store_bytes-out dst i (b ∷ []) h some_byte = rw (store_out dst i b (omega arith)) refl
store_bytes-out dst i (b ∷ c ∷ cs) h some_byte = elim (dec_lt i (length dst)) [
  | yes room ↦
      rw (store_lem dst i b room, ◌>>=◌)
        (store_bytes-out (set dst i b) (suc i) (c ∷ cs) (omega (arith, length-set dst i b))
          (omega arith))
  | no full ↦ rw (store_out dst i b (omega arith)) refl
]

-- Both loops, as one store of the expansion and its closing zero.
replace_lem :
    (dst input text : List ℕ)
    → c_string input ≡ some text
    → replace_newlines_with_html dst input
      ≡ (store_bytes dst 0 (expand text ++ 0 ∷ []) >>= λ d. some (d, length (expand text)))
unfolding replace_newlines_with_html store_bytes
replace_lem dst input text is_text =
    rw
      (
        is_text,
        ◌>>=◌,
        put_all_lem dst 0 (length (expand text)) text (omega arith),
        store_bytes-append dst 0 (length (expand text)) (expand text) (0 ∷ []) (omega arith),
        output_length-expand text 0,
      )
      (closed (store_bytes dst 0 (expand text)))
  where
    n : ℕ
    n = length (expand text)

    last :
        (o : Option (List ℕ))
        → ◌>>=◌ {B = List ℕ × ℕ} o (λ d'. some (d', 0 + n))
          ≡ ◌>>=◌ {B = List ℕ × ℕ} (o >>= λ d'. some d') (λ d. some (d, n))
    last none = refl
    last (some d') = ap (λ k. some (d', k)) (omega arith)

    closed :
        (o : Option (List ℕ))
        → ◌>>=◌ {B = List ℕ × ℕ}
            (◌>>=◌ {B = List ℕ × ℕ} o λ d. some (d, n))
            (λ (d, i). store d i 0 >>= λ d'. some (d', 0 + n))
          ≡ ◌>>=◌ {B = List ℕ × ℕ} (o >>= λ d. store d n 0 >>= λ d'. some d') (λ d. some (d, n))
    closed none = refl
    closed (some d) = last (store d n 0)

-- With more room than the expansion of the text takes, the expansion and a closing zero are written,
-- and the rest of the buffer stays; the length of the expansion is returned.
pub replace_newlines_with_html_lem :
    (dst input text : List ℕ)
    → c_string input ≡ some text
    → length (expand text) < length dst
    → replace_newlines_with_html dst input
      ≡ some (overwrite dst 0 (expand text ++ 0 ∷ []), length (expand text))
replace_newlines_with_html_lem dst input text is_text room =
    rw
      (
        replace_lem dst input text is_text,
        store_bytes-eq-overwrite dst 0 (expand text ++ 0 ∷ [])
            (omega (arith, length-append (expand text) (0 ∷ []))),
      )
      refl

-- With no more room than that, the loop or the closing zero is written behind the buffer.
pub replace_newlines_with_html_overrun :
    (dst input text : List ℕ)
    → c_string input ≡ some text
    → length dst ≤ length (expand text)
    → replace_newlines_with_html dst input ≡ none
replace_newlines_with_html_overrun dst input text is_text full =
    rw
      (
        replace_lem dst input text is_text,
        store_bytes-out dst 0 (expand text ++ 0 ∷ [])
            (omega (arith, length-append (expand text) (0 ∷ [])))
            (omega (arith, length-append (expand text) (0 ∷ []))),
      )
      refl
