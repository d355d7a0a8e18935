-- ===== src/Console/Poll/Buffer.antt =====
-- serial_console/serial_console.cpp: the first word of a line in the buffer.
use pico_common.Common.{
  ℕ, zero, suc, ◌+◌, ◌≤◌, ◌<◌, ◌≡◌, refl, ap, ◌⊎◌, inl, inr, List, [], ◌∷◌, ◌++◌, Bool, true, false,
  none, some, arith, ltb, ◌==◌, if◌then◌else◌, ◌>>=◌, length, length-append, take, drop, replicate,
  overwrite, store_bytes, Bool-cases, load_bytes-eq-take, store_bytes-eq-overwrite, set, length-set,
  store_lem, store_out, ltb→lt, ltb_false→le,
}
use pico_common.Http.Text.{c_string}
use pico_common.Http.Text.Strings.{Without}
use pico_common.Http.Url.{until_space}
use pico_common.Http.Response.Written.{c_string-overwrite, length-replicate}
use pico_common.Console.Poll.{first_index_from, first_index_of, first_arg_end, arg_string}

-- The rest of a line behind its first word: nothing, or a space and what follows.
abbrev pub behind_word : List ℕ → List ℕ
behind_word line = drop (length (until_space line)) line

-- Both searches of `run_command` stop behind the first word.
first_index_from-word :
    (line tail : List ℕ) (i : ℕ)
    → Without 0 line
    → i + length line < 1024
    → (found : Bool) × (first_index_from (line ++ 0 ∷ tail) 1024 b' ' i 0
        ≡ some (found, i + length (until_space line)))
      × ((found ≡ true) ⊎ (until_space line ≡ line))
unfolding first_index_from
first_index_from-word [] tail i w room = (false, ground arith, inr refl)
first_index_from-word (b ∷ bs) tail i w room =
    let (found, is, why) = first_index_from-word bs tail (i + 1) w.1 (omega arith) in
    elim (Bool-cases (b == b' ')) [
      | inl space ↦ (true, ground arith, inl refl)
      | inr other ↦ (
        found,
        ground arith,
        elim why [ inl there ↦ inl there | inr all ↦ inr (rw other (ap (◌∷◌ b) all)) ],
      )
    ]

first_index_from-zero :
    (line tail : List ℕ) (i index : ℕ)
    → Without 0 line
    → i + length line < 1024
    → first_index_from (line ++ 0 ∷ tail) 1024 0 i index ≡ some (false, i + length line)
unfolding first_index_from
first_index_from-zero [] tail i index w room = ground arith
first_index_from-zero (b ∷ bs) tail i index w room =
    ground (arith, first_index_from-zero bs tail (i + 1) index w.1)

pub first_arg_end_lem :
    (line tail : List ℕ)
    → Without 0 line
    → length line < 1024
    → first_arg_end (line ++ 0 ∷ tail) ≡ some (length (until_space line))
unfolding first_arg_end first_index_of
first_arg_end_lem line tail w room =
    let (found, is, why) = first_index_from-word line tail 0 w (omega arith) in
    rw
      (is, ◌>>=◌, first_index_from-zero line tail 0 (0 + length (until_space line)) w (omega arith))
      (chosen found why)
  where
    chosen :
        (found : Bool)
        → (found ≡ true) ⊎ (until_space line ≡ line)
        → (if found then some (0 + length (until_space line)) else some (0 + length line))
          ≡ some (length (until_space line))
    chosen true why = ap some (omega arith)
    chosen false (inl bad) = ground arith
    chosen false (inr all) = ap some (omega (arith, ap length all))

pub length-until_space : (line : List ℕ) → length (until_space line) ≤ length line
length-until_space [] = omega arith
length-until_space (b ∷ bs) = ground (arith, length-until_space bs)

take-until_space :
    (line rest : List ℕ) → take (length (until_space line)) (line ++ rest) ≡ until_space line
take-until_space [] rest = refl
take-until_space (b ∷ bs) rest = elim (Bool-cases (b == b' ')) [
  | inl space ↦ rw space refl
  | inr other ↦ rw other (ap (◌∷◌ b) (take-until_space bs rest))
]

until_space-Without : (line : List ℕ) → Without 0 line → Without 0 (until_space line)
until_space-Without [] w = tt
until_space-Without (b ∷ bs) w = elim (Bool-cases (b == b' ')) [
  | inl space ↦ rw space tt
  | inr other ↦ rw other (w.0, until_space-Without bs w.1)
]

store_bytes-out :
    (buf : List ℕ) (i : ℕ) (bs : List ℕ)
    → i ≤ length buf
    → length buf < i + length bs
    → store_bytes buf i bs ≡ none
unfolding store_bytes
store_bytes-out buf i [] h out = absurd (omega arith)
store_bytes-out buf i (b ∷ bs) h out = elim (Bool-cases (ltb i (length buf))) [
  | inl inside ↦
      rw (store_lem buf i b (ltb→lt i (length buf) inside), ◌>>=◌)
        (store_bytes-out (set buf i b) (suc i) bs
          (omega (arith, length-set buf i b, ltb→lt i (length buf) inside))
          (omega (arith, length-set buf i b)))
  | inr outside ↦ rw (store_out buf i b (ltb_false→le i (length buf) outside)) refl
]

c_string-full :
    (n : ℕ) (text : List ℕ)
    → length text ≡ n
    → Without 0 text
    → c_string (overwrite (replicate n 0) 0 text) ≡ none
unfolding c_string
c_string-full zero text h w = refl
c_string-full (suc n) [] h w = absurd (omega arith)
c_string-full (suc n) (b ∷ bs) h w = ground (arith, c_string-full n bs (omega arith) w.1)

arg_read :
    (line tail : List ℕ)
    → Without 0 line
    → length line < 1024
    → arg_string (line ++ 0 ∷ tail)
      ≡ (store_bytes (replicate 64 0) 0 (until_space line) >>= λ arg. c_string arg)
unfolding arg_string
arg_read line tail w room =
    rw
      (
        first_arg_end_lem line tail w room,
        ◌>>=◌,
        load_bytes-eq-take (line ++ 0 ∷ tail) 0 (length (until_space line))
            (omega (arith, length-append line (0 ∷ tail), length-until_space line)),
        take-until_space line (0 ∷ tail),
      )
      refl

-- A first word of less than 64 bytes is copied whole.
pub arg_string_lem :
    (line tail : List ℕ)
    → Without 0 line
    → length line < 1024
    → length (until_space line) < 64
    → arg_string (line ++ 0 ∷ tail) ≡ some (until_space line)
arg_string_lem line tail w room short =
    rw
      (
        arg_read line tail w room,
        store_bytes-eq-overwrite (replicate 64 0) 0 (until_space line)
            (omega (arith, length-replicate 64)),
        ◌>>=◌,
      )
      (c_string-overwrite 64 (until_space line) short (until_space-Without line w))

-- A longer one leaves no zero in the array, or is written behind it.
pub arg_string-overflow :
    (line tail : List ℕ)
    → Without 0 line
    → length line < 1024
    → 64 ≤ length (until_space line)
    → arg_string (line ++ 0 ∷ tail) ≡ none
arg_string-overflow line tail w room long = elim (Bool-cases (ltb 64 (length (until_space line)))) [
  | inl longer ↦
      rw
        (
          arg_read line tail w room,
          store_bytes-out (replicate 64 0) 0 (until_space line) (omega arith)
              (omega (arith, length-replicate 64, ltb→lt 64 (length (until_space line)) longer)),
        )
        refl
  | inr full ↦
      rw
        (
          arg_read line tail w room,
          store_bytes-eq-overwrite (replicate 64 0) 0 (until_space line) (
              omega (arith, length-replicate 64, ltb_false→le 64 (length (until_space line)) full)),
          ◌>>=◌,
        )
        (c_string-full 64 (until_space line)
          (omega (arith, long, ltb_false→le 64 (length (until_space line)) full))
          (until_space-Without line w))
]
