-- ===== src/Http/Text/Numbers.antt =====
-- The numbers that `%d` prints: their length, and their value.
use pico_common.Common.{
  ltb, inl, inr, Bool-cases, ℕ, zero, suc, ◌+◌, ◌-◌, ◌*◌, ◌/◌, ◌%◌, ◌^◌, ◌≤◌, ◌<◌, ◌≡◌, refl, List,
  [], ◌∷◌, ◌++◌, arith, length, length-append, lt→ltb,
}
use native.Mathlib.Nat.{pow-suc}
use pico_common.Http.Text.{codes, digits, print_d, http_response_headers}

pub length-digits : (fuel n : ℕ) → length (digits fuel n) ≤ fuel
unfolding digits
length-digits zero n = omega arith
length-digits (suc fuel) n = ground (
  arith,
  length-digits fuel (n / 10),
  length-append (digits fuel (n / 10)) ((b'0' + n % 10) ∷ []),
)

pub length-digits_small : (fuel k n : ℕ) → n < 10 ^ suc k → length (digits fuel n) ≤ suc k
unfolding digits
length-digits_small zero k n h = omega arith
length-digits_small (suc fuel) zero n h = ground (arith, pow-suc 10 zero)
length-digits_small (suc fuel) (suc k) n h = ground (
  arith,
  pow-suc 10 (suc k),
  length-digits_small fuel k (n / 10),
  length-append (digits fuel (n / 10)) ((b'0' + n % 10) ∷ []),
)

pub length-print_d : (n : ℕ) → length (print_d n) ≤ 11
unfolding print_d
length-print_d n = ground (arith, length-digits 10 n, length-digits 10 (2 ^ 32 - n))

-- Every character is a digit.
abbrev pub AreDigits : List ℕ → Type 0
AreDigits [] = Unit {0}
AreDigits (c ∷ cs) = (b'0' ≤ c) × (c ≤ b'9') × AreDigits cs

append-AreDigits : (xs ys : List ℕ) → AreDigits xs → AreDigits ys → AreDigits (xs ++ ys)
append-AreDigits [] ys dx dy = dy
append-AreDigits (x ∷ xs) ys (lo, hi, more) dy = (lo, hi, append-AreDigits xs ys more dy)

pub digits-AreDigits : (fuel n : ℕ) → AreDigits (digits fuel n)
unfolding digits
digits-AreDigits zero n = tt
digits-AreDigits (suc fuel) n = elim (Bool-cases (ltb n 10)) [
  | inl small ↦ rw small (omega arith, ground (arith, small), tt)
  | inr large ↦ rw large (
      append-AreDigits (digits fuel (n / 10)) ((b'0' + n % 10) ∷ [])
        (digits-AreDigits fuel (n / 10)) (omega arith, omega arith, tt))
]

pub print_d-AreDigits : (n : ℕ) → n < 2 ^ 31 → AreDigits (print_d n)
unfolding print_d
print_d-AreDigits n h = rw (lt→ltb _ _ h) (digits-AreDigits 10 n)

-- The number that digits stand for, behind a number that was read before them.
abbrev pub value_from : ℕ → List ℕ → ℕ
value_from acc [] = acc
value_from acc (c ∷ cs) = value_from (acc * 10 + (c - b'0')) cs

value_from-append :
    (acc : ℕ) (xs ys : List ℕ) → value_from acc (xs ++ ys) ≡ value_from (value_from acc xs) ys
value_from-append acc [] ys = refl
value_from-append acc (x ∷ xs) ys = value_from-append (acc * 10 + (x - b'0')) xs ys

-- Ten digits are enough for every number below 10 ^ 10: read back, they give the number.
pub value-digits : (fuel n : ℕ) → n < 10 ^ fuel → value_from 0 (digits fuel n) ≡ n
unfolding digits
value-digits zero n h = omega arith
value-digits (suc fuel) n h = ground (
  arith,
  pow-suc 10 fuel,
  value-digits fuel (n / 10),
  value_from-append 0 (digits fuel (n / 10)) ((b'0' + n % 10) ∷ []),
)

-- The number that `Content-Length` prints is the number it is given, while it is an `int`.
pub print_d-value : (n : ℕ) → n < 2 ^ 31 → value_from 0 (print_d n) ≡ n
unfolding print_d
print_d-value n h = rw (lt→ltb _ _ h) (value-digits 10 n (omega arith))

-- The header of an answer with `n` bytes, below 2 ^ 31, is the status line and `Content-Length` before,
-- and the content type behind, a text that, read back as a number, is `n`.
pub http_response_headers-value :
    (n : ℕ)
    → n < 2 ^ 31
    → (number : List ℕ) × (http_response_headers n
        ≡ codes "HTTP/1.1 200 OK\nServer: PICOW (RP2040)\nContent-Length: "
          ++ (number ++ codes "\nContent-Type: text/html; charset=utf-8\nConnection: close\n\n"))
      × (value_from 0 number ≡ n)
unfolding http_response_headers
http_response_headers-value n h = (print_d n, refl, print_d-value n h)
