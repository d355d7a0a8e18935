-- ===== src/Dns/Process/Header.antt =====
-- ap_website/dnsserver/dnsserver.c: the tests and the writes of `dns_server_process` on a message in
-- its array.
use pico_common.Common.{
  ℕ, ◌+◌, ◌/◌, ◌%◌, ◌^◌, ◌≤◌, ◌≡◌, ap, List, [], ◌∷◌, arith, length, overwrite, length-overwrite,
  store_bytes, store_bytes-eq-overwrite,
}
use pico_common.Dns.Socket.{Server}
use pico_common.Dns.Process.{next, access, store_be16, answer_record, write_answer, header_size}

-- The header of a response: flags, one question, one answer, no other record.
abbrev pub response_header : List ℕ
response_header = 0x84 ∷ 0x80 ∷ 0 ∷ 1 ∷ 0 ∷ 1 ∷ 0 ∷ 0 ∷ 0 ∷ 0 ∷ []

-- The message with the answer at `ptr` and that header behind the query's identifier.
abbrev pub answered_message : Server → List ℕ → ℕ → List ℕ
answered_message d msg ptr =
    overwrite
      (overwrite
        (overwrite
          (overwrite (overwrite (overwrite msg ptr (answer_record d.ip)) 2 (0x84 ∷ 0x80 ∷ [])) 4
            (0 ∷ 1 ∷ []))
          6 (0 ∷ 1 ∷ []))
        8 (0 ∷ 0 ∷ []))
      10 (0 ∷ 0 ∷ [])

store_in :
    (msg : List ℕ) (i : ℕ) (bytes : List ℕ)
    → i + length bytes ≤ length msg
    → access (store_bytes msg i bytes) ≡ next (overwrite msg i bytes)
store_in msg i bytes h = ap access (store_bytes-eq-overwrite msg i bytes h)

store_be16_lem :
    (msg : List ℕ) (i v : ℕ)
    → i + 2 ≤ length msg
    → store_be16 msg i v ≡ next (overwrite msg i ((v / 2 ^ 8 % 2 ^ 8) ∷ (v % 2 ^ 8) ∷ []))
unfolding store_be16
store_be16_lem msg i v h = store_in msg i _ h

-- Where the answer fits, nothing is written outside the array.
pub write_answer_lem :
    (d : Server) (msg : List ℕ) (ptr : ℕ)
    → header_size ≤ ptr
    → ptr + 16 ≤ length msg
    → write_answer d msg ptr ≡ next (answered_message d msg ptr)
unfolding write_answer
write_answer_lem d msg ptr lo hi = rw (
  store_in msg ptr (answer_record d.ip) hi,
  store_in m₁ 2 (0x84 ∷ 0x80 ∷ []) (omega (arith, l₁)),
  store_in m₂ 4 (0 ∷ 1 ∷ []) (omega (arith, l₁, l₂)),
  store_in m₃ 6 (0 ∷ 1 ∷ []) (omega (arith, l₁, l₂, l₃)),
  store_in m₄ 8 (0 ∷ 0 ∷ []) (omega (arith, l₁, l₂, l₃, l₄)),
  store_in m₅ 10 (0 ∷ 0 ∷ []) (omega (arith, l₁, l₂, l₃, l₄, l₅)),
)
  where
    m₁ : List ℕ
    m₁ = overwrite msg ptr (answer_record d.ip)

    l₁ : length m₁ ≡ length msg
    l₁ = length-overwrite msg ptr (answer_record d.ip)

    m₂ : List ℕ
    m₂ = overwrite m₁ 2 (0x84 ∷ 0x80 ∷ [])

    l₂ : length m₂ ≡ length m₁
    l₂ = length-overwrite m₁ 2 (0x84 ∷ 0x80 ∷ [])

    m₃ : List ℕ
    m₃ = overwrite m₂ 4 (0 ∷ 1 ∷ [])

    l₃ : length m₃ ≡ length m₂
    l₃ = length-overwrite m₂ 4 (0 ∷ 1 ∷ [])

    m₄ : List ℕ
    m₄ = overwrite m₃ 6 (0 ∷ 1 ∷ [])

    l₄ : length m₄ ≡ length m₃
    l₄ = length-overwrite m₃ 6 (0 ∷ 1 ∷ [])

    m₅ : List ℕ
    m₅ = overwrite m₄ 8 (0 ∷ 0 ∷ [])

    l₅ : length m₅ ≡ length m₄
    l₅ = length-overwrite m₄ 8 (0 ∷ 0 ∷ [])

pub length-answered_message :
    (d : Server) (msg : List ℕ) (ptr : ℕ) → length (answered_message d msg ptr) ≡ length msg
length-answered_message d msg ptr = simp length-overwrite
