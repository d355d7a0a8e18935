-- ===== src/Dns/Process.antt =====
-- ap_website/dnsserver/dnsserver.c: `dns_server_process`, the handler of one query.
-- The packet is the list of its bytes. `stack` is what `dns_msg` holds before the packet is copied
-- into it: C leaves those bytes unset, so they are an argument.
pub mod Checks
pub mod Header
pub mod Total
pub mod Query
pub mod Reply
use pico_common.Common.{
  ℕ, ◌+◌, ◌-◌, ◌*◌, ◌/◌, ◌%◌, ◌^◌, List, [], ◌∷◌, ◌++◌, Option, none, some, ltb, ◌==◌,
  if◌then◌else◌, get_elem?, store_bytes, copy_partial, length, min,
}
use pico_common.Net.{Ip4, octets, Lwip, Call, pbuf_free, request}
use pico_common.Dns.Walk.{Walk, stopped, bad_label, over_read, out_of_fuel, walk}
use pico_common.Dns.Socket.{Server, dns_socket_sendto}

abbrev pub max_dns_msg_size : ℕ
max_dns_msg_size = 300

-- `sizeof(dns_header_t)`.
abbrev pub header_size : ℕ
header_size = 12

-- An access outside the array, `goto ignore_request`, or on to the next statement.
pub data Flow {ℓ} (A : Type ℓ) : Type ℓ where
  fault ignore : Flow A
  next : A → Flow A

infixl 5 ◌>>=◌
abbrev pub ◌>>=◌ {ℓ κ} : {A : Type ℓ} {B : Type κ} → Flow A → (A → Flow B) → Flow B
fault >>= f = fault
ignore >>= f = ignore
next a >>= f = f a

abbrev pub access {ℓ} : {A : Type ℓ} → Option A → Flow A
access none = fault
access (some a) = next a

-- `lwip_ntohs` of the field at an offset: its bytes, the high one first.
unfoldable pub load_be16 : List ℕ → ℕ → Flow ℕ
load_be16 msg i = do
  hi ← access (get_elem? msg i)
  lo ← access (get_elem? msg (i + 1))
  next (hi * 2 ^ 8 + lo)

-- A field set to `lwip_htons(v)`.
unfoldable pub store_be16 : List ℕ → ℕ → ℕ → Flow (List ℕ)
store_be16 msg i v = access (store_bytes msg i ((v / 2 ^ 8 % 2 ^ 8) ∷ (v % 2 ^ 8) ∷ []))

-- What the walk over the question comes to.
abbrev pub after_walk : Walk → Flow ℕ
after_walk (stopped ptr) = next ptr
after_walk bad_label = ignore
after_walk over_read = fault
after_walk out_of_fuel = fault

-- The resource record of an answer: a pointer to the question, host address, Internet class, sixty
-- seconds to live, and our address.
abbrev pub answer_record : Ip4 → List ℕ
answer_record ip = 0xc0 ∷ header_size ∷ 0 ∷ 1 ∷ 0 ∷ 1 ∷ 0 ∷ 0 ∷ 0 ∷ 60 ∷ 0 ∷ 4 ∷ octets ip

-- The answer behind the question, which ends at `ptr`, and the header of a response.
unfoldable pub write_answer : Server → List ℕ → ℕ → Flow (List ℕ)
unfolding store_be16
write_answer d msg ptr = do
  m ← access (store_bytes msg ptr (answer_record d.ip))
  m ← store_be16 m 2 (2 ^ 15 + 2 ^ 10 + 2 ^ 7)
  m ← store_be16 m 4 1
  m ← store_be16 m 6 1
  m ← store_be16 m 8 0
  store_be16 m 10 0

-- From the question on: the answer, and its length.
unfoldable pub answer_question : Server → List ℕ → ℕ → Flow (List ℕ × ℕ)
unfolding write_answer
answer_question d msg msg_len = do
  end ← after_walk (walk max_dns_msg_size msg msg_len header_size)
  let answered = write_answer d msg (end + 4) >>= λ m. next (m, end + 20)
  if ltb 255 (end - header_size) then ignore else answered

-- A query is one that is no response, of opcode 0, with a question at least.
unfoldable pub answer_message : Server → List ℕ → ℕ → Flow (List ℕ × ℕ)
unfolding load_be16 answer_question
answer_message d msg msg_len = do
  flags ← load_be16 msg 2
  question_count ← load_be16 msg 4
  let counted = if ltb question_count 1 then ignore else answer_question d msg msg_len
  let standard = if flags / 2 ^ 11 % 2 ^ 4 == 0 then counted else ignore
  if flags / 2 ^ 15 % 2 == 0 then standard else ignore

-- `ignore_request:` frees the packet on every path.
abbrev pub finish : Flow (List Call) → Option (List Call)
finish fault = none
finish ignore = some (pbuf_free request ∷ [])
finish (next calls) = some (calls ++ pbuf_free request ∷ [])

unfoldable pub dns_server_process : Lwip → List ℕ → Server → List ℕ → Ip4 → ℕ → Option (List Call)
unfolding answer_message
dns_server_process env stack d p src_addr src_port =
    let msg = copy_partial p max_dns_msg_size stack in
    let msg_len = min (length p) max_dns_msg_size in
    let answering = answer_message d msg msg_len >>= λ (m, len).
    access (dns_socket_sendto env m len src_addr src_port) >>= λ (_, calls). next calls in
    finish (if ltb msg_len header_size then ignore else answering)
