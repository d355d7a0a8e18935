-- ===== src/Dns/Process/Total.antt =====
-- ap_website/dnsserver/dnsserver.c: `dns_server_process` stays inside its array on every packet, and
-- what it may send.
use native.Mathlib.Decide.{dec_lt}
use pico_common.Common.{
  ℕ, ◌+◌, ◌≤◌, ◌<◌, ◌≡◌, ◌∙◌, List, [], ◌∷◌, true, false, some, arith, ltb, ◌==◌, if◌then◌else◌,
  Bool-cases, inl, inr, length, length-overwrite, copy_partial, load_bytes-eq-take, take, min,
  le→ltb_false, lt→ltb, length-take,
}
use pico_common.Net.{
  Ip4, Lwip, Call, pbuf_alloc, udp_sendto, pbuf_free, request, reply, sent, failed, no_mem,
}
use pico_common.Dns.Socket.{Server, dns_socket_sendto}
use pico_common.Dns.Process.{
  next, ◌>>=◌, access, finish, dns_server_process, max_dns_msg_size, header_size,
}
use pico_common.Dns.Process.Header.{answered_message, length-answered_message}
use pico_common.Dns.Process.Checks.{IsQuery, answer_message-total}

-- What handling a packet may call: only the free of the packet; an allocation that fails; or, for a
-- query alone, one answer of at most 287 bytes to its sender, in a buffer that is freed.
pub data IsOrderly (env : Lwip) (msg : List ℕ) (src : Ip4) (port : ℕ) : List Call → Type 0 where
  dropped : IsOrderly env msg src port (pbuf_free request ∷ [])
  no_buffer :
      (n : ℕ)
      → IsQuery msg
      → env.alloc_ok n ≡ false
      → IsOrderly env msg src port (pbuf_alloc n ∷ pbuf_free request ∷ [])
  answered :
      (n : ℕ) (payload : List ℕ)
      → IsQuery msg
      → env.alloc_ok n ≡ true
      → n ≤ 287
      → length payload ≡ n
      → IsOrderly env msg src port
          (pbuf_alloc n ∷ udp_sendto payload src port ∷ pbuf_free reply ∷ pbuf_free request ∷ [])

pub sendto_lem :
    (env : Lwip) (buf : List ℕ) (n : ℕ) (dest : Ip4) (port : ℕ)
    → n ≤ length buf
    → n ≤ 0xffff
    → env.alloc_ok n ≡ true
    → dns_socket_sendto env buf n dest port
      ≡ some (
        if env.send_err == 0 then sent n else failed env.send_err,
        pbuf_alloc n ∷ udp_sendto (take n buf) dest port ∷ pbuf_free reply ∷ [],
      )
unfolding dns_socket_sendto
sendto_lem env buf n dest port fits small room =
    rw (le→ltb_false 0xffff n small, room, load_bytes-eq-take buf 0 n (omega arith), ◌>>=◌)

sendto_no_mem :
    (env : Lwip) (buf : List ℕ) (n : ℕ) (dest : Ip4) (port : ℕ)
    → n ≤ 0xffff
    → env.alloc_ok n ≡ false
    → dns_socket_sendto env buf n dest port ≡ some (no_mem, pbuf_alloc n ∷ [])
unfolding dns_socket_sendto
sendto_no_mem env buf n dest port small full = rw (le→ltb_false 0xffff n small, full)

-- What is done with an answer that is ready.
send_answer :
    (env : Lwip) (msg m : List ℕ) (n : ℕ) (src : Ip4) (port : ℕ)
    → IsQuery msg
    → length m ≡ max_dns_msg_size
    → n ≤ 287
    → (calls : List Call) × (finish
          (access (dns_socket_sendto env m n src port) >>= λ (_, calls). next calls)
        ≡ some calls)
      × IsOrderly env msg src port calls
send_answer env msg m n src port asked whole small = elim (Bool-cases (env.alloc_ok n)) [
  | inl room ↦ (
    pbuf_alloc n ∷ udp_sendto (take n m) src port ∷ pbuf_free reply ∷ pbuf_free request ∷ [],
    rw (sendto_lem env m n src port (omega arith) (omega arith) room),
    answered n (take n m) asked room small (omega (arith, length-take n m)),
  )
  | inr full ↦ (
    pbuf_alloc n ∷ pbuf_free request ∷ [],
    rw (sendto_no_mem env m n src port (omega arith) full),
    no_buffer n asked full,
  )
]

-- On every packet, of any length and content, and whatever the 300 bytes of its array hold before,
-- `dns_server_process` ends without an access outside the array; the packet is freed once, and the
-- only thing sent is one answer of at most 287 bytes, to the sender, for a query.
pub dns_server_process-total :
    (env : Lwip) (stack : List ℕ) (d : Server) (p : List ℕ) (src : Ip4) (port : ℕ)
    → length stack ≡ max_dns_msg_size
    → (calls : List Call) × (dns_server_process env stack d p src port ≡ some calls)
      × IsOrderly env (copy_partial p max_dns_msg_size stack) src port calls
unfolding dns_server_process
dns_server_process-total env stack d p src port whole = elim (dec_lt msg_len header_size) [
  | yes short ↦ (pbuf_free request ∷ [], rw (lt→ltb msg_len header_size short), dropped)
  | no long ↦ elim (answer_message-total d msg msg_len size (omega arith)) [
    | inl drop ↦ (pbuf_free request ∷ [], rw (enough long, drop, ◌>>=◌), dropped)
    | inr (asked, (ptr, lo, hi, answer)) ↦
        let (calls, e, orderly) =
          send_answer env msg (answered_message d msg ptr) (ptr + 16) src port asked
            (length-answered_message d msg ptr ∙ size) (omega arith) in
        (calls, rw (enough long, answer, ◌>>=◌) e, orderly)
  ]
]
  where
    msg : List ℕ
    msg = copy_partial p max_dns_msg_size stack

    msg_len : ℕ
    msg_len = min (length p) max_dns_msg_size

    size : length msg ≡ max_dns_msg_size
    size = length-overwrite stack 0 (take max_dns_msg_size p) ∙ whole

    enough : ¬ (msg_len < header_size) → ltb msg_len header_size ≡ false
    enough long = le→ltb_false msg_len header_size (omega arith)
