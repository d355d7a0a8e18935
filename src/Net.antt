-- ===== src/Net.antt =====
-- What the servers use of lwIP (not part of the repository): addresses as they lie in memory, the
-- answers of its calls as an environment, and the calls made, in order.
use pico_common.Common.{ℕ, Bool, List, [], ◌∷◌}

-- An `ip_addr_t`: its four bytes in network order, `a.b.c.d`.
pub record Ip4 : Type 0 where
  pub a : ℕ
  pub b : ℕ
  pub c : ℕ
  pub d : ℕ

-- `memcpy(dst, &ip.addr, 4)` copies these bytes.
abbrev pub octets : Ip4 → List ℕ
octets ip = ip.a ∷ ip.b ∷ ip.c ∷ ip.d ∷ []

-- How lwIP answers. `send_err` is 0 for `ERR_OK`, else the negated `err_t`.
pub record Lwip : Type 0 where
  pub alloc_ok : ℕ → Bool
  pub input_netif : Bool
  pub send_err : ℕ

-- The packet handed to a receive callback, and the one allocated for an answer.
pub data Pbuf : Type 0 where
  request reply : Pbuf

pub data Call : Type 0 where
  pbuf_alloc : ℕ → Call
  udp_sendto : List ℕ → Ip4 → ℕ → Call
  udp_sendto_if : List ℕ → Ip4 → ℕ → Call
  pbuf_free : Pbuf → Call

-- The result of the `sendto` helpers: the length, `-ENOMEM`, or lwIP's error.
pub data Sent : Type 0 where
  sent : ℕ → Sent
  no_mem : Sent
  failed : ℕ → Sent
