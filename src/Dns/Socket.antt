-- ===== src/Dns/Socket.antt =====
-- ap_website/dnsserver/dnsserver.c and dnsserver.h: the server's state, its UDP socket, and its start
-- and stop.
use pico_common.Common.{
  ℕ, ◌/◌, ◌%◌, ◌^◌, List, [], ◌∷◌, Bool, true, false, Option, none, some, ltb, ◌==◌, if◌then◌else◌,
  ◌>>=◌, load_bytes,
}
use pico_common.Net.{
  Ip4, Lwip, Call, Sent, pbuf_alloc, udp_sendto, pbuf_free, reply, sent, no_mem, failed,
}

-- `dns_socket_sendto`, to the address and port that the query came from.
unfoldable pub dns_socket_sendto : Lwip → List ℕ → ℕ → Ip4 → ℕ → Option (Sent × List Call)
dns_socket_sendto env buf size dest port =
    let len = if ltb 0xffff size then 0xffff else size in
    let sending = load_bytes buf 0 len >>= λ payload.
    let status = if env.send_err == 0 then sent len else failed env.send_err in
    some (status, pbuf_alloc len ∷ udp_sendto payload dest port ∷ pbuf_free reply ∷ []) in
    if env.alloc_ok len then sending else some (no_mem, pbuf_alloc len ∷ [])

-- A `struct udp_pcb`: whether the receive callback is set, and what it is bound to.
pub record Pcb : Type 0 where
  pub receives : Bool
  pub bound : Option (Ip4 × ℕ)

-- `dns_server_t`. The `udp` pointer is `none` where it is NULL.
pub record Server : Type 0 where
  pub udp : Option Pcb
  pub ip : Ip4

abbrev pub port_dns_server : ℕ
port_dns_server = 53

-- `udp_new` may fail: its answer is the first argument. The status is `ERR_OK`, or -ENOMEM as
-- `false`.
unfoldable pub dns_socket_new_dgram : Bool → Option Pcb × Bool
dns_socket_new_dgram true = (some (record { receives = true; bound = none }), true)
dns_socket_new_dgram false = (none, false)

-- The status is `ERR_OK`, or the error of `udp_bind` as `false`: there the code's assertion fails,
-- and where assertions are compiled out, the error is returned.
unfoldable pub dns_socket_bind : Bool → Option Pcb → ℕ → ℕ → Option Pcb × Bool
dns_socket_bind ok none ip port = (none, ok)
dns_socket_bind true (some pcb) ip port =
    let addr : Ip4 = record {
      a = ip / 2 ^ 24 % 2 ^ 8;
      b = ip / 2 ^ 16 % 2 ^ 8;
      c = ip / 2 ^ 8 % 2 ^ 8;
      d = ip % 2 ^ 8;
    } in
    (some (record pcb { bound = some (addr, port) }), true)
dns_socket_bind false (some pcb) ip port = (some pcb, false)

unfoldable pub dns_socket_free : Option Pcb → Option Pcb
dns_socket_free udp = none

-- The address is kept last, so a start that fails leaves the one that was there.
unfoldable pub dns_server_init : Bool → Bool → Server → Ip4 → Server
unfolding dns_socket_new_dgram dns_socket_bind
dns_server_init new_ok bind_ok d ip =
    let (udp, made) = dns_socket_new_dgram new_ok in
    let (udp', bound) = dns_socket_bind bind_ok udp 0 port_dns_server in
    if made
    then if bound then record { udp = udp'; ip = ip } else record d { udp = udp' }
    else record d { udp = udp }

unfoldable pub dns_server_deinit : Server → Server
unfolding dns_socket_free
dns_server_deinit d = record d { udp = dns_socket_free d.udp }
