-- ===== src/Dhcp/Socket.antt =====
-- ap_website/dhcpserver/dhcpserver.c: the server's state, its UDP socket, and its start and stop.
use pico_common.Common.{
  ℕ, ◌/◌, ◌%◌, ◌^◌, List, [], ◌∷◌, Bool, true, false, Option, none, some, ltb, ◌==◌, if◌then◌else◌,
  ◌>>=◌, load_bytes,
}
use pico_common.Net.{
  Ip4, Lwip, Call, Sent, pbuf_alloc, udp_sendto, udp_sendto_if, pbuf_free, reply, sent, no_mem,
  failed,
}
use pico_common.Dhcp.Leases.{Lease, empty_leases}

-- A `struct udp_pcb`: whether the receive callback is set, and the port it is bound to.
pub record Pcb : Type 0 where
  pub receives : Bool
  pub port : Option ℕ

-- `dhcp_server_t`. The `udp` pointer is `none` where it is NULL.
pub record Server : Type 0 where
  pub ip : Ip4
  pub nm : Ip4
  pub lease : List Lease
  pub udp : Option Pcb

abbrev pub port_dhcp_server : ℕ
port_dhcp_server = 67

abbrev pub port_dhcp_client : ℕ
port_dhcp_client = 68

-- `IP4_ADDR(&dest, ip >> 24 & 0xff, ip >> 16 & 0xff, ip >> 8 & 0xff, ip & 0xff)`.
unfoldable pub ip4_of_u32 : ℕ → Ip4
ip4_of_u32 ip = record {
  a = ip / 2 ^ 24 % 2 ^ 8;
  b = ip / 2 ^ 16 % 2 ^ 8;
  c = ip / 2 ^ 8 % 2 ^ 8;
  d = ip % 2 ^ 8;
}

unfoldable pub dhcp_socket_sendto : Lwip → Bool → List ℕ → ℕ → ℕ → ℕ → Option (Sent × List Call)
unfolding ip4_of_u32
dhcp_socket_sendto env nif buf size ip port =
    let len = if ltb 0xffff size then 0xffff else size in
    let sending = load_bytes buf 0 len >>= λ payload.
    let dest = ip4_of_u32 ip in
    let call = if nif then udp_sendto_if payload dest port else udp_sendto payload dest port in
    let status = if env.send_err == 0 then sent len else failed env.send_err in
    some (status, pbuf_alloc len ∷ call ∷ pbuf_free reply ∷ []) in
    if env.alloc_ok len then sending else some (no_mem, pbuf_alloc len ∷ [])

-- `udp_new` may fail: its answer is the first argument. The status is 0, or -ENOMEM as `false`.
unfoldable pub dhcp_socket_new_dgram : Bool → Option Pcb × Bool
dhcp_socket_new_dgram true = (some (record { receives = true; port = none }), true)
dhcp_socket_new_dgram false = (none, false)

-- `udp_bind` on the socket; if it fails (the first argument), the socket stays unbound.
unfoldable pub dhcp_socket_bind : Bool → Option Pcb → ℕ → Option Pcb
dhcp_socket_bind bind_ok none port = none
dhcp_socket_bind true (some pcb) port = some (record pcb { port = some port })
dhcp_socket_bind false (some pcb) port = some pcb

unfoldable pub dhcp_socket_free : Option Pcb → Option Pcb
dhcp_socket_free udp = none

unfoldable pub dhcp_server_init : Bool → Bool → Ip4 → Ip4 → Server
unfolding dhcp_socket_new_dgram dhcp_socket_bind
dhcp_server_init new_ok bind_ok ip nm =
    let (udp, ready) = dhcp_socket_new_dgram new_ok in
    let d : Server = record { ip = ip; nm = nm; lease = empty_leases; udp = udp } in
    if ready then record d { udp = dhcp_socket_bind bind_ok udp port_dhcp_server } else d

unfoldable pub dhcp_server_deinit : Server → Server
unfolding dhcp_socket_free
dhcp_server_deinit d = record d { udp = dhcp_socket_free d.udp }
