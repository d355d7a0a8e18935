-- ===== src/AccessPoint/Lifecycle.antt =====
-- ap_website/picow_access_point.c: the start and stop of the access point with its three servers.
pub mod Laws
use pico_common.Common.{ℕ, ◌+◌, ◌-◌, Bool, true, false, Option, none, some, if◌then◌else◌, ◌>>=◌}
use pico_common.Net.{Ip4}
use pico_common.Dhcp.Socket.{Server as DhcpServer, dhcp_server_init, dhcp_server_deinit}
use pico_common.Dns.Socket.{Server as DnsServer, dns_server_init, dns_server_deinit}

-- `TCP_SERVER_T`: whether there is a listening control block, and the address.
pub record TcpServer : Type 0 where
  pub server_pcb : Bool
  pub gw : Ip4

-- The globals: `state`, which is `none` where it is NULL, and the two servers; whether the chip is in the
-- access point's mode; the TCP control blocks that exist; and how many states were allocated and not freed.
pub record Globals : Type 0 where
  pub state : Option TcpServer
  pub dhcp_server : DhcpServer
  pub dns_server : DnsServer
  pub ap_mode : Bool
  pub pcbs : ℕ
  pub states : ℕ

-- What the calls answer.
pub record Answers : Type 0 where
  pub calloc_ok : Bool
  pub arch_init_ok : Bool
  pub dhcp_new_ok : Bool
  pub dhcp_bind_ok : Bool
  pub dns_new_ok : Bool
  pub dns_bind_ok : Bool
  pub new_ok : Bool
  pub bind_ok : Bool
  pub listen_ok : Bool

-- `tcp_server_open` on the state. A successful `tcp_listen_with_backlog` replaces the control block by
-- one that listens; a failed one leaves it, and it is closed.
unfoldable pub tcp_server_open : Answers → TcpServer → Globals → Globals × Bool
tcp_server_open a server g =
    let made = record g { pcbs = g.pcbs + 1 } in
    let listening : Globals × Bool =
      (record made { state = some (record server { server_pcb = true }) }, true) in
    let unheard : Globals × Bool =
      (record g { state = some (record server { server_pcb = false }) }, false) in
    let bound : Globals × Bool = if a.listen_ok then listening else unheard in
    let opened : Globals × Bool = if a.bind_ok then bound else (made, false) in
    if a.new_ok then opened else (g, false)

abbrev pub address : Ip4
address = record { a = 192; b = 168; c = 4; d = 1 }

abbrev pub mask : Ip4
mask = record { a = 255; b = 255; c = 255; d = 0 }

-- From `cyw43_arch_enable_ap_mode` on.
unfoldable pub start_servers : Answers → Globals → Globals × ℕ
unfolding tcp_server_open dhcp_server_init dns_server_init
start_servers a g =
    let server : TcpServer = record { server_pcb = false; gw = address } in
    let g' = record g {
      state = some server;
      dhcp_server = dhcp_server_init a.dhcp_new_ok a.dhcp_bind_ok address mask;
      dns_server = dns_server_init a.dns_new_ok a.dns_bind_ok g.dns_server address;
      ap_mode = true;
    } in
    let (g'', opened) = tcp_server_open a server g' in (g'', if opened then 0 else 1)

-- `calloc` clears the state, its address too.
unfoldable pub access_point_init : Answers → Globals → Globals × ℕ
unfolding start_servers
access_point_init a g =
    let cleared : TcpServer = record {
      server_pcb = false;
      gw = record { a = 0; b = 0; c = 0; d = 0 };
    } in
    let allocated = record g { state = some cleared; states = g.states + 1 } in
    let started = if a.arch_init_ok then start_servers a allocated else (allocated, 1) in
    if a.calloc_ok then started else (record g { state = none }, 1)

-- `tcp_server_close`. `none` is a use of NULL.
unfoldable pub tcp_server_close : Globals → Option TcpServer → Option Globals
tcp_server_close g none = none
tcp_server_close g (some s) =
    let closed = record g { state = some (record s { server_pcb = false }); pcbs = g.pcbs - 1 } in
    some (if s.server_pcb then closed else g)

unfoldable pub access_point_deinit : Globals → Option (Globals × ℕ)
unfolding tcp_server_close dhcp_server_deinit dns_server_deinit
access_point_deinit g = tcp_server_close g g.state >>= λ g'.
    let stopped = record g' {
      dns_server = dns_server_deinit g'.dns_server;
      dhcp_server = dhcp_server_deinit g'.dhcp_server;
      ap_mode = false;
    } in
    some (stopped, 0)
