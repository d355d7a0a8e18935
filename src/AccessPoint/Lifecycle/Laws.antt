-- ===== src/AccessPoint/Lifecycle/Laws.antt =====
-- ap_website/picow_access_point.c: what a start and a stop of the access point do.
use pico_common.Common.{◌+◌, ◌-◌, ◌≡◌, ◌⊎◌, inl, inr, refl, true, false, none, some, arith}
use pico_common.Dhcp.Socket.{dhcp_server_init, dhcp_server_deinit}
use pico_common.Dns.Socket.{dns_server_init, dns_server_deinit}
use pico_common.AccessPoint.Lifecycle.{
  Globals, Answers, address, mask, tcp_server_open, start_servers, access_point_init,
  tcp_server_close, access_point_deinit,
}

-- Where the memory, the chip, the control block, the port and the backlog are granted. The sockets of the
-- DHCP server and of the DNS server do not count.
abbrev pub AllWell : Answers → Type 0
AllWell a =
    (a.calloc_ok ≡ true)
    × (a.arch_init_ok ≡ true)
    × (a.new_ok ≡ true)
    × (a.bind_ok ≡ true)
    × (a.listen_ok ≡ true)

-- The globals of an access point that runs.
abbrev pub running : Answers → Globals → Globals
running a g = record {
  state = some (record { server_pcb = true; gw = address });
  dhcp_server = dhcp_server_init a.dhcp_new_ok a.dhcp_bind_ok address mask;
  dns_server = dns_server_init a.dns_new_ok a.dns_bind_ok g.dns_server address;
  ap_mode = true;
  pcbs = g.pcbs + 1;
  states = g.states + 1;
}

pub access_point_init_status :
    (a : Answers) (g : Globals)
    → (AllWell a × (access_point_init a g ≡ (running a g, 0)))
      ⊎ ((¬ (AllWell a)) × ((access_point_init a g).1 ≡ 1))
unfolding access_point_init start_servers tcp_server_open
access_point_init_status a g = ground arith

pub access_point_init_started :
    (a : Answers) (g : Globals) → AllWell a → access_point_init a g ≡ (running a g, 0)
access_point_init_started a g well = elim (access_point_init_status a g) [
  | inl (same, starts) ↦ starts
  | inr (ill, fails) ↦ absurd (ill well)
]

-- The globals behind a stop of an access point that ran.
abbrev pub stopped : Answers → Globals → Globals
stopped a g = record (running a g) {
  state = some (record { server_pcb = false; gw = address });
  dhcp_server = dhcp_server_deinit (running a g).dhcp_server;
  dns_server = dns_server_deinit (running a g).dns_server;
  ap_mode = false;
  pcbs = g.pcbs + 1 - 1;
}

-- A start reports 0 where the memory, the chip, the control block, the port and the backlog are granted,
-- whether or not the DHCP server and the DNS server got their sockets; the access point then runs, and a
-- stop closes its control block and gives back the sockets and the chip's mode, but not the state, so
-- that a start and a stop cost the memory of one state. Where one of these is not granted, the start
-- reports 1.
pub access_point_init-deinit :
    (a : Answers) (g : Globals)
    → (AllWell a
        × (access_point_init a g ≡ (running a g, 0))
        × (access_point_deinit (running a g) ≡ some (stopped a g, 0))
        × ((stopped a g).dhcp_server.udp ≡ none)
        × ((stopped a g).dns_server.udp ≡ none)
        × ((stopped a g).pcbs ≡ g.pcbs)
        × ((stopped a g).states ≡ g.states + 1))
      ⊎ ((¬ (AllWell a)) × ((access_point_init a g).1 ≡ 1))
unfolding access_point_deinit tcp_server_close dhcp_server_deinit dns_server_deinit
access_point_init-deinit a g = elim (access_point_init_status a g) [
  | inl (well, starts) ↦ inl (well, starts, refl, refl, refl, omega arith, refl)
  | inr fails ↦ inr fails
]
