-- ===== src/AccessPoint/Tests.antt =====
-- ap_website/picow_access_point.c: concrete connections and requests.
pub mod Portal
use pico_common.Common.{◌⊎◌, ◌+◌, ◌≡◌, refl, ◌∷◌, [], true, false, none, some, arith}
use pico_common.Net.{Ip4}
use pico_common.Http.Text.{codes}
use pico_common.Tcp.Session.{ok, Tcp, acked, arrived, peer_closed}
use pico_common.AccessPoint.Connection.{Con, Session, new_con, tcp_server_accept}
use pico_common.AccessPoint.Request.{Site}
use pico_common.AccessPoint.Safety.{IsSafe, IsOpen}
use pico_common.AccessPoint.Lifecycle.{Globals, Answers, access_point_init, access_point_deinit}
use pico_common.AccessPoint.Lifecycle.Laws.{AllWell, running, stopped, access_point_init-deinit}
use pico_common.AccessPoint.Run.{run}
use pico_common.AccessPoint.Run.Pages.{IsSoundSite}
use pico_common.AccessPoint.Run.Accepted.{new_con-IsSound, run-tcp_server_accept}
use pico_common.AccessPoint.Run.Closing.{acks, run-acks}

abbrev pub tcp : Tcp
tcp = record { close_err = ok; write_err = λ n. ok; calloc_ok = true }

abbrev pub gw : Ip4
gw = record { a = 192; b = 168; c = 4; d = 1 }

-- A site without pages.
abbrev pub site : Site
site = record { pages = []; get_handler = none; default_url = codes "/index.html" }

pub site-IsSoundSite : IsSoundSite site
site-IsSoundSite = record { pages_sound = tt; handler_sound = tt; url_short = omega arith }

abbrev opened : Con → Session
opened con = record {
  con = some con;
  pcb = true;
  callbacks = true;
  written = [];
  lent = [];
  received = 0;
  packets = 0;
}

abbrev pub client : Session
client = opened (new_con gw)

pub client-IsOpen : IsOpen client
client-IsOpen = record {
  state = new_con gw;
  held = refl;
  pcb_held = refl;
  listens = refl;
  sound = new_con-IsSound gw;
}

run-tcp_server_accept_example :
    (s' : Session) × (run tcp site
        (tcp_server_accept tcp gw ok true).0
        (arrived (codes "GET /redirect HTTP") ∷ acked 9 ∷ peer_closed ∷ [])
      ≡ some s')
    × IsSafe s'
run-tcp_server_accept_example =
    run-tcp_server_accept tcp site site-IsSoundSite gw ok true
      (arrived (codes "GET /redirect HTTP") ∷ acked 9 ∷ peer_closed ∷ []) (tt, (tt, (tt, tt)))

-- The state after an answer of 100 and 12 bytes.
abbrev answered_con : Con
answered_con = record (new_con gw) { header_len = 100; result_len = 12 }

answering-IsOpen : IsOpen (opened answered_con)
answering-IsOpen = record {
  state = answered_con;
  held = refl;
  pcb_held = refl;
  listens = refl;
  sound = record { headers_end = record { size = refl; last = refl }; result_size = refl };
}

run-acks_example :
    run tcp site (opened answered_con) (acks (60 ∷ 60 ∷ 5 ∷ []))
    ≡ some (record (opened answered_con) { con = none; pcb = false; callbacks = false })
unfolding answering-IsOpen
run-acks_example =
    run-acks tcp site (60 ∷ 60 ∷ 5 ∷ []) (opened answered_con) answering-IsOpen (omega arith)
      (omega arith) (omega arith) (omega arith)

abbrev no_socket : Answers
no_socket = record {
  calloc_ok = true;
  arch_init_ok = true;
  dhcp_new_ok = true;
  dhcp_bind_ok = true;
  dns_new_ok = false;
  dns_bind_ok = true;
  new_ok = true;
  bind_ok = true;
  listen_ok = true;
}

abbrev pub off : Globals
off = record {
  state = none;
  dhcp_server = record { ip = gw; nm = gw; lease = []; udp = none };
  dns_server = record { udp = none; ip = gw };
  ap_mode = false;
  pcbs = 0;
  states = 0;
}

access_point_init-deinit_example :
    (AllWell no_socket
      × (access_point_init no_socket off ≡ (running no_socket off, 0))
      × (access_point_deinit (running no_socket off) ≡ some (stopped no_socket off, 0))
      × ((stopped no_socket off).dhcp_server.udp ≡ none)
      × ((stopped no_socket off).dns_server.udp ≡ none)
      × ((stopped no_socket off).pcbs ≡ 0)
      × ((stopped no_socket off).states ≡ 0 + 1))
    ⊎ ((¬ (AllWell no_socket)) × ((access_point_init no_socket off).1 ≡ 1))
access_point_init-deinit_example = access_point_init-deinit no_socket off
