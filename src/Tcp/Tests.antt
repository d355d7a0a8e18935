-- ===== src/Tcp/Tests.antt =====
-- http_server/tcp_server.c: concrete connections and servers.
use pico_common.Common.{◌-◌, ◌≡◌, refl, [], ◌∷◌, true, false, none, some}
use pico_common.Http.Text.{codes}
use pico_common.Wifi.{Start, Answers}
use pico_common.Tcp.Session.{ok, clsd, Con, Session, Tcp, Handler, acked, broken, on_event, run}
use pico_common.Tcp.Session.Safety.{IsOpen, Yields, broken_faults, acked_stays_open}
use pico_common.Tcp.Lifecycle.{null, live, Global, Opens, tcp_server_stop, tcp_server_is_running}
use pico_common.Tcp.Lifecycle.Laws.{stop_twice_faults}

abbrev tcp : Tcp
tcp = record { close_err = ok; write_err = λ n. ok; calloc_ok = true }

abbrev con : Con
con = record { written_len = 0; sent_len = 0; dont_close_on_send_finish = false }

abbrev client : Session
client = record {
  con = some con;
  pcb = true;
  callbacks = true;
  written = [];
  received = 0;
  packets = 0;
}

client-IsOpen : IsOpen client
client-IsOpen = record { state = con; held = refl; pcb_held = refl; listens = refl }

broken_faults_example : run tcp none [] client (broken clsd ∷ []) ≡ none
broken_faults_example = broken_faults tcp none [] client clsd [] client-IsOpen refl

acked_stays_open_example : Yields IsOpen (on_event tcp none [] client (acked 3))
unfolding client-IsOpen
acked_stays_open_example = acked_stays_open tcp none [] client 3 client-IsOpen refl

abbrev fine : Answers
fine = record { init_ok = true; connect_ok = λ name password ms. true }

abbrev taken_port : Opens
taken_port = record { calloc_ok = true; new_ok = true; bind_ok = λ port. false; listen_ok = true }

abbrev network : Start
network = record {
  wifi_ssid = codes "net";
  wifi_password = codes "secret";
  hostname = codes "pico";
  wifi_connect_timeout_ms = 30000;
}

abbrev idle : Global Handler
idle = record {
  wifi = record { connected = false; inits = 0; netif_hostname = none; netif_up = false };
  tcp_server_state = null;
  last_wifi_ssid = none;
  tcp_server_max_read_size = 1024;
  tcp_server_on_data_recived = none;
  pcbs = 0;
}

abbrev listening : Global Handler
listening = record idle {
  wifi = record {
    connected = true;
    inits = 1;
    netif_hostname = some (codes "pico");
    netif_up = true;
  };
  tcp_server_state = live true;
  pcbs = 1;
}

stop_twice_faults_example :
    (g' : Global Handler) × (tcp_server_stop listening ≡ some (g', 0))
    × (g'.wifi.connected ≡ false)
    × (g'.pcbs ≡ 1 - 1)
    × (tcp_server_is_running g' ≡ true)
    × (tcp_server_stop g' ≡ none)
stop_twice_faults_example = stop_twice_faults listening refl
