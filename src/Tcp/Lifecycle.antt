-- ===== src/Tcp/Lifecycle.antt =====
-- http_server/tcp_server.c: the server's global state, its start and its stop.
pub mod Laws
use pico_common.Common.{
  ℕ, ◌+◌, ◌-◌, List, Bool, true, false, Option, none, some, if◌then◌else◌, ◌>>=◌, ◌==◌,
}
use pico_common.Wifi.{Wifi, Start, Answers, wifi_stop, wifi_start_timeout, wifi_status_sucess}

-- `tcp_server_state`: NULL, a `TCP_SERVER_T` with or without a listening control block, or memory
-- that has been freed.
pub data ServerState : Type 0 where
  null dangling : ServerState
  live : Bool → ServerState

-- The module's state, with the control blocks that exist and are not closed. `H` stands for the functions
-- that `tcp_server_on_data_recived` may point to.
pub record Global (H : Type 0) : Type 0 where
  pub wifi : Wifi
  pub tcp_server_state : ServerState
  pub last_wifi_ssid : Option (List ℕ)
  pub tcp_server_max_read_size : ℕ
  pub tcp_server_on_data_recived : Option H
  pub pcbs : ℕ

-- What `calloc`, `tcp_new_ip_type`, `tcp_bind` to a port and `tcp_listen_with_backlog` answer.
pub record Opens : Type 0 where
  pub calloc_ok : Bool
  pub new_ok : Bool
  pub bind_ok : ℕ → Bool
  pub listen_ok : Bool

abbrev pub tcp_server_default_wifi_connect_timeout_ms : ℕ
tcp_server_default_wifi_connect_timeout_ms = 30000

module _ {H : Type 0} where
  -- `tcp_server_open`. A successful `tcp_listen_with_backlog` replaces the control block by one that
  -- listens; a failed one leaves it, and it is closed.
  unfoldable pub tcp_server_open : Opens → ℕ → Global H → Global H × Bool
  tcp_server_open o host_port g =
      let made = record g { pcbs = g.pcbs + 1 } in
      let listening : Global H × Bool = (record made { tcp_server_state = live true }, true) in
      let bound : Global H × Bool = if o.listen_ok then listening else (g, false) in
      let opened : Global H × Bool = if o.bind_ok host_port then bound else (made, false) in
      if o.new_ok then opened else (g, false)

  unfoldable pub tcp_server_is_running : Global H → Bool
  tcp_server_is_running g = elim g.tcp_server_state [
    | null ↦ false
    | dangling ↦ true
    | live b ↦ true
  ]

  -- From `tcp_server_init` on, the wifi being up.
  unfoldable pub start_server : Opens → List ℕ → ℕ → Global H → Global H × ℕ
  unfolding tcp_server_open
  start_server o wifi_ssid host_port g =
      let (g', opened) = tcp_server_open o host_port (record g { tcp_server_state = live false }) in
      let done : Global H × ℕ =
        if opened then (record g' { last_wifi_ssid = some wifi_ssid }, 0) else (g', 4) in
      if o.calloc_ok then done else (record g { tcp_server_state = null }, 3)

  unfoldable pub tcp_server_start_timeout : Answers → Opens → Start → ℕ → Global H → Global H × ℕ
  unfolding start_server
  tcp_server_start_timeout a o x host_port g =
      let (w, status) = wifi_start_timeout a x g.wifi in
      let g' = record g { wifi = w } in
      if status == wifi_status_sucess then start_server o x.wifi_ssid host_port g' else (g', status)

  unfoldable pub tcp_server_start :
      Answers → Opens → List ℕ → List ℕ → List ℕ → ℕ → Global H → Global H × ℕ
  unfolding tcp_server_start_timeout
  tcp_server_start a o wifi_ssid wifi_password hostname host_port g =
      tcp_server_start_timeout a o
        (record {
          wifi_ssid = wifi_ssid;
          wifi_password = wifi_password;
          hostname = hostname;
          wifi_connect_timeout_ms = tcp_server_default_wifi_connect_timeout_ms;
        })
        host_port g

  -- `tcp_server_close`, which reads the state, and the `free` after it.
  unfoldable pub close_state : Global H → ServerState → Option (Global H)
  close_state g null = some g
  close_state g dangling = none
  close_state g (live true) = some (record g { tcp_server_state = dangling; pcbs = g.pcbs - 1 })
  close_state g (live false) = some (record g { tcp_server_state = dangling })

  -- `none` is a use of freed memory.
  unfoldable pub tcp_server_stop : Global H → Option (Global H × ℕ)
  unfolding close_state
  tcp_server_stop g = close_state g g.tcp_server_state >>= λ g'.
      let (w, status) = wifi_stop g'.wifi in some (record g' { wifi = w }, status)
