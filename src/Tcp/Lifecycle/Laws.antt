-- ===== src/Tcp/Lifecycle/Laws.antt =====
-- http_server/tcp_server.c: what a start and a stop of the server do.
use pico_common.Common.{◌≤◌, ℕ, ◌+◌, ◌-◌, ◌≡◌, ◌≢◌, ◌⊎◌, refl, true, false, none, some, arith}
use pico_common.Wifi.{Wifi, Start, Answers, joins, wifi_stop, wifi_start_timeout}
use pico_common.Tcp.Lifecycle.{
  dangling, live, Global, Opens, tcp_server_is_running, tcp_server_start_timeout, tcp_server_stop,
}

-- Where everything that is asked for is granted.
pub record AllWell (a : Answers) (o : Opens) (x : Start) (host_port : ℕ) : Type 0 where
  pub up : a.init_ok ≡ true
  pub joined : joins a x ≡ true
  pub memory : o.calloc_ok ≡ true
  pub made : o.new_ok ≡ true
  pub port_free : o.bind_ok host_port ≡ true
  pub listens : o.listen_ok ≡ true

start_ok :
    (a : Answers) (x : Start) (w : Wifi)
    → a.init_ok ≡ true
    → joins a x ≡ true
    → (wifi_start_timeout a x w).1 ≡ 0
unfolding wifi_start_timeout
start_ok a x w up joined = rw (up, joined)

module _ {H : Type 0} where
  -- The module's state behind a start that succeeds.
  abbrev pub started : Answers → Start → Global H → Global H
  started a x g = record g {
    wifi = (wifi_start_timeout a x g.wifi).0;
    tcp_server_state = live true;
    last_wifi_ssid = some x.wifi_ssid;
    pcbs = g.pcbs + 1;
  }

  pub tcp_server_start_timeout_well :
      (a : Answers) (o : Opens) (x : Start) (host_port : ℕ) (g : Global H)
      → AllWell a o x host_port
      → tcp_server_start_timeout a o x host_port g ≡ (started a x g, 0)
  unfolding tcp_server_start_timeout
  tcp_server_start_timeout_well a o x host_port g well = rw (
    start_ok a x g.wifi well.up well.joined,
    well.memory,
    well.made,
    well.port_free,
    well.listens,
  )

  -- Where the wifi comes up and the server's memory, control block, port and backlog are all granted, a
  -- start reports 0, the server is listening, and one control block more is in use. Where one of these
  -- fails, it does not report 0.
  pub tcp_server_start_timeout_zero :
      (a : Answers) (o : Opens) (x : Start) (host_port : ℕ) (g : Global H)
      → let (g', status) = tcp_server_start_timeout a o x host_port g in
        (AllWell a o x host_port
          × (status ≡ 0)
          × (g'.tcp_server_state ≡ live true)
          × (g'.pcbs ≡ g.pcbs + 1))
        ⊎ ((¬ (AllWell a o x host_port)) × (status ≢ 0))
  unfolding tcp_server_start_timeout wifi_start_timeout
  tcp_server_start_timeout_zero a o x host_port g = ground arith

  -- The status of a start is 4 at most.
  pub tcp_server_start_timeout_status :
      (a : Answers) (o : Opens) (x : Start) (host_port : ℕ) (g : Global H)
      → (tcp_server_start_timeout a o x host_port g).1 ≤ 4
  unfolding tcp_server_start_timeout wifi_start_timeout
  tcp_server_start_timeout_status a o x host_port g = ground arith

  -- A start that fails leaves no server that listens where there was none.
  pub tcp_server_start_timeout_fails :
      (a : Answers) (o : Opens) (x : Start) (host_port : ℕ) (g : Global H)
      → g.tcp_server_state ≢ live true
      → (tcp_server_start_timeout a o x host_port g).1 ≢ 0
      → (tcp_server_start_timeout a o x host_port g).0.tcp_server_state ≢ live true
  unfolding tcp_server_start_timeout wifi_start_timeout
  tcp_server_start_timeout_fails a o x host_port g off fails = ground arith

  -- A stop of a listening server closes its control block and takes the wifi down, but leaves the
  -- pointer to the freed state: the server still counts as running, and a second stop uses the freed
  -- memory.
  pub stop_twice_faults :
      (g : Global H)
      → g.tcp_server_state ≡ live true
      → (g' : Global H) × (tcp_server_stop g ≡ some (g', 0))
        × (g'.wifi.connected ≡ false)
        × (g'.pcbs ≡ g.pcbs - 1)
        × (tcp_server_is_running g' ≡ true)
        × (tcp_server_stop g' ≡ none)
  unfolding tcp_server_stop wifi_stop tcp_server_is_running
  stop_twice_faults g up = (
    record g {
      wifi = record g.wifi { connected = false; inits = 0 };
      tcp_server_state = dangling;
      pcbs = g.pcbs - 1;
    },
    rw up,
    refl,
    refl,
    refl,
    refl,
  )

  -- The module's state when the port is taken.
  abbrev half_open : Answers → Start → Global H → Global H
  half_open a x g = record g {
    wifi = (wifi_start_timeout a x g.wifi).0;
    tcp_server_state = live false;
    pcbs = g.pcbs + 1;
  }

  start_fails :
      (a : Answers) (o : Opens) (x : Start) (host_port : ℕ) (g : Global H)
      → a.init_ok ≡ true
      → joins a x ≡ true
      → o.calloc_ok ≡ true
      → o.new_ok ≡ true
      → o.bind_ok host_port ≡ false
      → tcp_server_start_timeout a o x host_port g ≡ (half_open a x g, 4)
  unfolding tcp_server_start_timeout
  start_fails a o x host_port g up joined mem made taken =
      rw (start_ok a x g.wifi up joined, mem, made, taken)

  -- Where the wifi, the memory and the control block are granted and the port is taken, a start
  -- returns 4 and leaves a control block that a stop does not close.
  pub bind_failure_leaks :
      (a : Answers) (o : Opens) (x : Start) (host_port : ℕ) (g : Global H)
      → a.init_ok ≡ true
      → joins a x ≡ true
      → o.calloc_ok ≡ true
      → o.new_ok ≡ true
      → o.bind_ok host_port ≡ false
      → let (g', status) = tcp_server_start_timeout a o x host_port g in
        (status ≡ 4)
        × (g'' : Global H) × (tcp_server_stop g' ≡ some (g'', 0))
        × (g''.pcbs ≡ g.pcbs + 1)
  unfolding tcp_server_stop wifi_stop
  bind_failure_leaks a o x host_port g up joined mem made taken =
      rw (start_fails a o x host_port g up joined mem made taken) (refl, _, refl, refl)
