-- ===== src/Wifi.antt =====
-- http_server/wifi.c and wifi.h. What `cyw43_arch_init` and the connection attempt (pico-sdk, not part
-- of the repository) return are arguments; debug prints and lwIP's lock are left out.
pub mod Laws
use pico_common.Common.{ℕ, ◌+◌, ◌-◌, List, Bool, true, false, Option, some, if◌then◌else◌}

-- `wifi_connected`; how many times `cyw43_arch_init` has succeeded without a `cyw43_arch_deinit`
-- since; and the station's network interface: the host name that it was given, and whether it was set up.
pub record Wifi : Type 0 where
  pub connected : Bool
  pub inits : ℕ
  pub netif_hostname : Option (List ℕ)
  pub netif_up : Bool

-- The arguments of a start.
pub record Start : Type 0 where
  pub wifi_ssid : List ℕ
  pub wifi_password : List ℕ
  pub hostname : List ℕ
  pub wifi_connect_timeout_ms : ℕ

-- How the SDK answers one start: whether the chip starts, and whether a connection is made with a name, a
-- password and a time-out.
pub record Answers : Type 0 where
  pub init_ok : Bool
  pub connect_ok : List ℕ → List ℕ → ℕ → Bool

-- Whether the connection of this start is made.
abbrev pub joins : Answers → Start → Bool
joins a x = a.connect_ok x.wifi_ssid x.wifi_password x.wifi_connect_timeout_ms

abbrev pub wifi_status_sucess : ℕ
wifi_status_sucess = 0

abbrev pub wifi_connect_default_timeout_ms : ℕ
wifi_connect_default_timeout_ms = 30000

unfoldable pub wifi_set_host_name : List ℕ → Wifi → Wifi
wifi_set_host_name hostname w = record w { netif_hostname = some hostname; netif_up = true }

unfoldable pub wifi_stop : Wifi → Wifi × ℕ
wifi_stop w = (record w { connected = false; inits = 0 }, wifi_status_sucess)

-- From `cyw43_arch_init` on.
unfoldable pub connect : Answers → Start → Wifi → Wifi × ℕ
unfolding wifi_set_host_name
connect a x w =
    let w' = wifi_set_host_name x.hostname (record w { inits = w.inits + 1 }) in
    let joined =
      if joins a x then (record w' { connected = true }, wifi_status_sucess) else (w', 2) in
    if a.init_ok then joined else (w, 1)

unfoldable pub wifi_start_timeout : Answers → Start → Wifi → Wifi × ℕ
unfolding wifi_stop connect
wifi_start_timeout a x w = connect a x (if w.connected then (wifi_stop w).0 else w)

unfoldable pub wifi_start : Answers → List ℕ → List ℕ → List ℕ → Wifi → Wifi × ℕ
unfolding wifi_start_timeout
wifi_start a wifi_ssid wifi_password hostname w =
    wifi_start_timeout a
      (record {
        wifi_ssid = wifi_ssid;
        wifi_password = wifi_password;
        hostname = hostname;
        wifi_connect_timeout_ms = wifi_connect_default_timeout_ms;
      })
      w
