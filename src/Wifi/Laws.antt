-- ===== src/Wifi/Laws.antt =====
-- http_server/wifi.c: what a start and a stop establish.
use pico_common.Common.{◌+◌, ◌≡◌, refl, List, [], ◌∷◌, true, false, some, arith, ◌↔◌, length}
use pico_common.Wifi.{Wifi, Start, Answers, joins, wifi_set_host_name, wifi_start_timeout}

-- A start returns 0 exactly when both the chip's start and the connection succeed, 1 when the chip's
-- start fails, and 2 when only the connection does; it leaves the module connected exactly in the
-- first case, and where the chip starts, the interface is set up with the host name.
pub wifi_start_timeout_lem :
    (a : Answers) (x : Start) (w : Wifi)
    → let (w', status) = wifi_start_timeout a x w in
      ((status ≡ 0) ↔ ((a.init_ok ≡ true) × (joins a x ≡ true)))
      × ((status ≡ 1) ↔ (a.init_ok ≡ false))
      × ((status ≡ 2) ↔ ((a.init_ok ≡ true) × (joins a x ≡ false)))
      × ((w'.connected ≡ true) ↔ (status ≡ 0))
      × ((a.init_ok ≡ true) → (w'.netif_hostname ≡ some x.hostname) × (w'.netif_up ≡ true))
unfolding wifi_start_timeout wifi_set_host_name
wifi_start_timeout_lem a x w = ground arith

-- The module after the starts with these answers, one after the other.
abbrev pub starts : Start → List Answers → Wifi → Wifi
starts x [] w = w
starts x (a ∷ rest) w = starts x rest (wifi_start_timeout a x w).0

-- In all of them the chip starts, and the connection fails.
abbrev pub AllFail : Start → List Answers → Type 0
AllFail x [] = Unit {0}
AllFail x (a ∷ rest) = (a.init_ok ≡ true) × (joins a x ≡ false) × AllFail x rest

-- The module with the chip started once more, and the interface set up.
abbrev set_up : Start → Wifi → Wifi
set_up x w = record w { inits = w.inits + 1; netif_hostname = some x.hostname; netif_up = true }

one_failed :
    (a : Answers) (x : Start) (w : Wifi)
    → a.init_ok ≡ true
    → joins a x ≡ false
    → w.connected ≡ false
    → wifi_start_timeout a x w ≡ (set_up x w, 2)
unfolding wifi_start_timeout wifi_set_host_name
one_failed a x w up down off = rw (off, up, down) refl

-- While the module is not connected, each start where the chip starts and the connection fails
-- leaves the chip initialised once more, and the module not connected.
pub failed_starts-inits :
    (x : Start) (runs : List Answers) (w : Wifi)
    → AllFail x runs
    → w.connected ≡ false
    → ((starts x runs w).inits ≡ w.inits + length runs) × ((starts x runs w).connected ≡ false)
failed_starts-inits x [] w fails off = (omega arith, off)
failed_starts-inits x (a ∷ rest) w (up, down, fails) off =
    rw (starts, one_failed a x w up down off)
      (let (n, still) = failed_starts-inits x rest (set_up x w) fails off in
        (omega (arith, n), still))
