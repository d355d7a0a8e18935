-- ===== src/Dhcp/Tests.antt =====
-- ap_website/dhcpserver/dhcpserver.c: concrete packets, leases and tables.
pub mod Handshake
pub mod Total
use pico_common.Common.{
  ℕ, ◌+◌, ◌-◌, ◌*◌, ◌^◌, ◌≡◌, List, [], ◌∷◌, ◌++◌, true, false, none, arith, get_elem?, replicate,
}
use pico_common.Net.{Lwip, pbuf_free, request}
use pico_common.Dhcp.Options.{opt_find}
use pico_common.Dhcp.Options.Scanning.{Scans, opt_find-Scans}
use pico_common.Dhcp.Options.Encoding.{Tagged, encode, opt_find-encode, place_of}
use pico_common.Dhcp.Leases.{Lease, empty_leases, has_expired, expiry_at, discover_loop}
use pico_common.Dhcp.Leases.Choosing.{
  choice, clear_available, discover_loop_lem, first_held, first_available,
}
use pico_common.Dhcp.Leases.Expiry.{clock_after, lease_ms, has_expired-within, has_expired_again}
use pico_common.Dhcp.Socket.{Server}
use pico_common.Dhcp.Process.Safety.{dhcp_server_process-Keeps, Keeps}
use pico_common.Dhcp.Process.Answering.{IsOrderly, dhcp_server_process-IsOrderly}
use pico_common.Dhcp.Process.Replies.{discover_offers}
use pico_common.Dhcp.Process.Refusals.{request_refused}
use pico_common.Dhcp.Run.{Arrival, run, granted, run-lease_lasts}

abbrev pub lwip : Lwip
lwip = record { alloc_ok = λ n. true; input_netif = true; send_err = 0 }

abbrev pub clock : ℕ → ℕ
clock i = 5000

abbrev pub mac : List ℕ
mac = 2 ∷ 3 ∷ 5 ∷ 7 ∷ 11 ∷ 13 ∷ []

abbrev pub other_mac : List ℕ
other_mac = 17 ∷ 19 ∷ 23 ∷ 29 ∷ 31 ∷ 37 ∷ []

abbrev pub stack : List ℕ
stack = replicate 548 0

-- A message of type `kind` from `chaddr` that asks for the first address.
abbrev pub packet_of : List ℕ → ℕ → List ℕ
packet_of chaddr kind =
    replicate 28 0
    ++ (chaddr ++ (replicate 206 0 ++ (53 ∷ 1 ∷ kind ∷ 50 ∷ 4 ∷ 192 ∷ 168 ∷ 4 ∷ 16 ∷ 255 ∷ [])))

abbrev packet : ℕ → List ℕ
packet = packet_of mac

abbrev pub server_with : List Lease → Server
server_with ls = record {
  ip = record { a = 192; b = 168; c = 4; d = 1 };
  nm = record { a = 255; b = 255; c = 255; d = 0 };
  lease = ls;
  udp = none;
}

abbrev others_lease : Lease
others_lease = record { mac = other_mac; expiry = 2000 }

abbrev full : List Lease
full = replicate 8 others_lease

abbrev tagged : List Tagged
tagged =
    record { tag = 53; body = 1 ∷ [] } ∷ record { tag = 50; body = 192 ∷ 168 ∷ 4 ∷ 16 ∷ [] } ∷ []

opt_find-Scans_example : Scans (encode tagged) 50 0 (opt_find (encode tagged) 50)
opt_find-Scans_example = opt_find-Scans (encode tagged) 50

opt_find-encode_example :
    opt_find (encode tagged ++ 255 ∷ (replicate 298 0)) 50 ≡ place_of 50 0 tagged
opt_find-encode_example =
    opt_find-encode 50 tagged (replicate 298 0) (ground arith, (ground arith, tt)) (ground arith)
      (ground arith)

abbrev long : List Tagged
long = record { tag = 43; body = replicate 250 0 } ∷ record { tag = 60; body = replicate 53 0 } ∷ []

has_expired_again_example :
    has_expired (record { mac = mac; expiry = expiry_at 5 }) (clock_after 5 (lease_ms + 3 * 2 ^ 30))
    ≡ false
has_expired_again_example =
    has_expired_again mac 5 (lease_ms + 3 * 2 ^ 30) (omega arith) (omega arith) (omega arith)

abbrev discover : List ℕ
discover = packet 1

abbrev pub asks : List ℕ
asks = packet 3

abbrev pub empty : Server
empty = server_with empty_leases
