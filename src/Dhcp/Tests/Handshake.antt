-- ===== src/Dhcp/Tests/Handshake.antt =====
-- ap_website/dhcpserver/dhcpserver.c: two clients at a server that has granted nothing yet.
use pico_common.Common.{
  ℕ, ◌≡◌, refl, true, false, List, [], ◌∷◌, some, arith, get_elem?, load_bytes,
}
use pico_common.Net.{pbuf_free, request}
use pico_common.Dhcp.Options.{opt_find}
use pico_common.Dhcp.Leases.{Lease, has_expired}
use pico_common.Dhcp.Leases.Expiry.{clock_after}
use pico_common.Dhcp.Leases.Choosing.{first_held, first_available}
use pico_common.Dhcp.Run.{Arrival, handle}
use pico_common.Dhcp.Handshake.{IsFrom, Asks, offered, acked, sends, handshake}
use pico_common.Dhcp.Handshake.Race.{race}
use pico_common.Dhcp.Tests.{lwip, clock, mac, other_mac, stack, packet_of, empty}

abbrev pub sent_by : List ℕ → ℕ → Arrival
sent_by chaddr kind = record {
  env = lwip;
  now = clock;
  stack = stack;
  packet = packet_of chaddr kind;
}

pub discover-IsFrom : IsFrom (sent_by mac 1) mac 1
unfolding opt_find load_bytes
discover-IsFrom = record {
  whole = refl;
  long = omega arith;
  room = refl;
  place = 0;
  type_at = refl;
  is_kind = refl;
  from = refl;
}

request-IsFrom : IsFrom (sent_by mac 3) mac 3
unfolding opt_find load_bytes
request-IsFrom = record {
  whole = refl;
  long = omega arith;
  room = refl;
  place = 0;
  type_at = refl;
  is_kind = refl;
  from = refl;
}

others_discover-IsFrom : IsFrom (sent_by other_mac 1) other_mac 1
unfolding opt_find load_bytes
others_discover-IsFrom = record {
  whole = refl;
  long = omega arith;
  room = refl;
  place = 0;
  type_at = refl;
  is_kind = refl;
  from = refl;
}

others_request-IsFrom : IsFrom (sent_by other_mac 3) other_mac 3
unfolding opt_find load_bytes
others_request-IsFrom = record {
  whole = refl;
  long = omega arith;
  room = refl;
  place = 0;
  type_at = refl;
  is_kind = refl;
  from = refl;
}

request-Asks : Asks (sent_by mac 3) empty.ip 0
unfolding opt_find load_bytes
request-Asks = record { place = 3; asks = refl; net = refl; last = refl }

others_request-Asks : Asks (sent_by other_mac 3) empty.ip 0
unfolding opt_find load_bytes
others_request-Asks = record { place = 3; asks = refl; net = refl; last = refl }

handshake_example :
    let d₁ = offered empty (sent_by mac 1) mac in
    let d₂ = acked d₁ (sent_by mac 3) mac 0 in
    (handle empty (sent_by mac 1) ≡ some (d₁, sends empty (sent_by mac 1) 0 2))
    × (handle d₁ (sent_by mac 3) ≡ some (d₂, sends d₁ (sent_by mac 3) 0 5))
    × (l : Lease) × (get_elem? d₂.lease 0 ≡ some l)
    × (l.mac ≡ mac)
    × (has_expired l (clock_after 5000 1000) ≡ false)
    × (has_expired l (clock_after 5000 100_000_000) ≡ true)
unfolding first_held first_available
handshake_example =
    handshake empty (sent_by mac 1) (sent_by mac 3) mac 0 1000 100_000_000 (omega arith)
      (omega arith) (omega arith) (omega arith) (omega arith) refl (omega arith) discover-IsFrom
      request-IsFrom request-Asks

race_example :
    let d₁ = offered empty (sent_by mac 1) mac in
    let d₂ = offered d₁ (sent_by other_mac 1) other_mac in
    let d₃ = acked d₂ (sent_by mac 3) mac 0 in
    (handle empty (sent_by mac 1) ≡ some (d₁, sends empty (sent_by mac 1) 0 2))
    × (handle d₁ (sent_by other_mac 1) ≡ some (d₂, sends d₁ (sent_by other_mac 1) 0 2))
    × (handle d₂ (sent_by mac 3) ≡ some (d₃, sends d₂ (sent_by mac 3) 0 5))
    × (handle d₃ (sent_by other_mac 3) ≡ some (d₃, pbuf_free request ∷ []))
unfolding first_held first_available
race_example =
    race empty (sent_by mac 1) (sent_by other_mac 1) (sent_by mac 3) (sent_by other_mac 3) mac
      other_mac 0 (omega arith) (ground arith) (ground arith) (ground arith) refl refl refl refl
      discover-IsFrom others_discover-IsFrom request-IsFrom request-Asks others_request-IsFrom
      others_request-Asks
