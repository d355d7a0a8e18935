-- ===== src/Dhcp/Run/Total.antt =====
-- ap_website/dhcpserver/dhcpserver.c: sequences of packets with well-formed options.
use pico_common.Common.{
  ℕ, ◌<◌, ◌≡◌, ◌≢◌, refl, List, [], ◌∷◌, some, arith, ◌>>=◌, length, get_elem?, drop, copy_partial,
  ◌^◌,
}
use pico_common.Dhcp.Leases.{no_mac, dhcps_max_ip}
use pico_common.Dhcp.Options.WellFormed.{IsWellFormed}
use pico_common.Dhcp.Socket.{Server}
use pico_common.Dhcp.Process.{msg_size, at_opt}
use pico_common.Dhcp.Process.Total.{dhcp_server_process-total}
use pico_common.Dhcp.Run.{Arrival, run, AllForeign, granted, run-lease_lasts}

-- The array on the stack has its size, and the options in it, once the packet is copied there, are well-formed.
pub record IsWritten (a : Arrival) : Type 0 where
  pub whole : length a.stack ≡ msg_size
  pub well : IsWellFormed (drop at_opt (copy_partial a.packet msg_size a.stack))

abbrev pub AllWritten : List Arrival → Type 0
AllWritten [] = Unit {0}
AllWritten (a ∷ rest) = IsWritten a × AllWritten rest

run-ends :
    (arrivals : List Arrival) (d : Server)
    → length d.lease ≡ dhcps_max_ip
    → AllWritten arrivals
    → (d' : Server) × (run d arrivals ≡ some d') × (length d'.lease ≡ dhcps_max_ip)
unfolding run
run-ends [] d table written = (d, refl, table)
run-ends (a ∷ rest) d table written =
    let (d₁, calls, went, orderly, kept, ip_same, nm_same, udp_same) =
      dhcp_server_process-total a.env a.now a.stack d a.packet written.0.whole table
        written.0.well in
    let (d', ends, size) = run-ends rest d₁ (omega (arith, kept.0, table)) written.1 in
    (d', rw (went, ◌>>=◌) ends, size)

-- Any number of packets of other clients, whose options are each a tag, a length and a body up to an end tag within
-- the array, each message type with one byte at least and each requested address with four, so without a pad before
-- the end tag, that arrive within a day of
-- a grant are all handled to the end, also where the clock wraps, and the granted lease is then still there,
-- unchanged, in a table of eight.
pub run-keeps_granted :
    (arrivals : List Arrival) (d : Server) (mac : List ℕ) (start j : ℕ)
    → length d.lease ≡ dhcps_max_ip
    → get_elem? d.lease j ≡ some (granted mac start)
    → mac ≢ no_mac
    → start < 2 ^ 32
    → AllWritten arrivals
    → AllForeign mac start arrivals
    → (d' : Server) × (run d arrivals ≡ some d')
      × (length d'.lease ≡ dhcps_max_ip)
      × (get_elem? d'.lease j ≡ some (granted mac start))
run-keeps_granted arrivals d mac start j table held used small written foreign =
    let (d', ends, size) = run-ends arrivals d table written in
    (
      d',
      ends,
      size,
      run-lease_lasts arrivals d d' mac start j (omega (arith, table)) held used small foreign ends,
    )
