-- ===== src/Dhcp/Tests/Total.antt =====
-- ap_website/dhcpserver/dhcpserver.c: a DHCPREQUEST at a server that has granted nothing yet.
use pico_common.Common.{
  ℕ, ◌++◌, ◌≡◌, refl, List, [], ◌∷◌, some, arith, length, take, drop, get_elem?, load_bytes,
  replicate, copy_partial,
}
use pico_common.Net.{Call, pbuf_free, request}
use pico_common.Dhcp.Process.Padding.{pad_drops}
use pico_common.Dhcp.Options.Encoding.{Tagged}
use pico_common.Dhcp.Options.WellFormed.{IsWellFormed}
use pico_common.Dhcp.Leases.{mac_len, dhcps_max_ip, empty_leases}
use pico_common.Dhcp.Socket.{Server}
use pico_common.Dhcp.Process.{dhcp_server_process, msg_size, at_chaddr, at_opt}
use pico_common.Dhcp.Process.Safety.{Keeps}
use pico_common.Dhcp.Process.Answering.{IsOrderly}
use pico_common.Dhcp.Process.Total.{dhcp_server_process-total}
use pico_common.Dhcp.Run.{Arrival, run, granted}
use pico_common.Dhcp.Run.Total.{run-keeps_granted}
use pico_common.Dhcp.Tests.{lwip, clock, mac, stack, other_mac, asks, empty, server_with}

abbrev msg : List ℕ
msg = copy_partial asks msg_size stack

abbrev tagged : List Tagged
tagged =
    record { tag = 53; body = 3 ∷ [] } ∷ record { tag = 50; body = 192 ∷ 168 ∷ 4 ∷ 16 ∷ [] } ∷ []

asks-IsWellFormed : IsWellFormed (drop at_opt msg)
asks-IsWellFormed = record {
  options = tagged;
  rest = replicate 298 0;
  written = refl;
  no_end = (ground arith, (ground arith, tt));
  short = ground arith;
  types = ((λ is. omega arith), ((λ is. ground arith), tt));
  addresses = ((λ is. ground arith), ((λ is. omega arith), tt));
}

dhcp_server_process-total_example :
    (d' : Server) × (calls : List Call) × (dhcp_server_process lwip clock stack empty asks
      ≡ some (d', calls))
    × IsOrderly lwip calls
    × Keeps (take mac_len (drop at_chaddr msg)) clock empty.lease d'.lease
    × (d'.ip ≡ empty.ip)
    × (d'.nm ≡ empty.nm)
    × (d'.udp ≡ empty.udp)
dhcp_server_process-total_example =
    dhcp_server_process-total lwip clock stack empty asks refl refl asks-IsWellFormed

abbrev arrival : Arrival
arrival = record { env = lwip; now = clock; stack = stack; packet = asks }

abbrev granted_one : Server
granted_one = server_with (granted other_mac 4000 ∷ drop 1 empty_leases)

run-keeps_granted_example :
    (d' : Server) × (run granted_one (arrival ∷ []) ≡ some d')
    × (length d'.lease ≡ dhcps_max_ip)
    × (get_elem? d'.lease 0 ≡ some (granted other_mac 4000))
unfolding load_bytes
run-keeps_granted_example =
    run-keeps_granted (arrival ∷ []) granted_one other_mac 4000 0 refl refl (ground arith)
      (omega arith) (record { whole = refl; well = asks-IsWellFormed }, tt)
      (
        record {
          chaddr = mac;
          from = refl;
          other = ground arith;
          elapsed = λ i. 1000;
          within = λ i. omega arith;
          reads = λ i. refl;
        },
        tt,
      )

-- A DHCPREQUEST behind a pad.
abbrev padded : List ℕ
padded =
    replicate 28 0 ++ (mac ++ (replicate 206 0 ++ (0 ∷ 53 ∷ 1 ∷ 3 ∷ (replicate 51 7 ++ 255 ∷ []))))

pad_drops_example :
    dhcp_server_process lwip clock stack empty padded ≡ some (empty, pbuf_free request ∷ [])
pad_drops_example =
    pad_drops lwip clock stack empty padded 3 (replicate 51 7) (replicate 252 0) refl (omega arith)
      refl refl
