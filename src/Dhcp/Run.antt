-- ===== src/Dhcp/Run.antt =====
-- ap_website/dhcpserver/dhcpserver.c: the server over a sequence of packets, from its start on.
pub mod Total
use pico_common.Common.{
  ℕ, ◌≤◌, ◌<◌, ◌≡◌, ◌≢◌, List, [], ◌∷◌, Option, none, some, arith, ◌>>=◌, length, get_elem?,
  load_bytes, copy_partial, bytes_eq_ne, Option-cases, inl, inr, false, ◌^◌,
}
use pico_common.Net.{Lwip, Call}
use pico_common.Dhcp.Leases.{Lease, no_mac, dhcps_max_ip, mac_len, expiry_at}
use pico_common.Dhcp.Leases.Choosing.{is_available}
use pico_common.Dhcp.Leases.Expiry.{lease_ms, clock_after, has_expired-within}
use pico_common.Dhcp.Socket.{Server}
use pico_common.Dhcp.Process.{dhcp_server_process, msg_size, at_chaddr}
use pico_common.Dhcp.Process.Safety.{dhcp_server_process-Keeps}

-- One packet, with what the clock reads while it is handled, what the network answers, and what the
-- stack holds.
pub record Arrival : Type 0 where
  pub env : Lwip
  pub now : ℕ → ℕ
  pub stack : List ℕ
  pub packet : List ℕ

unfoldable pub handle : Server → Arrival → Option (Server × List Call)
handle d a = dhcp_server_process a.env a.now a.stack d a.packet

-- The server after all of them, if no access leaves its array.
unfoldable pub run : Server → List Arrival → Option Server
unfolding handle
run d [] = some d
run d (a ∷ rest) = handle d a >>= λ (d', _). run d' rest

-- The packet is from another client, and is handled within a day of `start`.
pub record IsForeign (mac : List ℕ) (start : ℕ) (a : Arrival) : Type 0 where
  pub chaddr : List ℕ
  pub from : load_bytes (copy_partial a.packet msg_size a.stack) at_chaddr mac_len ≡ some chaddr
  pub other : mac ≢ chaddr
  pub elapsed : ℕ → ℕ
  pub within : (i : ℕ) → elapsed i ≤ lease_ms
  pub reads : (i : ℕ) → a.now i ≡ clock_after start (elapsed i)

abbrev pub AllForeign : List ℕ → ℕ → List Arrival → Type 0
AllForeign mac start [] = Unit {0}
AllForeign mac start (a ∷ rest) = IsForeign mac start a × AllForeign mac start rest

-- A lease that was granted at `start`.
abbrev pub granted : List ℕ → ℕ → Lease
granted mac start = record { mac = mac; expiry = expiry_at start }

granted-live :
    (mac : List ℕ) (start elapsed clock : ℕ)
    → mac ≢ no_mac
    → start < 2 ^ 32
    → elapsed ≤ lease_ms
    → clock ≡ clock_after start elapsed
    → is_available (granted mac start) clock ≡ false
granted-live mac start elapsed clock used small soon e =
    rw (bytes_eq_ne mac no_mac used, e) (has_expired-within mac start elapsed small soon)

-- A lease that a client was granted when the clock read `start` is still there, unchanged, after
-- any number of packets of other clients that arrive within a day, also where the clock wraps.
pub run-lease_lasts :
    (arrivals : List Arrival) (d d' : Server) (mac : List ℕ) (start j : ℕ)
    → length d.lease ≤ dhcps_max_ip
    → get_elem? d.lease j ≡ some (granted mac start)
    → mac ≢ no_mac
    → start < 2 ^ 32
    → AllForeign mac start arrivals
    → run d arrivals ≡ some d'
    → get_elem? d'.lease j ≡ some (granted mac start)
unfolding run
run-lease_lasts [] d d' mac start j short held used small foreign e = ground arith
run-lease_lasts (a ∷ rest) d d' mac start j short held used small foreign e =
    elim (Option-cases (dhcp_server_process a.env a.now a.stack d a.packet)) [
      | inl stuck ↦ let bad : none ≡ some d' = rw (stuck, ◌>>=◌) at e in cc
      | inr ((d₁, calls), went) ↦
          let e' : run d₁ rest ≡ some d' = rw (went, ◌>>=◌) at e in
          let f = foreign.0 in
          let kept =
            dhcp_server_process-Keeps a.env a.now a.stack d d₁ a.packet f.chaddr calls short f.from
              went in
          run-lease_lasts rest d₁ d' mac start j (omega (arith, kept.0.0))
            (kept.0.1 j (granted mac start) held f.other
              (granted-live mac start (f.elapsed j) (a.now j) used small (f.within j) (f.reads j)))
            used small foreign.1 e'
    ]
