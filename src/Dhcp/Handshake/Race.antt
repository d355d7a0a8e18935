-- ===== src/Dhcp/Handshake/Race.antt =====
-- ap_website/dhcpserver/dhcpserver.c: two new clients whose packets interleave.
use pico_common.Common.{
  ℕ, ◌+◌, ◌≤◌, ◌<◌, ◌≡◌, ◌≢◌, refl, sym, ap, ◌∙◌, inr, List, [], ◌∷◌, none, some, arith, length,
  get_elem?, get_elem?_bound, get_elem?-set_self, bytes_eq_ne, bytes_eq_refl,
}
use pico_common.Net.{pbuf_free, request}
use pico_common.Dhcp.Leases.{Lease, no_mac, dhcps_max_ip}
use pico_common.Dhcp.Leases.Choosing.{first_held, first_available, clear_available, choice}
use pico_common.Dhcp.Leases.Keeping.{length-clear_available}
use pico_common.Dhcp.Leases.Offering.{free-clear_available}
use pico_common.Dhcp.Socket.{Server}
use pico_common.Dhcp.Process.Refusals.{request_refused}
use pico_common.Dhcp.Run.{Arrival, handle, granted}
use pico_common.Dhcp.Handshake.{
  IsFrom, Asks, offered, acked, sends, handle-discover, handle-request,
}

-- Clearing an available lease gives it to no client.
first_held-clear_available :
    (other chaddr : List ℕ) (now : ℕ → ℕ) (i : ℕ) (ls : List Lease)
    → other ≢ no_mac
    → first_held other i ls ≡ none
    → first_held other i (clear_available chaddr now i ls) ≡ none
unfolding first_held clear_available
first_held-clear_available other chaddr now i [] used e = refl
first_held-clear_available other chaddr now i (l ∷ ls) used e =
    ground (arith, first_held-clear_available other chaddr now (i + 1) ls, bytes_eq_ne no_mac other)

-- The first available lease is still the first one when it was cleared, if by the later clock none before
-- it has become available.
first_available-clear_available :
    (chaddr : List ℕ) (now later : ℕ → ℕ) (i k : ℕ) (ls : List Lease)
    → first_held chaddr i ls ≡ none
    → first_available now i ls ≡ some k
    → first_available later i ls ≡ some k
    → first_available later i (clear_available chaddr now i ls) ≡ some k
unfolding first_held first_available clear_available
first_available-clear_available chaddr now later i k [] h f g = g
first_available-clear_available chaddr now later i k (l ∷ ls) h f g =
    ground
      (arith, first_available-clear_available chaddr now later (i + 1) k ls, bytes_eq_refl no_mac)

-- What the server does with a DHCPDISCOVER of a client that has no lease, where `k` is the first available
-- one.
pub new_client :
    (d : Server) (a : Arrival) (chaddr : List ℕ) (k : ℕ)
    → length d.lease ≤ dhcps_max_ip
    → IsFrom a chaddr 1
    → first_held chaddr 0 d.lease ≡ none
    → first_available a.now 0 d.lease ≡ some k
    → (handle d a ≡ some (offered d a chaddr, sends d a k 2))
      × ((l : Lease) × (get_elem? (offered d a chaddr).lease k ≡ some l) × (l.mac ≡ no_mac))
      × (k < dhcps_max_ip)
new_client d a chaddr k table from unheld free =
    let (j, l, at, here, unused) = free-clear_available chaddr a.now 0 d.lease k unheld free in
    let same : j ≡ k = omega arith in
    let at_k : get_elem? (offered d a chaddr).lease k ≡ some l =
      ap (get_elem? (offered d a chaddr).lease) (sym same) ∙ here in
    let small : k < dhcps_max_ip = omega (
      arith,
      get_elem?_bound (offered d a chaddr).lease k l at_k,
      length-clear_available chaddr a.now 0 d.lease,
    ) in
    let chosen : choice chaddr a.now 0 d.lease ≡ k = rw (unheld, free) refl in
    (
      handle-discover d a chaddr table from (omega (arith, chosen, small))
          ∙ ap (λ i. some (offered d a chaddr, sends d a i 2)) chosen,
      (l, at_k, unused),
      small,
    )

-- Two clients without a lease, neither with the address of zeros, that both send a DHCPDISCOVER before either sends
-- its DHCPREQUEST, where the same lease is the first available one by the clock at both, are offered the same
-- address. The first to request it gets it; the other's request for it is dropped without an answer, and changes
-- nothing. All four packets have at least 243 bytes, and the answers' buffers are granted.
pub race :
    (d : Server) (discover₁ discover₂ request₁ request₂ : Arrival) (one two : List ℕ) (k : ℕ)
    → length d.lease ≤ dhcps_max_ip
    → one ≢ two
    → one ≢ no_mac
    → two ≢ no_mac
    → first_held one 0 d.lease ≡ none
    → first_held two 0 d.lease ≡ none
    → first_available discover₁.now 0 d.lease ≡ some k
    → first_available discover₂.now 0 d.lease ≡ some k
    → IsFrom discover₁ one 1
    → IsFrom discover₂ two 1
    → IsFrom request₁ one 3
    → Asks request₁ d.ip k
    → IsFrom request₂ two 3
    → Asks request₂ d.ip k
    → let d₁ = offered d discover₁ one in
      let d₂ = offered d₁ discover₂ two in
      let d₃ = acked d₂ request₁ one k in
      (handle d discover₁ ≡ some (d₁, sends d discover₁ k 2))
      × (handle d₁ discover₂ ≡ some (d₂, sends d₁ discover₂ k 2))
      × (handle d₂ request₁ ≡ some (d₃, sends d₂ request₁ k 5))
      × (handle d₃ request₂ ≡ some (d₃, pbuf_free request ∷ []))
race d discover₁ discover₂ request₁ request₂ one two k table differ used₁ used₂ new₁ new₂ free₁
      free₂ from₁ from₂ asks₁ names₁ asks₂ names₂ =
    let d₁ = offered d discover₁ one in
    let d₂ = offered d₁ discover₂ two in
    let d₃ = acked d₂ request₁ one k in
    let step₁ = new_client d discover₁ one k table from₁ new₁ free₁ in
    let step₂ =
      new_client d₁ discover₂ two k
        (omega (arith, table, length-clear_available one discover₁.now 0 d.lease)) from₂
        (first_held-clear_available two one discover₁.now 0 d.lease used₂ new₂)
        (first_available-clear_available one discover₁.now discover₂.now 0 k d.lease new₁ free₁
          free₂) in
    let (l, at_k, unused) = step₂.1 in
    let mine =
      get_elem?-set_self d₂.lease k (granted one (request₁.now 0))
        (get_elem?_bound d₂.lease k l at_k) in
    (
      step₁.0,
      step₂.0,
      handle-request d₂ request₁ one k l asks₁ names₁ step₂.2 at_k (inr unused),
      unfold handle in
          request_refused request₂.env request₂.now request₂.stack d₃ request₂.packet two
            asks₂.place names₂.place k (granted one (request₁.now 0)) asks₂.whole asks₂.long
            asks₂.type_at asks₂.is_kind names₂.asks names₂.net names₂.last asks₂.from step₂.2 mine
            differ used₁,
    )
