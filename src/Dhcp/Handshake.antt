-- ===== src/Dhcp/Handshake.antt =====
-- ap_website/dhcpserver/dhcpserver.c: the packets of a client that discovers the server and then requests
-- the address it was offered, and of two clients that do so at the same time.
pub mod Race
use pico_common.Common.{
  ◌^◌, false, ℕ, suc, ◌+◌, ◌≤◌, ◌<◌, ◌≡◌, refl, sym, ap, ◌∙◌, ◌⊎◌, inl, inr, List, [], ◌∷◌, true,
  none, some, arith, length, get_elem?, get_elem?_bound, set, drop, copy_partial, load_bytes,
  get_elem?-set_self, Option-cases,
}
use pico_common.Net.{Ip4, Lwip, Call}
use pico_common.Dhcp.Options.{found, opt_find}
use pico_common.Dhcp.Leases.{
  Lease, no_mac, dhcps_max_ip, dhcps_base_ip, mac_len, discover_loop, has_expired,
}
use pico_common.Dhcp.Leases.Expiry.{clock_after, has_expired-within, has_expired-after}
use pico_common.Dhcp.Leases.Choosing.{
  first_held, first_available, clear_available, choice, discover_loop_lem,
}
use pico_common.Dhcp.Leases.Offering.{choice-offers}
use pico_common.Dhcp.Socket.{Server}
use pico_common.Dhcp.Process.{dhcp_server_process, msg_size, at_chaddr, at_opt, dhcp_min_size}
use pico_common.Dhcp.Process.Prepared.{answer_calls, reply_message, reply_size}
use pico_common.Dhcp.Process.Replies.{discover_offers, request_acks}
use pico_common.Dhcp.Run.{Arrival, handle, granted}

-- What `dhcp_msg` holds after the packet was copied into it.
abbrev pub message : Arrival → List ℕ
message a = copy_partial a.packet msg_size a.stack

-- A packet of full size from the client `chaddr`, with the message type `kind`, while the answer's buffer
-- is granted.
pub record IsFrom (a : Arrival) (chaddr : List ℕ) (kind : ℕ) : Type 0 where
  pub whole : length a.stack ≡ msg_size
  pub long : dhcp_min_size ≤ length a.packet
  pub room : a.env.alloc_ok reply_size ≡ true
  pub place : ℕ
  pub type_at : opt_find (drop at_opt (message a)) 53 ≡ found place
  pub is_kind : get_elem? (message a) (at_opt + place + 2) ≡ some kind
  pub from : load_bytes (message a) at_chaddr mac_len ≡ some chaddr

-- The packet asks for the address of lease `yi` in the network of `ip`.
pub record Asks (a : Arrival) (ip : Ip4) (yi : ℕ) : Type 0 where
  pub place : ℕ
  pub asks : opt_find (drop at_opt (message a)) 50 ≡ found place
  pub net : load_bytes (message a) (at_opt + place + 2) 3 ≡ some (ip.a ∷ ip.b ∷ ip.c ∷ [])
  pub last : get_elem? (message a) (at_opt + place + 5) ≡ some (dhcps_base_ip + yi)

-- The server after DHCPDISCOVER.
abbrev pub offered : Server → Arrival → List ℕ → Server
offered d a chaddr = record d { lease = clear_available chaddr a.now 0 d.lease }

-- The server after DHCPREQUEST.
abbrev pub acked : Server → Arrival → List ℕ → ℕ → Server
acked d a chaddr yi = record d { lease = set d.lease yi (granted chaddr (a.now 0)) }

-- The calls that send a message of type `kind` with the address of lease `yi`.
abbrev pub sends : Server → Arrival → ℕ → ℕ → List Call
sends d a yi kind = answer_calls a.env (reply_message d (message a) yi kind)

pub handle-discover :
    (d : Server) (a : Arrival) (chaddr : List ℕ)
    → length d.lease ≤ dhcps_max_ip
    → IsFrom a chaddr 1
    → choice chaddr a.now 0 d.lease < dhcps_max_ip
    → handle d a ≡ some (offered d a chaddr, sends d a (choice chaddr a.now 0 d.lease) 2)
unfolding handle
handle-discover d a chaddr table from left =
    discover_offers a.env a.now a.stack d a.packet chaddr from.place from.whole from.long table
      from.room from.type_at from.is_kind from.from left

pub handle-request :
    (d : Server) (a : Arrival) (chaddr : List ℕ) (yi : ℕ) (l : Lease)
    → IsFrom a chaddr 3
    → Asks a d.ip yi
    → yi < dhcps_max_ip
    → get_elem? d.lease yi ≡ some l
    → (l.mac ≡ chaddr) ⊎ (l.mac ≡ no_mac)
    → handle d a ≡ some (acked d a chaddr yi, sends d a yi 5)
unfolding handle
handle-request d a chaddr yi l from asks small here free =
    request_acks a.env a.now a.stack d a.packet chaddr from.place asks.place yi l from.whole
      from.long from.room from.type_at from.is_kind asks.asks asks.net asks.last from.from small
      here free

-- The lease that was offered is the client's or nobody's in the table that is left.
offered-free :
    (chaddr : List ℕ) (now : ℕ → ℕ) (ls : List Lease)
    → choice chaddr now 0 ls < dhcps_max_ip
    → (l : Lease) × (get_elem? (clear_available chaddr now 0 ls) (choice chaddr now 0 ls) ≡ some l)
      × ((l.mac ≡ chaddr) ⊎ (l.mac ≡ no_mac))
offered-free chaddr now ls left = elim (choice-offers chaddr now ls) [
  | inl here ↦ here
  | inr (full, unheld, taken) ↦ absurd (omega (arith, left, full))
]

-- A client that sends a DHCPDISCOVER while a lease of the at most `DHCPS_MAX_IP` is its own or available, and
-- then a DHCPREQUEST for the address of the lease that the server chose, is first sent a DHCPOFFER and then a
-- DHCPACK of this same address, and the lease it names is then the client's: it has not expired at any time
-- within the 86,400,000 milliseconds of a day after the request, and has from 65,536 milliseconds after that day on,
-- up to 2 ^ 31 milliseconds after it. Both packets have at least 243 bytes, and the buffers of both answers are
-- granted.
pub handshake :
    (d : Server) (discover request : Arrival) (chaddr : List ℕ) (yi within overdue : ℕ)
    → length d.lease ≤ dhcps_max_ip
    → request.now 0 < 2 ^ 32
    → within ≤ 86_400_000
    → 86_400_000 + 2 ^ 16 ≤ overdue
    → overdue ≤ 86_400_000 + 2 ^ 31
    → yi ≡ choice chaddr discover.now 0 d.lease
    → yi < dhcps_max_ip
    → IsFrom discover chaddr 1
    → IsFrom request chaddr 3
    → Asks request d.ip yi
    → let d₁ = offered d discover chaddr in
      let d₂ = acked d₁ request chaddr yi in
      (handle d discover ≡ some (d₁, sends d discover yi 2))
      × (handle d₁ request ≡ some (d₂, sends d₁ request yi 5))
      × (l : Lease) × (get_elem? d₂.lease yi ≡ some l)
      × (l.mac ≡ chaddr)
      × (has_expired l (clock_after (request.now 0) within) ≡ false)
      × (has_expired l (clock_after (request.now 0) overdue) ≡ true)
handshake d discover request chaddr yi within overdue table clock soon late limit chosen small first
      second asks =
    let d₁ = offered d discover chaddr in
    let left : choice chaddr discover.now 0 d.lease < dhcps_max_ip = omega (arith, chosen, small) in
    let (l, here, free) = offered-free chaddr discover.now d.lease left in
    let at_yi : get_elem? d₁.lease yi ≡ some l = ap (get_elem? d₁.lease) chosen ∙ here in
    (
      handle-discover d discover chaddr table first left
          ∙ ap (λ k. some (d₁, sends d discover k 2)) (sym chosen),
      handle-request d₁ request chaddr yi l second asks small at_yi free,
      granted chaddr (request.now 0),
      get_elem?-set_self d₁.lease yi (granted chaddr (request.now 0))
          (get_elem?_bound d₁.lease yi l at_yi),
      refl,
      has_expired-within chaddr (request.now 0) within clock soon,
      has_expired-after chaddr (request.now 0) overdue clock late limit,
    )
