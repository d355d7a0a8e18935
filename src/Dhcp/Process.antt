-- ===== src/Dhcp/Process.antt =====
-- ap_website/dhcpserver/dhcpserver.c: `dhcp_server_process`, the handler of one packet.
-- The packet is the list of its bytes. `stack` is what `dhcp_msg` holds before the packet is copied
-- into it: C leaves those bytes unset, so they are an argument.
pub mod Ends
pub mod Safety
pub mod Answering
pub mod Layout
pub mod Prepared
pub mod Replies
pub mod Refusals
pub mod Deciding
pub mod Total
pub mod Padding
use pico_common.Common.{
  ℕ, ◌+◌, ◌-◌, ◌%◌, ◌^◌, List, [], ◌∷◌, ◌++◌, Bool, true, false, Option, none, some, ltb, leb, ◌==◌,
  if◌then◌else◌, bytes_eq, get_elem?, set, store, store_bytes, load_bytes, copy_partial, drop,
  length, min,
}
use pico_common.Net.{octets, Lwip, Call, pbuf_free, request}
use pico_common.Dhcp.Options.{
  Find, found, absent, over_read, out_of_fuel, opt_find, Cursor, opt_write_n, opt_write_u8,
  opt_write_u32, dhcp_opt_end,
}
use pico_common.Dhcp.Leases.{
  Lease, no_mac, dhcps_base_ip, dhcps_max_ip, mac_len, default_lease_time_s, expiry_at,
  discover_loop,
}
use pico_common.Dhcp.Socket.{Server, dhcp_socket_sendto, port_dhcp_client}

abbrev pub msg_size : ℕ
msg_size = 548

abbrev pub dhcp_min_size : ℕ
dhcp_min_size = 240 + 3

-- Offsets of the fields of `dhcp_msg_t`, and of `options` behind the magic cookie.
abbrev pub at_op : ℕ
at_op = 0

abbrev pub at_yiaddr : ℕ
at_yiaddr = 16

abbrev pub at_chaddr : ℕ
at_chaddr = 28

abbrev pub at_opt : ℕ
at_opt = 240

-- Where the handler stands: an access outside an array, `goto ignore_request` with the table as it
-- is then, or on to the next statement.
pub data Flow {ℓ} (A : Type ℓ) : Type ℓ where
  fault : Flow A
  ignore : List Lease → Flow A
  next : A → Flow A

infixl 5 ◌>>=◌
abbrev pub ◌>>=◌ {ℓ κ} : {A : Type ℓ} {B : Type κ} → Flow A → (A → Flow B) → Flow B
fault >>= f = fault
ignore ls >>= f = ignore ls
next a >>= f = f a

-- An access to memory.
abbrev pub access {ℓ} : {A : Type ℓ} → Option A → Flow A
access none = fault
access (some a) = next a

-- The message with its first option written, and the table.
pub record Answer : Type 0 where
  pub cursor : Cursor
  pub leases : List Lease

-- `dhcp_msg.yiaddr[3] = DHCPS_BASE_IP + yi` and the message type.
unfoldable pub answer_with : List ℕ → ℕ → ℕ → List Lease → Flow Answer
answer_with msg yi kind ls = do
  m ← access (store msg (at_yiaddr + 3) ((dhcps_base_ip + yi) % 2 ^ 8))
  c ← access (opt_write_u8 (record { msg = m; opt = at_opt }) 53 kind)
  next (record { cursor = c; leases = ls })

unfoldable pub on_discover : (ℕ → ℕ) → Server → List ℕ → Flow Answer
unfolding answer_with
on_discover now d msg = do
  chaddr ← access (load_bytes msg at_chaddr mac_len)
  let (ls, yi) = discover_loop chaddr now 0 dhcps_max_ip d.lease
  if yi == dhcps_max_ip then ignore ls else answer_with msg yi 2 ls

-- The lease of a granted request: the client's address if it is the client's or unused.
unfoldable pub claim : Lease → List ℕ → Bool
claim l chaddr = if bytes_eq l.mac chaddr then true else bytes_eq l.mac no_mac

-- The address is lease `yi`'s: a client that may claim it gets it, with a new expiry.
unfoldable pub grant : (ℕ → ℕ) → Server → List ℕ → List ℕ → ℕ → Lease → Flow Answer
unfolding answer_with claim
grant now d msg chaddr yi l =
    if claim l chaddr
    then answer_with msg yi 5 (set d.lease yi (record { mac = chaddr; expiry = expiry_at (now 0) }))
    else ignore d.lease

unfoldable pub request_address : (ℕ → ℕ) → Server → List ℕ → ℕ → Flow Answer
unfolding grant
request_address now d msg yi =
    let granting = (do
      chaddr ← access (load_bytes msg at_chaddr mac_len)
      l ← access (get_elem? d.lease yi)
      grant now d msg chaddr yi l) in
    if leb dhcps_max_ip yi then ignore d.lease else granting

-- `o` is where the option of the requested address stands.
unfoldable pub on_request_at : (ℕ → ℕ) → Server → List ℕ → ℕ → Flow Answer
unfolding request_address
on_request_at now d msg o = do
  net ← access (load_bytes msg (at_opt + o + 2) 3)
  let asked = access (get_elem? msg (at_opt + o + 5)) >>= λ last.
      request_address now d msg ((last + 2 ^ 8 - dhcps_base_ip) % 2 ^ 8)
  if bytes_eq net (d.ip.a ∷ d.ip.b ∷ d.ip.c ∷ []) then asked else ignore d.lease

-- What follows a call of `opt_find`: NULL is ignored.
abbrev pub at_option : List Lease → Find → (ℕ → Flow Answer) → Flow Answer
at_option ls (found o) k = k o
at_option ls absent k = ignore ls
at_option ls over_read k = fault
at_option ls out_of_fuel k = fault

unfoldable pub on_message : (ℕ → ℕ) → Server → List ℕ → Flow Answer
unfolding on_discover on_request_at
on_message now d msg =
    let opt = drop at_opt msg in
    at_option d.lease (opt_find opt 53) λ o. do
      kind ← access (get_elem? msg (at_opt + o + 2))
      let on_request = at_option d.lease (opt_find opt 50) (on_request_at now d msg)
      if kind == 1 then on_discover now d msg else if kind == 3 then on_request else ignore d.lease

-- The options that both answers share.
unfoldable pub write_options : Server → Cursor → Flow Cursor
write_options d c = do
  c ← access (opt_write_n c 54 4 (octets d.ip))
  c ← access (opt_write_n c 1 4 (octets d.nm))
  c ← access (opt_write_n c 3 4 (octets d.ip))
  c ← access (opt_write_n c 6 4 (octets d.ip))
  c ← access (opt_write_u32 c 51 default_lease_time_s)
  m ← access (store c.msg c.opt dhcp_opt_end)
  next (record { msg = m; opt = c.opt + 1 })

unfoldable pub answer_packet : Lwip → (ℕ → ℕ) → Server → List ℕ → Flow (List Lease × List Call)
unfolding on_message write_options
answer_packet env now d msg = do
  m ← access (store msg at_op 2)
  m ← access (store_bytes m at_yiaddr (octets d.ip))
  a ← on_message now d m
  c ← write_options d a.cursor
  (_, calls) ←
      access (dhcp_socket_sendto env env.input_netif c.msg c.opt 0xffff_ffff port_dhcp_client)
  next (a.leases, calls)

-- `ignore_request:` frees the packet on every path.
abbrev pub finish : Server → Flow (List Lease × List Call) → Option (Server × List Call)
finish d fault = none
finish d (ignore ls) = some (record d { lease = ls }, pbuf_free request ∷ [])
finish d (next (ls, calls)) = some (record d { lease = ls }, calls ++ pbuf_free request ∷ [])

unfoldable pub dhcp_server_process :
    Lwip → (ℕ → ℕ) → List ℕ → Server → List ℕ → Option (Server × List Call)
unfolding answer_packet
dhcp_server_process env now stack d p = finish d (
    if ltb (length p) dhcp_min_size
    then ignore d.lease
    else if ltb (min (length p) msg_size) dhcp_min_size
    then ignore d.lease
    else answer_packet env now d (copy_partial p msg_size stack))
