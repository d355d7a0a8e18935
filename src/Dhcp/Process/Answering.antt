-- ===== src/Dhcp/Process/Answering.antt =====
-- ap_website/dhcpserver/dhcpserver.c: the packet buffers that `dhcp_server_process` allocates, sends
-- and frees.
use pico_common.Common.{
  ℕ, ◌≡◌, refl, List, [], ◌∷◌, ◌++◌, Bool, true, false, Option, none, some, arith, ltb,
  if◌then◌else◌, Bool-cases, Option-cases, inl, inr, copy_partial, load_bytes, length, min, store,
  store_bytes,
}
use mathlib.Core.Path.{subst}
use pico_common.Net.{
  Ip4, Lwip, Call, Sent, pbuf_alloc, udp_sendto, udp_sendto_if, pbuf_free, request, reply, octets,
}
use pico_common.Dhcp.Leases.{Lease}
use pico_common.Dhcp.Socket.{Server, dhcp_socket_sendto, port_dhcp_client, ip4_of_u32}
use pico_common.Dhcp.Process.{
  Flow, fault, ignore, next, ◌>>=◌, access, on_message, write_options, answer_packet, finish,
  dhcp_server_process, msg_size, at_op, at_yiaddr, dhcp_min_size,
}

abbrev pub broadcast : Ip4
broadcast = record { a = 255; b = 255; c = 255; d = 255 }

-- The message goes to the input interface if there is one.
abbrev pub broadcast_call : Lwip → List ℕ → Call
broadcast_call env payload =
    if env.input_netif
    then udp_sendto_if payload broadcast port_dhcp_client
    else udp_sendto payload broadcast port_dhcp_client

-- The calls that handling a packet may make: none but the free of the packet; an allocation that
-- fails; or an answer to everybody's client port, in a buffer that is freed.
pub data IsOrderly (env : Lwip) : List Call → Type 0 where
  dropped : IsOrderly env (pbuf_free request ∷ [])
  no_buffer :
      (n : ℕ) → env.alloc_ok n ≡ false → IsOrderly env (pbuf_alloc n ∷ pbuf_free request ∷ [])
  answered :
      (n : ℕ) (payload : List ℕ)
      → env.alloc_ok n ≡ true
      → IsOrderly env
          (pbuf_alloc n ∷ broadcast_call env payload ∷ pbuf_free reply ∷ pbuf_free request ∷ [])

-- What `dhcp_socket_sendto` does with its buffer, the packet being freed behind it.
sendto-IsOrderly :
    (env : Lwip) (buf : List ℕ) (size : ℕ) (r : Sent) (calls : List Call)
    → dhcp_socket_sendto env env.input_netif buf size 0xffff_ffff port_dhcp_client ≡ some (r, calls)
    → IsOrderly env (calls ++ pbuf_free request ∷ [])
unfolding dhcp_socket_sendto ip4_of_u32
sendto-IsOrderly env buf size r calls e = elim (Bool-cases (env.alloc_ok len)) [
  | inr full ↦
      let same : pbuf_alloc len ∷ [] ≡ calls = ground arith in
      subst (λ cs. IsOrderly env (cs ++ pbuf_free request ∷ [])) same (no_buffer len full)
  | inl room ↦ elim (Option-cases (load_bytes buf 0 len)) [
    | inl out ↦ absurd (ground arith)
    | inr (payload, loaded) ↦
        let same : pbuf_alloc len ∷ broadcast_call env payload ∷ pbuf_free reply ∷ [] ≡ calls =
          ground arith in
        subst (λ cs. IsOrderly env (cs ++ pbuf_free request ∷ [])) same (answered len payload room)
  ]
]
  where
    len : ℕ
    len = if ltb 0xffff size then 0xffff else size

-- Of the calls that a flow ends with.
abbrev Orderly : Lwip → Flow (List Lease × List Call) → Type 0
Orderly env fault = Unit {0}
Orderly env (ignore ls) = Unit {0}
Orderly env (next (ls, calls)) = IsOrderly env (calls ++ pbuf_free request ∷ [])

Orderly-bind {ℓ} :
    {A : Type ℓ} (env : Lwip) (m : Flow A) (f : A → Flow (List Lease × List Call))
    → ((a : A) → Orderly env (f a))
    → Orderly env (m >>= f)
Orderly-bind env fault f h = tt
Orderly-bind env (ignore ls) f h = tt
Orderly-bind env (next a) f h = h a

Orderly-send :
    (env : Lwip) (ls : List Lease) (o : Option (Sent × List Call))
    → ((r : Sent) (calls : List Call)
        → o ≡ some (r, calls)
        → IsOrderly env (calls ++ pbuf_free request ∷ []))
    → Orderly env (access o >>= λ (_, calls). next (ls, calls))
Orderly-send env ls none h = tt
Orderly-send env ls (some (r, calls)) h = h r calls refl

answer_packet-Orderly :
    (env : Lwip) (now : ℕ → ℕ) (d : Server) (msg : List ℕ)
    → Orderly env (answer_packet env now d msg)
unfolding answer_packet
answer_packet-Orderly env now d msg = Orderly-bind env (access (store msg at_op 2)) _ λ m.
    Orderly-bind env (access (store_bytes m at_yiaddr (octets d.ip))) _ λ m'.
      Orderly-bind env (on_message now d m') _ λ a.
        Orderly-bind env (write_options d a.cursor) _ λ c.
          Orderly-send env a.leases
            (dhcp_socket_sendto env env.input_netif c.msg c.opt 0xffff_ffff port_dhcp_client)
            (sendto-IsOrderly env c.msg c.opt)

finish-IsOrderly :
    (env : Lwip) (d d' : Server) (calls : List Call) (f : Flow (List Lease × List Call))
    → Orderly env f
    → finish d f ≡ some (d', calls)
    → IsOrderly env calls
finish-IsOrderly env d d' calls fault o e = absurd (ground arith)
finish-IsOrderly env d d' calls (ignore ls) o e =
    let same : pbuf_free request ∷ [] ≡ calls = ground arith in subst (IsOrderly env) same dropped
finish-IsOrderly env d d' calls (next (ls, cs)) o e =
    let same : cs ++ pbuf_free request ∷ [] ≡ calls = ground arith in subst (IsOrderly env) same o

-- Whatever the packet: if handling it ends, the packet is freed once, as the last call; there is at
-- most one answer, broadcast to the client port, and its buffer is freed if it was allocated.
pub dhcp_server_process-IsOrderly :
    (env : Lwip) (now : ℕ → ℕ) (stack : List ℕ) (d d' : Server) (p : List ℕ) (calls : List Call)
    → dhcp_server_process env now stack d p ≡ some (d', calls)
    → IsOrderly env calls
unfolding dhcp_server_process
dhcp_server_process-IsOrderly env now stack d d' p calls e =
    finish-IsOrderly env d d' calls _
      (branches (ltb (length p) dhcp_min_size) (ltb (min (length p) msg_size) dhcp_min_size)) e
  where
    full : Flow (List Lease × List Call)
    full = answer_packet env now d (copy_partial p msg_size stack)

    branches :
        (b c : Bool)
        → Orderly env (if b then ignore d.lease else if c then ignore d.lease else full)
    branches true c = tt
    branches false true = tt
    branches false false = answer_packet-Orderly env now d (copy_partial p msg_size stack)
