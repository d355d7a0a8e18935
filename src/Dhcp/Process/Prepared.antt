-- ===== src/Dhcp/Process/Prepared.antt =====
-- ap_website/dhcpserver/dhcpserver.c: the message that `dhcp_server_process` answers with, once it is
-- decided what to answer.
use pico_common.Common.{
  ℕ, ◌+◌, ◌≤◌, ◌<◌, ◌≡◌, ◌∙◌, List, [], ◌∷◌, true, false, some, arith, length, overwrite,
  length-overwrite, copy_partial, load_bytes, take, drop, get_elem?, if◌then◌else◌, ◌==◌, min, ltb,
  load_bytes-overwrite_after, drop-overwrite_after, get_elem?-overwrite_after, store_lem,
  overwrite_one, store_bytes-eq-overwrite, load_bytes-eq-take, le→ltb_false,
}
use pico_common.Net.{octets, Lwip, Call, Sent, sent, failed, pbuf_alloc, pbuf_free, reply, request}
use pico_common.Dhcp.Leases.{Lease, dhcps_max_ip, dhcps_base_ip}
use pico_common.Dhcp.Socket.{Server, dhcp_socket_sendto, ip4_of_u32, port_dhcp_client}
use pico_common.Dhcp.Process.{
  ignore, next, ◌>>=◌, access, answer_packet, answer_with, on_message, dhcp_server_process,
  msg_size, at_op, at_yiaddr, at_opt, dhcp_min_size,
}
use pico_common.Dhcp.Process.Answering.{broadcast_call}
use pico_common.Dhcp.Process.Layout.{reply_options, write_options-advance, answer_with_lem}

-- The message once its opcode and the network part of the address are in it.
abbrev pub prepared : Server → List ℕ → List ℕ
prepared d msg = overwrite (overwrite msg at_op (2 ∷ [])) at_yiaddr (octets d.ip)

abbrev pub reply_size : ℕ
reply_size = 274

-- The first 274 bytes of the message: the client's, but for the opcode, the address that is given
-- (the server's with the last byte `DHCPS_BASE_IP + yi`), and the options of the answer.
abbrev pub reply_message : Server → List ℕ → ℕ → ℕ → List ℕ
reply_message d msg yi kind = take reply_size (
    overwrite (overwrite (prepared d msg) (at_yiaddr + 3) ((dhcps_base_ip + yi) ∷ [])) at_opt
      (reply_options d kind))

-- The calls that send this answer and free both buffers.
abbrev pub answer_calls : Lwip → List ℕ → List Call
answer_calls env payload =
    pbuf_alloc reply_size ∷ broadcast_call env payload ∷ pbuf_free reply ∷ pbuf_free request ∷ []

pub length-prepared : (d : Server) (msg : List ℕ) → length (prepared d msg) ≡ length msg
length-prepared d msg = omega (
  arith,
  length-overwrite (overwrite msg at_op (2 ∷ [])) at_yiaddr (octets d.ip),
  length-overwrite msg at_op (2 ∷ []),
)

-- What stands behind the addresses is what the client sent.
pub load_bytes-prepared :
    (d : Server) (msg : List ℕ) (j n : ℕ)
    → 20 ≤ j
    → load_bytes (prepared d msg) j n ≡ load_bytes msg j n
load_bytes-prepared d msg j n h =
    load_bytes-overwrite_after _ at_yiaddr j n (octets d.ip) (omega arith)
    ∙ load_bytes-overwrite_after msg at_op j n (2 ∷ []) (omega arith)

pub get_elem?-prepared :
    (d : Server) (msg : List ℕ) (j : ℕ) → 20 ≤ j → get_elem? (prepared d msg) j ≡ get_elem? msg j
get_elem?-prepared d msg j h =
    get_elem?-overwrite_after _ at_yiaddr j (octets d.ip) (omega arith)
    ∙ get_elem?-overwrite_after msg at_op j (2 ∷ []) (omega arith)

pub drop-prepared : (d : Server) (msg : List ℕ) → drop at_opt (prepared d msg) ≡ drop at_opt msg
drop-prepared d msg =
    drop-overwrite_after (overwrite msg at_op (2 ∷ [])) at_yiaddr at_opt (octets d.ip) (omega arith)
    ∙ drop-overwrite_after msg at_op at_opt (2 ∷ []) (omega arith)

-- Sending the first bytes of a message that has them.
pub sendto_lem :
    (env : Lwip) (buf : List ℕ)
    → reply_size ≤ length buf
    → env.alloc_ok reply_size ≡ true
    → dhcp_socket_sendto env env.input_netif buf reply_size 0xffff_ffff port_dhcp_client
      ≡ some (
        if env.send_err == 0 then sent reply_size else failed env.send_err,
        pbuf_alloc reply_size ∷ broadcast_call env (take reply_size buf) ∷ pbuf_free reply ∷ [],
      )
unfolding dhcp_socket_sendto ip4_of_u32
sendto_lem env buf fits room =
    rw (room, load_bytes-eq-take buf 0 reply_size (omega arith), ◌>>=◌) (ground arith)

-- A message that the handler drops.
pub answer_packet_drops :
    (env : Lwip) (now : ℕ → ℕ) (d : Server) (msg : List ℕ) (ls : List Lease)
    → length msg ≡ msg_size
    → on_message now d (prepared d msg) ≡ ignore ls
    → answer_packet env now d msg ≡ ignore ls
unfolding answer_packet
answer_packet_drops env now d msg ls whole handled = rw (
  store_lem msg at_op 2 (omega arith),
  access,
  overwrite_one msg at_op 2,
  store_bytes-eq-overwrite (overwrite msg at_op (2 ∷ [])) at_yiaddr (octets d.ip)
      (omega (arith, length-overwrite msg at_op (2 ∷ []))),
  handled,
)

module _ (env : Lwip) (now : ℕ → ℕ) (d : Server) (msg : List ℕ) (yi kind : ℕ) (ls : List Lease)
    (whole : length msg ≡ msg_size) (small : yi < dhcps_max_ip)
    (handled : on_message now d (prepared d msg) ≡ answer_with (prepared d msg) yi kind ls) where
  -- The message with the address that is given.
  abbrev addressed : List ℕ
  addressed = overwrite (prepared d msg) (at_yiaddr + 3) ((dhcps_base_ip + yi) ∷ [])

  length-addressed : length addressed ≡ msg_size
  length-addressed = omega (
    arith,
    length-overwrite (prepared d msg) (at_yiaddr + 3) ((dhcps_base_ip + yi) ∷ []),
    length-prepared d msg,
  )

  -- The answer ends with what sending it comes to.
  pub answer_packet_sends :
      (r : Sent × List Call)
      → dhcp_socket_sendto env env.input_netif
          (overwrite addressed at_opt (reply_options d kind))
          reply_size
          0xffff_ffff
          port_dhcp_client
        ≡ some r
      → answer_packet env now d msg ≡ next (ls, r.1)
  unfolding answer_packet
  answer_packet_sends r sends = rw (
    store_lem msg at_op 2 (omega arith),
    access,
    overwrite_one msg at_op 2,
    store_bytes-eq-overwrite (overwrite msg at_op (2 ∷ [])) at_yiaddr (octets d.ip)
        (omega (arith, length-overwrite msg at_op (2 ∷ []))),
    handled,
    answer_with_lem (prepared d msg) yi kind ls (omega (arith, length-prepared d msg)) small,
    write_options-advance d (record { msg = addressed; opt = at_opt }) (53 ∷ 1 ∷ kind ∷ [])
        (omega (arith, length-addressed)),
    sends,
  )

  pub long_enough : reply_size ≤ length (overwrite addressed at_opt (reply_options d kind))
  long_enough =
      omega (arith, length-addressed, length-overwrite addressed at_opt (reply_options d kind))

  -- The whole answer, once the handler of the message has chosen the address and the type.
  pub answer_packet_lem :
      env.alloc_ok reply_size ≡ true
      → answer_packet env now d msg
        ≡ next (
          ls,
          pbuf_alloc reply_size
              ∷ broadcast_call env (reply_message d msg yi kind)
              ∷ pbuf_free reply
              ∷ [],
        )
  answer_packet_lem room =
      answer_packet_sends _
        (sendto_lem env (overwrite addressed at_opt (reply_options d kind)) long_enough room)

-- On a packet of full size, an answer that the handler gives is sent, and the table is kept.
pub process_answers :
    (env : Lwip) (now : ℕ → ℕ) (stack : List ℕ) (d : Server) (p : List ℕ) (yi kind : ℕ)
    (ls : List Lease)
    → let msg = copy_partial p msg_size stack in
      length stack ≡ msg_size
      → dhcp_min_size ≤ length p
      → yi < dhcps_max_ip
      → env.alloc_ok reply_size ≡ true
      → on_message now d (prepared d msg) ≡ answer_with (prepared d msg) yi kind ls
      → dhcp_server_process env now stack d p
        ≡ some (record d { lease = ls }, answer_calls env (reply_message d msg yi kind))
unfolding dhcp_server_process
process_answers env now stack d p yi kind ls whole long small room handled = rw (
  short₁,
  short₂,
  answer_packet_lem env now d (copy_partial p msg_size stack) yi kind ls
      (omega (arith, length-overwrite stack 0 (take msg_size p))) small handled room,
)
  where
    short₁ : ltb (length p) dhcp_min_size ≡ false
    short₁ = le→ltb_false _ _ long

    short₂ : ltb (min (length p) msg_size) dhcp_min_size ≡ false
    short₂ = le→ltb_false _ _ (omega arith)
