-- ===== src/Dhcp/Process/Total.antt =====
-- ap_website/dhcpserver/dhcpserver.c: the handling of packets with well-formed options.
use pico_common.Common.{
  ℕ, ◌≤◌, ◌≡◌, refl, inl, inr, List, [], ◌∷◌, ◌++◌, Bool, true, false, some, arith, length, take,
  drop, copy_partial, length-overwrite, Bool-cases, ltb, min, if◌then◌else◌,
}
use pico_common.Net.{Lwip, Call, Sent, no_mem, pbuf_alloc, pbuf_free, request}
use pico_common.Dhcp.Options.WellFormed.{IsWellFormed, IsWellFormed-Reads}
use pico_common.Dhcp.Leases.{Lease, dhcps_max_ip, mac_len}
use pico_common.Dhcp.Socket.{Server, dhcp_socket_sendto, port_dhcp_client}
use pico_common.Dhcp.Process.{
  Flow, ignore, next, Answer, on_message, answer_packet, finish, dhcp_server_process, msg_size,
  at_chaddr, at_opt, dhcp_min_size,
}
use pico_common.Dhcp.Process.Safety.{Keeps, dhcp_server_process-Keeps}
use pico_common.Dhcp.Process.Answering.{IsOrderly, dhcp_server_process-IsOrderly}
use pico_common.Dhcp.Process.Prepared.{
  answer_packet_drops, prepared, length-prepared, drop-prepared, reply_size, sendto_lem,
  answer_packet_sends, long_enough,
}
use pico_common.Dhcp.Process.Deciding.{load_some, Decides, drops, answers, on_message-Decides}

sendto-total :
    (env : Lwip) (buf : List ℕ)
    → reply_size ≤ length buf
    → (r : Sent × List Call) × (dhcp_socket_sendto env env.input_netif buf reply_size 0xffff_ffff
          port_dhcp_client
        ≡ some r)
unfolding dhcp_socket_sendto
sendto-total env buf fits = elim (Bool-cases (env.alloc_ok reply_size)) [
  | inl room ↦ (_, sendto_lem env buf fits room)
  | inr full ↦ ((no_mem, pbuf_alloc reply_size ∷ []), rw full refl)
]

-- A handler that ends, and the table that it leaves.
data Finishes : Flow (List Lease × List Call) → Type 0 where
  ignored : (ls : List Lease) → Finishes (ignore ls)
  sends : (ls : List Lease) (calls : List Call) → Finishes (next (ls, calls))

answer_packet-Finishes :
    (env : Lwip) (now : ℕ → ℕ) (d : Server) (msg : List ℕ) (r : Flow Answer)
    → length msg ≡ msg_size
    → on_message now d (prepared d msg) ≡ r
    → Decides (prepared d msg) r
    → Finishes (answer_packet env now d msg)
answer_packet-Finishes env now d msg r whole handled (drops ls) =
    rw (answer_packet_drops env now d msg ls whole handled) (ignored ls)
answer_packet-Finishes env now d msg r whole handled (answers yi kind ls small) =
    let (s, done) = sendto-total env _ (long_enough env now d msg yi kind ls whole small handled) in
    rw (answer_packet_sends env now d msg yi kind ls whole small handled s done) (sends ls s.1)

finish-Finishes :
    (d : Server) (f : Flow (List Lease × List Call))
    → Finishes f
    → (r : Server × List Call) × (finish d f ≡ some r)
finish-Finishes d f (ignored ls) = ((record d { lease = ls }, pbuf_free request ∷ []), refl)
finish-Finishes d f (sends ls calls) =
    ((record d { lease = ls }, calls ++ pbuf_free request ∷ []), refl)

Finishes-if :
    (b : Bool) (ls : List Lease) (f : Flow (List Lease × List Call))
    → Finishes f
    → Finishes (if b then ignore ls else f)
Finishes-if true ls f h = ignored ls
Finishes-if false ls f h = h

ends :
    (env : Lwip) (now : ℕ → ℕ) (stack : List ℕ) (d : Server) (p : List ℕ)
    → length stack ≡ msg_size
    → length d.lease ≡ dhcps_max_ip
    → IsWellFormed (drop at_opt (copy_partial p msg_size stack))
    → (r : Server × List Call) × (dhcp_server_process env now stack d p ≡ some r)
unfolding dhcp_server_process
ends env now stack d p whole table well = finish-Finishes d _ (
    Finishes-if (ltb (length p) dhcp_min_size) d.lease _ (
      Finishes-if (ltb (min (length p) msg_size) dhcp_min_size) d.lease _ (
        answer_packet-Finishes env now d msg (on_message now d (prepared d msg)) size refl (
          on_message-Decides now d (prepared d msg) (omega (arith, size, length-prepared d msg))
            table
            (rw (drop-prepared d msg)
              (IsWellFormed-Reads (drop at_opt msg) 53 1 well (omega arith) well.types))
            (rw (drop-prepared d msg)
              (IsWellFormed-Reads (drop at_opt msg) 50 4 well (omega arith) well.addresses))))))
  where
    msg : List ℕ
    msg = copy_partial p msg_size stack

    size : length msg ≡ msg_size
    size = omega (arith, length-overwrite stack 0 (take msg_size p))

-- A packet of any length, whose options, with what the array held behind a short packet, are each a tag, a length and
-- a body up to an end tag within the array, each message type with one byte at least and each requested address with
-- four, so without a pad before the end tag, is handled to the end where the table has its eight leases: it is freed once, as the last call, and answered at most once; the table
-- keeps its eight leases and every lease of another client that is not expired when it is looked at; and the
-- server's addresses and socket stay.
pub dhcp_server_process-total :
    (env : Lwip) (now : ℕ → ℕ) (stack : List ℕ) (d : Server) (p : List ℕ)
    → length stack ≡ msg_size
    → length d.lease ≡ dhcps_max_ip
    → IsWellFormed (drop at_opt (copy_partial p msg_size stack))
    → (d' : Server) × (calls : List Call) × (dhcp_server_process env now stack d p
        ≡ some (d', calls))
      × IsOrderly env calls
      × Keeps (take mac_len (drop at_chaddr (copy_partial p msg_size stack))) now d.lease d'.lease
      × (d'.ip ≡ d.ip)
      × (d'.nm ≡ d.nm)
      × (d'.udp ≡ d.udp)
dhcp_server_process-total env now stack d p whole table well =
    let ((d', calls), done) = ends env now stack d p whole table well in
    let msg = copy_partial p msg_size stack in
    let size : length msg ≡ msg_size = omega (arith, length-overwrite stack 0 (take msg_size p)) in
    let kept =
      dhcp_server_process-Keeps env now stack d d' p (take mac_len (drop at_chaddr msg)) calls
        (omega (arith, table)) (load_some msg at_chaddr mac_len (omega (arith, size))) done in
    (
      d',
      calls,
      done,
      dhcp_server_process-IsOrderly env now stack d d' p calls done,
      kept.0,
      kept.1,
      kept.2,
      kept.3,
    )
