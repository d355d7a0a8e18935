-- ===== src/Dhcp/Process/Refusals.antt =====
-- ap_website/dhcpserver/dhcpserver.c: the packets that `dhcp_server_process` drops.
use pico_common.Common.{
  ℕ, ◌+◌, ◌-◌, ◌%◌, ◌^◌, ◌≤◌, ◌<◌, ◌≡◌, ◌≢◌, List, [], ◌∷◌, false, none, some, arith, length,
  length-overwrite, copy_partial, load_bytes, take, drop, get_elem?, min, ltb, le→ltb_false,
  lt→leb_false, bytes_eq_refl, bytes_eq_ne,
}
use pico_common.Net.{Lwip, pbuf_free, request}
use pico_common.Dhcp.Options.{found, opt_find}
use pico_common.Dhcp.Leases.{Lease, no_mac, dhcps_max_ip, dhcps_base_ip, mac_len}
use pico_common.Dhcp.Leases.Choosing.{
  clear_available-none, first_held, first_available, discover_loop_lem,
}
use pico_common.Dhcp.Socket.{Server}
use pico_common.Dhcp.Process.{
  ignore, access, answer_packet, on_discover, on_message, on_request_at, claim, at_option,
  dhcp_server_process, msg_size, at_chaddr, at_opt, dhcp_min_size,
}
use pico_common.Dhcp.Process.Prepared.{
  answer_packet_drops, prepared, load_bytes-prepared, get_elem?-prepared, drop-prepared,
}

-- Where the handler of a message of full size drops it, the packet is freed and the table kept.
pub process_drops :
    (env : Lwip) (now : ℕ → ℕ) (stack : List ℕ) (d : Server) (p : List ℕ)
    → let msg = copy_partial p msg_size stack in
      length stack ≡ msg_size
      → dhcp_min_size ≤ length p
      → on_message now d (prepared d msg) ≡ ignore d.lease
      → dhcp_server_process env now stack d p ≡ some (d, pbuf_free request ∷ [])
unfolding dhcp_server_process
process_drops env now stack d p whole long handled = rw (short₁, short₂, dropped)
  where
    msg : List ℕ
    msg = copy_partial p msg_size stack

    short₁ : ltb (length p) dhcp_min_size ≡ false
    short₁ = le→ltb_false _ _ long

    short₂ : ltb (min (length p) msg_size) dhcp_min_size ≡ false
    short₂ = le→ltb_false _ _ (omega arith)

    dropped : answer_packet env now d msg ≡ ignore d.lease
    dropped =
        answer_packet_drops env now d msg d.lease
          (omega (arith, length-overwrite stack 0 (take msg_size p))) handled

-- A DHCPDISCOVER of at least 243 bytes, of a client that has no lease of the at most
-- `DHCPS_MAX_IP`, while none is available, gets no answer, and changes nothing.
pub discover_full :
    (env : Lwip) (now : ℕ → ℕ) (stack : List ℕ) (d : Server) (p chaddr : List ℕ) (o : ℕ)
    → length stack ≡ msg_size
    → dhcp_min_size ≤ length p
    → length d.lease ≤ dhcps_max_ip
    → opt_find (drop at_opt (copy_partial p msg_size stack)) 53 ≡ found o
    → get_elem? (copy_partial p msg_size stack) (at_opt + o + 2) ≡ some 1
    → load_bytes (copy_partial p msg_size stack) at_chaddr mac_len ≡ some chaddr
    → first_held chaddr 0 d.lease ≡ none
    → first_available now 0 d.lease ≡ none
    → dhcp_server_process env now stack d p ≡ some (d, pbuf_free request ∷ [])
unfolding on_message on_discover
discover_full env now stack d p chaddr o whole long table type_at is_discover from unheld taken =
    process_drops env now stack d p whole long (
      rw (
        drop-prepared d msg,
        type_at,
        at_option,
        get_elem?-prepared d msg (at_opt + o + 2) (omega arith),
        is_discover,
        access,
        load_bytes-prepared d msg at_chaddr mac_len (omega arith),
        from,
        discover_loop_lem chaddr now 0 d.lease (omega arith),
        clear_available-none chaddr now 0 d.lease unheld taken,
        unheld,
        taken,
      ))
  where
    msg : List ℕ
    msg = copy_partial p msg_size stack

-- A DHCPREQUEST of at least 243 bytes, for an address of the server's network whose lease is
-- another client's, expired or not, gets no answer, and changes nothing.
pub request_refused :
    (env : Lwip) (now : ℕ → ℕ) (stack : List ℕ) (d : Server) (p chaddr : List ℕ) (o q yi : ℕ)
    (l : Lease)
    → length stack ≡ msg_size
    → dhcp_min_size ≤ length p
    → opt_find (drop at_opt (copy_partial p msg_size stack)) 53 ≡ found o
    → get_elem? (copy_partial p msg_size stack) (at_opt + o + 2) ≡ some 3
    → opt_find (drop at_opt (copy_partial p msg_size stack)) 50 ≡ found q
    → load_bytes (copy_partial p msg_size stack) (at_opt + q + 2) 3
      ≡ some (d.ip.a ∷ d.ip.b ∷ d.ip.c ∷ [])
    → get_elem? (copy_partial p msg_size stack) (at_opt + q + 5) ≡ some (dhcps_base_ip + yi)
    → load_bytes (copy_partial p msg_size stack) at_chaddr mac_len ≡ some chaddr
    → yi < dhcps_max_ip
    → get_elem? d.lease yi ≡ some l
    → l.mac ≢ chaddr
    → l.mac ≢ no_mac
    → dhcp_server_process env now stack d p ≡ some (d, pbuf_free request ∷ [])
unfolding on_message on_request_at
request_refused env now stack d p chaddr o q yi l whole long type_at is_request asks net last from
      small at_yi other used =
    process_drops env now stack d p whole long (
      rw (
        drop-prepared d msg,
        type_at,
        at_option,
        get_elem?-prepared d msg (at_opt + o + 2) (omega arith),
        is_request,
        access,
        asks,
        load_bytes-prepared d msg (at_opt + q + 2) 3 (omega arith),
        net,
        bytes_eq_refl (d.ip.a ∷ d.ip.b ∷ d.ip.c ∷ []),
        get_elem?-prepared d msg (at_opt + q + 5) (omega arith),
        last,
        index,
        lt→leb_false dhcps_max_ip yi small,
        load_bytes-prepared d msg at_chaddr mac_len (omega arith),
        from,
        at_yi,
        unclaimed,
      ))
  where
    msg : List ℕ
    msg = copy_partial p msg_size stack

    index : (dhcps_base_ip + yi + 2 ^ 8 - dhcps_base_ip) % 2 ^ 8 ≡ yi
    index = omega arith

    unclaimed : claim l chaddr ≡ false
    unclaimed = unfold claim in rw (bytes_eq_ne l.mac chaddr other) (bytes_eq_ne l.mac no_mac used)
