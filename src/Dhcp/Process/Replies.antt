-- ===== src/Dhcp/Process/Replies.antt =====
-- ap_website/dhcpserver/dhcpserver.c: what `dhcp_server_process` answers to DHCPDISCOVER and
-- DHCPREQUEST, byte for byte.
use pico_common.Common.{
  ℕ, ◌+◌, ◌-◌, ◌%◌, ◌^◌, ◌≤◌, ◌<◌, ◌≡◌, List, [], ◌∷◌, true, some, arith, length, copy_partial,
  load_bytes, drop, get_elem?, bytes_eq, set, ◌⊎◌, bytes_eq_iff, lt→==_false, lt→leb_false,
  bytes_eq_refl,
}
use pico_common.Net.{Lwip}
use pico_common.Dhcp.Options.{found, opt_find}
use pico_common.Dhcp.Leases.{Lease, no_mac, dhcps_max_ip, dhcps_base_ip, mac_len, expiry_at}
use pico_common.Dhcp.Leases.Choosing.{clear_available, choice, discover_loop_lem}
use pico_common.Dhcp.Socket.{Server}
use pico_common.Dhcp.Process.{
  access, answer_with, on_discover, on_message, on_request_at, claim, at_option,
  dhcp_server_process, msg_size, at_chaddr, at_opt, dhcp_min_size,
}
use pico_common.Dhcp.Process.Prepared.{
  prepared, reply_size, reply_message, answer_calls, load_bytes-prepared, get_elem?-prepared,
  drop-prepared, process_answers,
}

-- A DHCPDISCOVER of at least 243 bytes, from the client `chaddr`, where a lease of the at most
-- `DHCPS_MAX_IP` is the client's or available, and the answer's buffer is granted: the answer is a
-- DHCPOFFER of the address of the chosen one, and the table is left with the first available lease
-- before the client's own cleared.
pub discover_offers :
    (env : Lwip) (now : ℕ → ℕ) (stack : List ℕ) (d : Server) (p chaddr : List ℕ) (o : ℕ)
    → length stack ≡ msg_size
    → dhcp_min_size ≤ length p
    → length d.lease ≤ dhcps_max_ip
    → env.alloc_ok reply_size ≡ true
    → opt_find (drop at_opt (copy_partial p msg_size stack)) 53 ≡ found o
    → get_elem? (copy_partial p msg_size stack) (at_opt + o + 2) ≡ some 1
    → load_bytes (copy_partial p msg_size stack) at_chaddr mac_len ≡ some chaddr
    → choice chaddr now 0 d.lease < dhcps_max_ip
    → dhcp_server_process env now stack d p
      ≡ some (
        record d { lease = clear_available chaddr now 0 d.lease },
        answer_calls env
            (reply_message d (copy_partial p msg_size stack) (choice chaddr now 0 d.lease) 2),
      )
unfolding on_message on_discover
discover_offers env now stack d p chaddr o whole long table room type_at is_discover from
      some_left =
    process_answers env now stack d p yi 2 (clear_available chaddr now 0 d.lease) whole long
      some_left room handled
  where
    msg : List ℕ
    msg = copy_partial p msg_size stack

    yi : ℕ
    yi = choice chaddr now 0 d.lease

    handled :
        on_message now d (prepared d msg)
        ≡ answer_with (prepared d msg) yi 2 (clear_available chaddr now 0 d.lease)
    handled = rw (
      drop-prepared d msg,
      type_at,
      at_option,
      get_elem?-prepared d msg (at_opt + o + 2) (omega arith),
      is_discover,
      access,
      load_bytes-prepared d msg at_chaddr mac_len (omega arith),
      from,
      discover_loop_lem chaddr now 0 d.lease (omega arith),
      lt→==_false yi dhcps_max_ip some_left,
    )

claim-own :
    (l : Lease) (chaddr : List ℕ) → (l.mac ≡ chaddr) ⊎ (l.mac ≡ no_mac) → claim l chaddr ≡ true
unfolding claim
claim-own l chaddr free = ground (arith, bytes_eq_iff l.mac chaddr, bytes_eq_iff l.mac no_mac)

pub request_acks :
    (env : Lwip) (now : ℕ → ℕ) (stack : List ℕ) (d : Server) (p chaddr : List ℕ) (o q yi : ℕ)
    (l : Lease)
    → length stack ≡ msg_size
    → dhcp_min_size ≤ length p
    → env.alloc_ok reply_size ≡ true
    → opt_find (drop at_opt (copy_partial p msg_size stack)) 53 ≡ found o
    → get_elem? (copy_partial p msg_size stack) (at_opt + o + 2) ≡ some 3
    → opt_find (drop at_opt (copy_partial p msg_size stack)) 50 ≡ found q
    → load_bytes (copy_partial p msg_size stack) (at_opt + q + 2) 3
      ≡ some (d.ip.a ∷ d.ip.b ∷ d.ip.c ∷ [])
    → get_elem? (copy_partial p msg_size stack) (at_opt + q + 5) ≡ some (dhcps_base_ip + yi)
    → load_bytes (copy_partial p msg_size stack) at_chaddr mac_len ≡ some chaddr
    → yi < dhcps_max_ip
    → get_elem? d.lease yi ≡ some l
    → (l.mac ≡ chaddr) ⊎ (l.mac ≡ no_mac)
    → dhcp_server_process env now stack d p
      ≡ some (
        record d { lease = set d.lease yi (record { mac = chaddr; expiry = expiry_at (now 0) }) },
        answer_calls env (reply_message d (copy_partial p msg_size stack) yi 5),
      )
unfolding on_message on_request_at
request_acks env now stack d p chaddr o q yi l whole long room type_at is_request asks net last from
      small at_yi free =
    process_answers env now stack d p yi 5 _ whole long small room (
      rw (
        drop-prepared d msg,
        type_at,
        at_option,
        get_elem?-prepared d msg (at_opt + o + 2) (omega arith),
        is_request,
        access,
        asks,
        load_bytes-prepared d msg (at_opt + q + 2) 3 (omega arith),
        net,
        same_net,
        get_elem?-prepared d msg (at_opt + q + 5) (omega arith),
        last,
        index,
        lt→leb_false dhcps_max_ip yi small,
        load_bytes-prepared d msg at_chaddr mac_len (omega arith),
        from,
        at_yi,
        claimed,
      ))
  where
    msg : List ℕ
    msg = copy_partial p msg_size stack

    same_net : bytes_eq (d.ip.a ∷ d.ip.b ∷ d.ip.c ∷ []) (d.ip.a ∷ d.ip.b ∷ d.ip.c ∷ []) ≡ true
    same_net = bytes_eq_refl (d.ip.a ∷ d.ip.b ∷ d.ip.c ∷ [])

    index : (dhcps_base_ip + yi + 2 ^ 8 - dhcps_base_ip) % 2 ^ 8 ≡ yi
    index = omega arith

    claimed : claim l chaddr ≡ true
    claimed = claim-own l chaddr free
