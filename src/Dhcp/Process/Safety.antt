-- ===== src/Dhcp/Process/Safety.antt =====
-- ap_website/dhcpserver/dhcpserver.c: what `dhcp_server_process` does to the lease table, whatever
-- the packet.
use pico_common.Common.{
  ℕ, ◌+◌, ◌-◌, ◌%◌, ◌^◌, ◌≤◌, ◌≡◌, refl, List, [], ◌∷◌, true, some, arith, ltb, leb, ◌==◌, bytes_eq,
  bytes_eq_iff, get_elem?, length, length-set, ◌⊎◌, load_bytes, drop, store, store_bytes,
  copy_partial, min, ap, ◌∙◌, store-eq-some, store_bytes-eq-some, load_bytes-overwrite_after,
  overwrite, overwrite_one,
}
use mathlib.Core.Path.{subst}
use pico_common.Net.{Lwip, Call, octets}
use pico_common.Dhcp.Options.{
  Find, found, absent, over_read, out_of_fuel, opt_find, opt_write_u8, Cursor, opt_write_n,
  opt_write_u32, dhcp_opt_end,
}
use pico_common.Dhcp.Leases.{
  Lease, no_mac, dhcps_max_ip, dhcps_base_ip, mac_len, default_lease_time_s,
}
use pico_common.Dhcp.Leases.Choosing.{clear_available, choice, discover_loop_lem}
use pico_common.Dhcp.Leases.Keeping.{
  KeepsLive, clear_available-KeepsLive, set-KeepsLive, length-clear_available,
}
use pico_common.Dhcp.Socket.{Server, dhcp_socket_sendto, port_dhcp_client}
use pico_common.Dhcp.Process.{
  Flow, ◌>>=◌, Answer, answer_with, on_discover, claim, grant, request_address, on_request_at,
  at_option, on_message, write_options, answer_packet, finish, dhcp_server_process, at_chaddr,
  at_op, at_opt, msg_size, at_yiaddr, dhcp_min_size,
}
use pico_common.Dhcp.Process.Ends.{Ends, on_fault, on_ignore, on_next, Ends-access, Ends-if}

abbrev answer_table : Answer → List Lease
answer_table a = a.leases

answer_with-Ends :
    {P : List Lease → Type 0} (msg : List ℕ) (yi kind : ℕ) (ls : List Lease)
    → P ls
    → Ends answer_table P (answer_with msg yi kind ls)
unfolding answer_with
answer_with-Ends msg yi kind ls h =
    Ends-access (store msg (at_yiaddr + 3) _)
      (λ m _. Ends-access (opt_write_u8 _ 53 kind) (λ c _. on_next h))

-- What every path keeps: eight leases, and other clients' live ones.
abbrev pub Keeps : List ℕ → (ℕ → ℕ) → List Lease → List Lease → Type 0
Keeps chaddr now before after = (length after ≡ length before) × KeepsLive chaddr now before after

Keeps-refl : (chaddr : List ℕ) (now : ℕ → ℕ) (ls : List Lease) → Keeps chaddr now ls ls
Keeps-refl chaddr now ls = (refl, λ j l at other live. at)

module _ (now : ℕ → ℕ) (d : Server) (msg chaddr : List ℕ)
    (from : load_bytes msg at_chaddr mac_len ≡ some chaddr) where
  abbrev Fine : Flow Answer → Type 0
  Fine f = Ends answer_table (Keeps chaddr now d.lease) f

  on_discover-Fine : length d.lease ≤ dhcps_max_ip → Fine (on_discover now d msg)
  unfolding on_discover
  on_discover-Fine short =
      rw (from, ◌>>=◌, discover_loop_lem chaddr now 0 d.lease (omega arith))
        (Ends-if (yi == dhcps_max_ip) (λ _. on_ignore cleared)
          (λ _. answer_with-Ends msg yi 2 _ cleared))
    where
      yi : ℕ
      yi = choice chaddr now 0 d.lease

      cleared : Keeps chaddr now d.lease (clear_available chaddr now 0 d.lease)
      cleared = (
        length-clear_available chaddr now 0 d.lease,
        clear_available-KeepsLive chaddr now d.lease,
      )

  grant-Fine :
      (yi : ℕ) (l : Lease) → get_elem? d.lease yi ≡ some l → Fine (grant now d msg chaddr yi l)
  unfolding grant
  grant-Fine yi l at =
      Ends-if (claim l chaddr)
        (λ ok.
          answer_with-Ends msg yi 5 _
            (length-set d.lease yi _, set-KeepsLive chaddr now d.lease yi l _ at (claimed ok)))
        (λ _. on_ignore (Keeps-refl chaddr now d.lease))
    where
      claimed : claim l chaddr ≡ true → (l.mac ≡ chaddr) ⊎ (l.mac ≡ no_mac)
      claimed ok =
          unfold claim in ground (arith, bytes_eq_iff l.mac chaddr, bytes_eq_iff l.mac no_mac)

  request_address-Fine : (yi : ℕ) → Fine (request_address now d msg yi)
  unfolding request_address
  request_address-Fine yi =
      Ends-if (leb dhcps_max_ip yi) (λ _. on_ignore (Keeps-refl chaddr now d.lease))
        (λ _. rw (from, ◌>>=◌) (Ends-access (get_elem? d.lease yi) (λ l at. grant-Fine yi l at)))

  on_request_at-Fine : (o : ℕ) → Fine (on_request_at now d msg o)
  unfolding on_request_at
  on_request_at-Fine o = Ends-access (load_bytes msg (at_opt + o + 2) 3) (λ net _.
      Ends-if (bytes_eq net (d.ip.a ∷ d.ip.b ∷ d.ip.c ∷ []))
        (λ _.
          Ends-access (get_elem? msg (at_opt + o + 5))
            (λ last _. request_address-Fine ((last + 2 ^ 8 - dhcps_base_ip) % 2 ^ 8)))
        (λ _. on_ignore (Keeps-refl chaddr now d.lease)))

  at_option-Fine :
      (r : Find) {k : ℕ → Flow Answer} → ((o : ℕ) → Fine (k o)) → Fine (at_option d.lease r k)
  at_option-Fine (found o) h = h o
  at_option-Fine absent h = on_ignore (Keeps-refl chaddr now d.lease)
  at_option-Fine over_read h = on_fault
  at_option-Fine out_of_fuel h = on_fault

  on_message-Fine : length d.lease ≤ dhcps_max_ip → Fine (on_message now d msg)
  unfolding on_message
  on_message-Fine short = at_option-Fine (opt_find (drop at_opt msg) 53) λ o.
      Ends-access (get_elem? msg (at_opt + o + 2)) λ kind _.
        Ends-if (kind == 1) (λ _. on_discover-Fine short)
          λ _.
            Ends-if (kind == 3)
              (λ _. at_option-Fine (opt_find (drop at_opt msg) 50) on_request_at-Fine)
              (λ _. on_ignore (Keeps-refl chaddr now d.lease))

Ends-bind {ℓ κ} :
    {A : Type ℓ} {B : Type κ} {t : A → List Lease} {table : B → List Lease}
    {P : List Lease → Type 0} {m : Flow A} {f : A → Flow B}
    → Ends t P m
    → ((a : A) → P (t a) → Ends table P (f a))
    → Ends table P (m >>= f)
Ends-bind on_fault h = on_fault
Ends-bind (on_ignore p) h = on_ignore p
Ends-bind (on_next {a} p) h = h a p

finish-Ends :
    {P : List Lease → Type 0} (d d' : Server) {calls : List Call}
    {f : Flow (List Lease × List Call)}
    → Ends (λ x. x.0) P f
    → finish d f ≡ some (d', calls)
    → P d'.lease × (d'.ip ≡ d.ip) × (d'.nm ≡ d.nm) × (d'.udp ≡ d.udp)
finish-Ends {P} d d' on_fault e = cc
finish-Ends {P} d d' (on_ignore {ls} p) e =
    let same : ls ≡ d'.lease = ground arith in
    (subst P same p, ground arith, ground arith, ground arith)
finish-Ends {P} d d' (on_next {a} p) e =
    let same : a.0 ≡ d'.lease = ground arith in
    (subst P same p, ground arith, ground arith, ground arith)

-- What is written behind a table is no part of it.
abbrev same_table : List Lease → Cursor → List Lease
same_table ls c = ls

write_options-Ends :
    {P : List Lease → Type 0} {ls : List Lease} (d : Server) (c : Cursor)
    → P ls
    → Ends (same_table ls) P (write_options d c)
unfolding write_options
write_options-Ends d c p = Ends-access (opt_write_n c 54 4 (octets d.ip)) λ c₁ _.
    Ends-access (opt_write_n c₁ 1 4 (octets d.nm)) λ c₂ _.
      Ends-access (opt_write_n c₂ 3 4 (octets d.ip)) λ c₃ _.
        Ends-access (opt_write_n c₃ 6 4 (octets d.ip)) λ c₄ _.
          Ends-access (opt_write_u32 c₄ 51 default_lease_time_s)
            λ c₅ _. Ends-access (store c₅.msg c₅.opt dhcp_opt_end) λ m _. on_next p

answer_packet-Ends :
    (env : Lwip) (now : ℕ → ℕ) (d : Server) (msg chaddr : List ℕ)
    → load_bytes msg at_chaddr mac_len ≡ some chaddr
    → length d.lease ≤ dhcps_max_ip
    → Ends (λ x. x.0) (Keeps chaddr now d.lease) (answer_packet env now d msg)
unfolding answer_packet
answer_packet-Ends env now d msg chaddr from short = Ends-access (store msg at_op 2) λ m e.
    Ends-access (store_bytes m at_yiaddr (octets d.ip)) λ m' e'.
      let same : m' ≡ overwrite (overwrite msg at_op (2 ∷ [])) at_yiaddr (octets d.ip) =
        store_bytes-eq-some m at_yiaddr (octets d.ip) e'
        ∙ ap (λ (x : List ℕ). overwrite x at_yiaddr (octets d.ip))
            (store-eq-some msg at_op 2 e ∙ overwrite_one msg at_op 2) in
      let from' : load_bytes m' at_chaddr mac_len ≡ some chaddr =
        ap (λ (x : List ℕ). load_bytes x at_chaddr mac_len) same
        ∙ load_bytes-overwrite_after (overwrite msg at_op (2 ∷ [])) at_yiaddr at_chaddr mac_len
            (octets d.ip) (omega arith)
        ∙ load_bytes-overwrite_after msg at_op at_chaddr mac_len (2 ∷ []) (omega arith)
        ∙ from in
      Ends-bind (on_message-Fine now d m' chaddr from' short) λ a p.
        Ends-bind (write_options-Ends d a.cursor p) λ c p'.
          Ends-access
            (dhcp_socket_sendto env env.input_netif c.msg c.opt 0xffff_ffff port_dhcp_client)
            (λ sent _. on_next p')

-- Whatever the packet, the clock and the network do: if handling a packet ends, the table has the
-- length that it had, and every lease of another client than the packet's, which is not expired
-- when it is looked at, is as it was; the server's addresses and socket stay.
pub dhcp_server_process-Keeps :
    (env : Lwip) (now : ℕ → ℕ) (stack : List ℕ) (d d' : Server) (p chaddr : List ℕ)
    (calls : List Call)
    → length d.lease ≤ dhcps_max_ip
    → load_bytes (copy_partial p msg_size stack) at_chaddr mac_len ≡ some chaddr
    → dhcp_server_process env now stack d p ≡ some (d', calls)
    → Keeps chaddr now d.lease d'.lease × (d'.ip ≡ d.ip) × (d'.nm ≡ d.nm) × (d'.udp ≡ d.udp)
unfolding dhcp_server_process
dhcp_server_process-Keeps env now stack d d' p chaddr calls short from e =
    finish-Ends {P = Keeps chaddr now d.lease} d d'
      (Ends-if (ltb (length p) dhcp_min_size) (λ _. on_ignore (Keeps-refl chaddr now d.lease))
        λ _.
          Ends-if (ltb (min (length p) msg_size) dhcp_min_size)
            (λ _. on_ignore (Keeps-refl chaddr now d.lease))
            (λ _. answer_packet-Ends env now d (copy_partial p msg_size stack) chaddr from short))
      e
