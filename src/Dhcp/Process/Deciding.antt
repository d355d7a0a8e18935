-- ===== src/Dhcp/Process/Deciding.antt =====
-- ap_website/dhcpserver/dhcpserver.c: what `dhcp_server_process` decides of a message with well-formed options.
use pico_common.Common.{
  ℕ, ◌+◌, ◌-◌, ◌%◌, ◌^◌, ◌≤◌, ◌<◌, ◌≡◌, ◌≢◌, refl, inl, inr, List, [], ◌∷◌, Bool, true, false, some,
  arith, length, get_elem?_bound, get_elem?-of-lt, set, take, drop, load_bytes, load_bytes-eq-take,
  bytes_eq, leb, ◌==◌, if◌then◌else◌, leb_false→lt,
}
use pico_common.Dhcp.Options.{opt_find}
use pico_common.Dhcp.Options.WellFormed.{Reads}
use pico_common.Dhcp.Leases.{Lease, dhcps_max_ip, dhcps_base_ip, mac_len, expiry_at}
use pico_common.Dhcp.Leases.Choosing.{clear_available, choice, discover_loop_lem}
use pico_common.Dhcp.Leases.Keeping.{length-clear_available}
use pico_common.Dhcp.Leases.Offering.{choice-offers}
use pico_common.Dhcp.Socket.{Server}
use pico_common.Dhcp.Process.{
  Flow, ignore, access, Answer, answer_with, on_discover, claim, grant, request_address,
  on_request_at, at_option, on_message, msg_size, at_chaddr, at_opt,
}

-- What is decided of a message: to drop it, or to answer with one of the addresses.
pub data Decides (msg : List ℕ) : Flow Answer → Type 0 where
  drops : (ls : List Lease) → Decides msg (ignore ls)
  answers :
      (yi kind : ℕ) (ls : List Lease) → yi < dhcps_max_ip → Decides msg (answer_with msg yi kind ls)

Decides-if :
    (msg : List ℕ) (b : Bool) {x y : Flow Answer}
    → ((b ≡ true) → Decides msg x)
    → ((b ≡ false) → Decides msg y)
    → Decides msg (if b then x else y)
Decides-if msg true h k = h refl
Decides-if msg false h k = k refl

choice-bound :
    (chaddr : List ℕ) (now : ℕ → ℕ) (ls : List Lease)
    → length ls ≤ dhcps_max_ip
    → choice chaddr now 0 ls ≢ dhcps_max_ip
    → choice chaddr now 0 ls < dhcps_max_ip
choice-bound chaddr now ls table some_left = elim (choice-offers chaddr now ls) [
  | inl (l, here, free) ↦ omega (
    arith,
    get_elem?_bound (clear_available chaddr now 0 ls) (choice chaddr now 0 ls) l here,
    length-clear_available chaddr now 0 ls,
    table,
  )
  | inr (full, unheld, taken) ↦ absurd (some_left full)
]

pub load_some :
    (msg : List ℕ) (i n : ℕ) → i + n ≤ length msg → load_bytes msg i n ≡ some (take n (drop i msg))
load_some msg i n fits = load_bytes-eq-take msg i n fits

on_discover-Decides :
    (now : ℕ → ℕ) (d : Server) (msg : List ℕ)
    → length msg ≡ msg_size
    → length d.lease ≤ dhcps_max_ip
    → Decides msg (on_discover now d msg)
unfolding on_discover
on_discover-Decides now d msg whole table =
    rw
      (
        load_some msg at_chaddr mac_len (omega arith),
        access,
        discover_loop_lem chaddr now 0 d.lease (omega arith),
      )
      (Decides-if msg (yi == dhcps_max_ip) (λ full. drops ls)
        λ some_left.
          answers yi 2 ls (choice-bound chaddr now d.lease table (ground (arith, some_left))))
  where
    chaddr : List ℕ
    chaddr = take mac_len (drop at_chaddr msg)

    yi : ℕ
    yi = choice chaddr now 0 d.lease

    ls : List Lease
    ls = clear_available chaddr now 0 d.lease

request_address-Decides :
    (now : ℕ → ℕ) (d : Server) (msg : List ℕ) (yi : ℕ)
    → length msg ≡ msg_size
    → length d.lease ≡ dhcps_max_ip
    → Decides msg (request_address now d msg yi)
unfolding request_address grant
request_address-Decides now d msg yi whole table =
    Decides-if msg (leb dhcps_max_ip yi) (λ beyond. drops d.lease)
      λ within.
        let small : yi < dhcps_max_ip = leb_false→lt dhcps_max_ip yi within in
        let (l, here) = get_elem?-of-lt d.lease yi (omega (arith, small, table)) in
        rw (load_some msg at_chaddr mac_len (omega (arith, whole)), access, here)
          (Decides-if msg (claim l chaddr)
            (λ free.
              answers yi 5 (set d.lease yi (record { mac = chaddr; expiry = expiry_at (now 0) }))
                small)
            (λ taken. drops d.lease))
  where
    chaddr : List ℕ
    chaddr = take mac_len (drop at_chaddr msg)

on_request_at-Decides :
    (now : ℕ → ℕ) (d : Server) (msg : List ℕ) (o : ℕ)
    → length msg ≡ msg_size
    → length d.lease ≡ dhcps_max_ip
    → o + 6 ≤ 308
    → Decides msg (on_request_at now d msg o)
unfolding on_request_at
on_request_at-Decides now d msg o whole table within =
    let (last, here) = get_elem?-of-lt msg (at_opt + o + 5) (omega (arith, whole, within)) in
    rw (load_some msg (at_opt + o + 2) 3 (omega (arith, whole, within)), access, here)
      (Decides-if msg
        (bytes_eq (take 3 (drop (at_opt + o + 2) msg)) (d.ip.a ∷ d.ip.b ∷ d.ip.c ∷ []))
        (λ same.
          request_address-Decides now d msg ((last + 2 ^ 8 - dhcps_base_ip) % 2 ^ 8) whole table)
        (λ other. drops d.lease))

on_request-Decides :
    (now : ℕ → ℕ) (d : Server) (msg : List ℕ)
    → length msg ≡ msg_size
    → length d.lease ≡ dhcps_max_ip
    → Reads (drop at_opt msg) 50 6
    → Decides msg (at_option d.lease (opt_find (drop at_opt msg) 50) (on_request_at now d msg))
on_request-Decides now d msg whole table (inl missing) = rw missing (drops d.lease)
on_request-Decides now d msg whole table (inr (o, at, within)) =
    rw at (on_request_at-Decides now d msg o whole table within)

pub on_message-Decides :
    (now : ℕ → ℕ) (d : Server) (msg : List ℕ)
    → length msg ≡ msg_size
    → length d.lease ≡ dhcps_max_ip
    → Reads (drop at_opt msg) 53 3
    → Reads (drop at_opt msg) 50 6
    → Decides msg (on_message now d msg)
unfolding on_message
on_message-Decides now d msg whole table (inl missing) asks = rw missing (drops d.lease)
on_message-Decides now d msg whole table (inr (o, at, within)) asks =
    let (kind, here) = get_elem?-of-lt msg (at_opt + o + 2) (omega (arith, whole, within)) in
    rw (at, access, here)
      (Decides-if msg (kind == 1) (λ is. on_discover-Decides now d msg whole (omega (arith, table)))
        λ other.
          Decides-if msg (kind == 3) (λ is. on_request-Decides now d msg whole table asks)
            (λ no_more. drops d.lease))
