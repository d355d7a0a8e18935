-- ===== src/Dhcp/Leases/Choosing.antt =====
-- ap_website/dhcpserver/dhcpserver.c: what the loop of DHCPDISCOVER does, stated without the loop.
use pico_common.Common.{
  ℕ, ◌+◌, ◌≤◌, ◌<◌, ◌≡◌, refl, List, [], ◌∷◌, Bool, ◌||◌, Option, none, some, arith, if◌then◌else◌,
  bytes_eq, length,
}
use pico_common.Dhcp.Leases.{Lease, no_mac, dhcps_max_ip, has_expired, consider, discover_loop}

-- The first lease, from index `i` on, that carries the client's address.
unfoldable pub first_held : List ℕ → ℕ → List Lease → Option ℕ
first_held chaddr i [] = none
first_held chaddr i (l ∷ ls) =
    if bytes_eq l.mac chaddr then some i else first_held chaddr (i + 1) ls

abbrev pub is_available : Lease → ℕ → Bool
is_available l now = bytes_eq l.mac no_mac || has_expired l now

-- The first lease that nobody has, or whose time is over.
unfoldable pub first_available : (ℕ → ℕ) → ℕ → List Lease → Option ℕ
first_available now i [] = none
first_available now i (l ∷ ls) =
    if is_available l (now i) then some i else first_available now (i + 1) ls

-- The table after the loop: the first available lease that stands before the client's own is
-- cleared.
unfoldable pub clear_available : List ℕ → (ℕ → ℕ) → ℕ → List Lease → List Lease
clear_available chaddr now i [] = []
clear_available chaddr now i (l ∷ ls) =
    let rest = clear_available chaddr now (i + 1) ls in
    if bytes_eq l.mac chaddr
    then l ∷ ls
    else if is_available l (now i)
    then record l { mac = no_mac } ∷ ls
    else l ∷ rest

abbrev pub or_else : Option ℕ → ℕ → ℕ
or_else none d = d
or_else (some k) d = k

-- The client's own lease if it has one, else the first available one, else `DHCPS_MAX_IP`.
abbrev pub choice : List ℕ → (ℕ → ℕ) → ℕ → List Lease → ℕ
choice chaddr now i ls =
    or_else (first_held chaddr i ls) (or_else (first_available now i ls) dhcps_max_ip)

-- Once a lease is chosen, only a lease of the client's own displaces it.
discover_loop_chosen :
    (chaddr : List ℕ) (now : ℕ → ℕ) (i yi : ℕ) (ls : List Lease)
    → yi < dhcps_max_ip
    → discover_loop chaddr now i yi ls ≡ (ls, or_else (first_held chaddr i ls) yi)
unfolding discover_loop first_held
discover_loop_chosen chaddr now i yi [] h = refl
discover_loop_chosen chaddr now i yi (l ∷ ls) h =
    ground (arith, discover_loop_chosen chaddr now (i + 1) yi ls)

-- Over leases with indices below `DHCPS_MAX_IP`, from index `i` on with none chosen yet, the loop
-- ends with the index of the client's own lease, else of the first available one, else
-- `DHCPS_MAX_IP`, and with the first available lease before the client's own cleared.
pub discover_loop_lem :
    (chaddr : List ℕ) (now : ℕ → ℕ) (i : ℕ) (ls : List Lease)
    → i + length ls ≤ dhcps_max_ip
    → discover_loop chaddr now i dhcps_max_ip ls
      ≡ (clear_available chaddr now i ls, choice chaddr now i ls)
unfolding discover_loop first_held first_available clear_available consider
discover_loop_lem chaddr now i [] h = refl
discover_loop_lem chaddr now i (l ∷ ls) h =
    ground
      (arith, discover_loop_chosen chaddr now (i + 1) i ls, discover_loop_lem chaddr now (i + 1) ls)

-- Where no lease is the client's or available, the loop leaves the table alone.
pub clear_available-none :
    (chaddr : List ℕ) (now : ℕ → ℕ) (i : ℕ) (ls : List Lease)
    → first_held chaddr i ls ≡ none
    → first_available now i ls ≡ none
    → clear_available chaddr now i ls ≡ ls
unfolding first_held first_available clear_available
clear_available-none chaddr now i [] h f = refl
clear_available-none chaddr now i (l ∷ ls) h f =
    ground (arith, clear_available-none chaddr now (i + 1) ls)
