-- ===== src/Dhcp/Leases/Offering.antt =====
-- ap_website/dhcpserver/dhcpserver.c: the lease that DHCPDISCOVER offers.
use pico_common.Common.{
  ℕ, suc, ◌+◌, ◌≤◌, ◌≡◌, refl, List, [], ◌∷◌, none, some, arith, bytes_eq, bytes_eq_iff, length,
  get_elem?, ◌⊎◌, inl, inr, Bool-cases, Option-cases, ◌∙◌, ap,
}
use pico_common.Dhcp.Leases.{Lease, no_mac, dhcps_max_ip, discover_loop}
use pico_common.Dhcp.Leases.Keeping.{first_held-mac}
use pico_common.Dhcp.Leases.Choosing.{
  first_held, first_available, clear_available, is_available, choice, discover_loop_lem,
}

-- The lease at index `k` of a table whose first index is `i`.
abbrev pub LeaseAt : ℕ → ℕ → List Lease → (Lease → Type 0) → Type 0
LeaseAt i k ls P = (j : ℕ) × (l : Lease) × (k ≡ i + j) × (get_elem? ls j ≡ some l) × P l

held-clear_available :
    (chaddr : List ℕ) (now : ℕ → ℕ) (i : ℕ) (ls : List Lease) (k : ℕ)
    → first_held chaddr i ls ≡ some k
    → LeaseAt i k (clear_available chaddr now i ls) (λ l. l.mac ≡ chaddr)
unfolding first_held clear_available
held-clear_available chaddr now i [] k e = cc
held-clear_available chaddr now i (x ∷ ls) k e = elim (Bool-cases (bytes_eq x.mac chaddr)) [
  | inl mine ↦ (0, x, ground arith, ground arith, (bytes_eq_iff x.mac chaddr).0 mine)
  | inr other ↦
      let (j, l, at, here, mac) = held-clear_available chaddr now (i + 1) ls k (ground arith) in
      let (j', l', at', here', mac') = first_held-mac chaddr (i + 1) ls k (ground arith) in
      elim (Bool-cases (is_available x (now i))) [
        | inl free ↦ (suc j', l', omega arith, ground arith, mac')
        | inr live ↦ (suc j, l, omega arith, ground arith, mac)
      ]
]

pub free-clear_available :
    (chaddr : List ℕ) (now : ℕ → ℕ) (i : ℕ) (ls : List Lease) (k : ℕ)
    → first_held chaddr i ls ≡ none
    → first_available now i ls ≡ some k
    → LeaseAt i k (clear_available chaddr now i ls) (λ l. l.mac ≡ no_mac)
unfolding first_held first_available clear_available
free-clear_available chaddr now i [] k e f = cc
free-clear_available chaddr now i (x ∷ ls) k e f = elim (Bool-cases (is_available x (now i))) [
  | inl free ↦ (0, record x { mac = no_mac }, ground arith, ground arith, refl)
  | inr live ↦
      let (j, l, at, here, mac) =
        free-clear_available chaddr now (i + 1) ls k (ground arith) (ground arith) in
      (suc j, l, omega arith, ground arith, mac)
]

-- The chosen index is that of a lease which, in the table with the first available lease cleared, is the
-- client's own or nobody's; or it is `DHCPS_MAX_IP`, and no lease is the client's or available.
pub choice-offers :
    (chaddr : List ℕ) (now : ℕ → ℕ) (ls : List Lease)
    → ((l : Lease) × (get_elem? (clear_available chaddr now 0 ls) (choice chaddr now 0 ls) ≡ some l)
        × ((l.mac ≡ chaddr) ⊎ (l.mac ≡ no_mac)))
      ⊎ ((choice chaddr now 0 ls ≡ dhcps_max_ip)
          × (first_held chaddr 0 ls ≡ none)
          × (first_available now 0 ls ≡ none))
choice-offers chaddr now ls = elim (Option-cases (first_held chaddr 0 ls)) [
  | inr (k, held) ↦
      let (j, l, at, here, mac) = held-clear_available chaddr now 0 ls k held in
      let same : k ≡ j = omega arith in
      rw held (inl (l, ap (get_elem? (clear_available chaddr now 0 ls)) same ∙ here, inl mac))
  | inl unheld ↦ elim (Option-cases (first_available now 0 ls)) [
    | inr (k, free) ↦
        let (j, l, at, here, mac) = free-clear_available chaddr now 0 ls k unheld free in
        let same : k ≡ j = omega arith in
        rw (unheld, free)
          (inl (l, ap (get_elem? (clear_available chaddr now 0 ls)) same ∙ here, inr mac))
    | inl taken ↦ rw (unheld, taken) (inr (refl, refl, refl))
  ]
]

-- On a table of at most `DHCPS_MAX_IP` leases, the index that the loop of DHCPDISCOVER ends with is
-- `DHCPS_MAX_IP`, and then no lease is the client's or available, or it is that of a lease which,
-- in the table that the loop leaves, is the client's own or nobody's.
pub discover_loop_offers :
    (chaddr : List ℕ) (now : ℕ → ℕ) (ls : List Lease)
    → length ls ≤ dhcps_max_ip
    → let (after, yi) = discover_loop chaddr now 0 dhcps_max_ip ls in
      ((l : Lease) × (get_elem? after yi ≡ some l) × ((l.mac ≡ chaddr) ⊎ (l.mac ≡ no_mac)))
      ⊎ ((yi ≡ dhcps_max_ip) × (first_held chaddr 0 ls ≡ none) × (first_available now 0 ls ≡ none))
discover_loop_offers chaddr now ls short =
    rw (discover_loop_lem chaddr now 0 ls (omega arith)) (choice-offers chaddr now ls)
