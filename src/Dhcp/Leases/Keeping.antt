-- ===== src/Dhcp/Leases/Keeping.antt =====
-- ap_website/dhcpserver/dhcpserver.c: which leases the loop of DHCPDISCOVER leaves alone, and what
-- the chosen one is.
use pico_common.Common.{
  ℕ, zero, suc, ◌+◌, ◌≡◌, ◌≢◌, refl, List, [], ◌∷◌, false, some, arith, bytes_eq, bytes_eq_iff,
  length, get_elem?, set, get_elem?-set_ne, ◌⊎◌, inl, inr, ap, Bool-cases,
}
use native.Mathlib.Decide.{ℕ_discrete}
use pico_common.Dhcp.Leases.{Lease, no_mac}
use pico_common.Dhcp.Leases.Choosing.{first_held, clear_available, is_available}

-- Another client's lease whose time is not over is the same in both tables. `now j` is the clock when
-- lease `j` is looked at.
abbrev pub KeepsLive : List ℕ → (ℕ → ℕ) → List Lease → List Lease → Type 0
KeepsLive chaddr now before after =
    (j : ℕ) (l : Lease)
    → get_elem? before j ≡ some l
    → l.mac ≢ chaddr
    → is_available l (now j) ≡ false
    → get_elem? after j ≡ some l

clear_available-live :
    (chaddr : List ℕ) (now : ℕ → ℕ) (i k : ℕ) (ls : List Lease) (j : ℕ) (l : Lease)
    → k ≡ i + j
    → get_elem? ls j ≡ some l
    → is_available l (now k) ≡ false
    → get_elem? (clear_available chaddr now i ls) j ≡ some l
unfolding clear_available
clear_available-live chaddr now i k [] j l e at live = cc
clear_available-live chaddr now i k (x ∷ ls) zero l e at live =
    let same : k ≡ i = omega arith in ground arith
clear_available-live chaddr now i k (x ∷ ls) (suc j) l e at live =
    ground (arith, clear_available-live chaddr now (i + 1) k ls j l)

pub length-clear_available :
    (chaddr : List ℕ) (now : ℕ → ℕ) (i : ℕ) (ls : List Lease)
    → length (clear_available chaddr now i ls) ≡ length ls
unfolding clear_available
length-clear_available chaddr now i [] = refl
length-clear_available chaddr now i (x ∷ ls) =
    ground (arith, length-clear_available chaddr now (i + 1) ls)

pub clear_available-KeepsLive :
    (chaddr : List ℕ) (now : ℕ → ℕ) (ls : List Lease)
    → KeepsLive chaddr now ls (clear_available chaddr now 0 ls)
clear_available-KeepsLive chaddr now ls j l at other live =
    clear_available-live chaddr now 0 j ls j l (omega arith) at live

-- A lease that its client, or nobody, has may be given to the client.
pub set-KeepsLive :
    (chaddr : List ℕ) (now : ℕ → ℕ) (ls : List Lease) (yi : ℕ) (l new : Lease)
    → get_elem? ls yi ≡ some l
    → (l.mac ≡ chaddr) ⊎ (l.mac ≡ no_mac)
    → KeepsLive chaddr now ls (set ls yi new)
set-KeepsLive chaddr now ls yi l new here free j x at other live = elim (ℕ_discrete yi j) [
  | yes same ↦ ground (arith, ap (get_elem? ls) same, bytes_eq_iff x.mac no_mac)
  | no ne ↦ ground (arith, get_elem?-set_ne ls yi j new ne)
]

-- Every lease that comes first in the search is the client's.
pub first_held-mac :
    (chaddr : List ℕ) (i : ℕ) (ls : List Lease) (k : ℕ)
    → first_held chaddr i ls ≡ some k
    → (j : ℕ) × (l : Lease) × (k ≡ i + j) × (get_elem? ls j ≡ some l) × (l.mac ≡ chaddr)
unfolding first_held
first_held-mac chaddr i [] k e = cc
first_held-mac chaddr i (x ∷ ls) k e = elim (Bool-cases (bytes_eq x.mac chaddr)) [
  | inl mine ↦ (0, x, ground arith, refl, (bytes_eq_iff x.mac chaddr).0 mine)
  | inr other ↦
      let (j, l, at, here, mac) = first_held-mac chaddr (i + 1) ls k (ground arith) in
      (suc j, l, omega arith, here, mac)
]
