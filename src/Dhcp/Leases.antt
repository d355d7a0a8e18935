-- ===== src/Dhcp/Leases.antt =====
-- ap_website/dhcpserver/dhcpserver.c and dhcpserver.h: the lease table, with the loop of
-- DHCPDISCOVER over it, the tests of DHCPREQUEST, and the 16-bit expiry times.
-- `cyw43_hal_ticks_ms` (not part of the repository) is a function of the index of its call.
pub mod Choosing
pub mod Keeping
pub mod Offering
pub mod Expiry
use pico_common.Common.{
  ℕ, ◌+◌, ◌-◌, ◌*◌, ◌/◌, ◌%◌, ◌^◌, List, [], ◌∷◌, Bool, leb, ◌==◌, if◌then◌else◌, bytes_eq,
  replicate,
}

abbrev pub dhcps_base_ip : ℕ
dhcps_base_ip = 16

abbrev pub dhcps_max_ip : ℕ
dhcps_max_ip = 8

abbrev pub mac_len : ℕ
mac_len = 6

abbrev pub default_lease_time_s : ℕ
default_lease_time_s = 24 * 60 * 60

pub record Lease : Type 0 where
  pub mac : List ℕ
  pub expiry : ℕ

abbrev pub no_mac : List ℕ
no_mac = 0 ∷ 0 ∷ 0 ∷ 0 ∷ 0 ∷ 0 ∷ []

-- `memset(d->lease, 0, sizeof(d->lease))`.
abbrev pub empty_leases : List Lease
empty_leases = replicate dhcps_max_ip (record { mac = no_mac; expiry = 0 })

-- `(int32_t)(expiry - cyw43_hal_ticks_ms()) < 0` for `expiry = l.expiry << 16 | 0xffff`: the low
-- sixteen bits are free, so the `|` adds; the difference is taken mod 2 ^ 32, and is negative as an
-- `int32_t` when its top bit is set.
unfoldable pub has_expired : Lease → ℕ → Bool
has_expired l now =
    let expiry = l.expiry * 2 ^ 16 + 0xffff in leb (2 ^ 31) ((expiry + 2 ^ 32 - now) % 2 ^ 32)

-- `(cyw43_hal_ticks_ms() + DEFAULT_LEASE_TIME_S * 1000) >> 16`, stored in a `uint16_t`.
unfoldable pub expiry_at : ℕ → ℕ
expiry_at now = (now + default_lease_time_s * 1000) % 2 ^ 32 / 2 ^ 16 % 2 ^ 16

-- One round of the loop of DHCPDISCOVER where no address has been chosen yet: the lease as it is
-- left, and `yi`.
abbrev pub Choice : Type 0
Choice = Lease × ℕ

unfoldable pub consider : Lease → ℕ → ℕ → Choice
consider l now i =
    let yi = if bytes_eq l.mac no_mac then i else dhcps_max_ip in
    if has_expired l now then (record l { mac = no_mac }, i) else (l, yi)

-- The loop of DHCPDISCOVER from index `i` on, over the leases that are left, with the reading of
-- the clock at each index. The result is the table as it is left, and `yi`.
abbrev pub cons_lease : Lease → List Lease × ℕ → List Lease × ℕ
cons_lease l (ls, yi) = (l ∷ ls, yi)

unfoldable pub discover_loop : List ℕ → (ℕ → ℕ) → ℕ → ℕ → List Lease → List Lease × ℕ
unfolding consider has_expired
discover_loop chaddr now i yi [] = ([], yi)
discover_loop chaddr now i yi (l ∷ ls) =
    let c : Choice = if yi == dhcps_max_ip then consider l (now i) i else (l, yi) in
    let rest = discover_loop chaddr now (i + 1) c.1 ls in
    if bytes_eq l.mac chaddr then (l ∷ ls, i) else cons_lease c.0 rest
