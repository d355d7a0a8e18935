-- ===== src/Dhcp/Leases/Expiry.antt =====
-- ap_website/dhcpserver/dhcpserver.c: how long a lease lasts by the sixteen bits that are kept of its
-- expiry time, on a millisecond clock that wraps at 2 ^ 32.
use pico_common.Common.{ℕ, ◌+◌, ◌%◌, ◌^◌, ◌≤◌, ◌<◌, ◌≡◌, List, true, false, arith}
use pico_common.Dhcp.Leases.{has_expired, expiry_at}

abbrev pub lease_ms : ℕ
lease_ms = 86_400_000

-- The clock `elapsed` milliseconds after it reads `start`.
abbrev pub clock_after : ℕ → ℕ → ℕ
clock_after start elapsed = (start + elapsed) % 2 ^ 32

-- A lease granted when the clock reads `start` has not expired at any time within its twenty-four
-- hours, also where the clock wraps in between.
pub has_expired-within :
    (mac : List ℕ) (start elapsed : ℕ)
    → start < 2 ^ 32
    → elapsed ≤ lease_ms
    → has_expired (record { mac = mac; expiry = expiry_at start }) (clock_after start elapsed)
      ≡ false
unfolding has_expired expiry_at
has_expired-within mac start elapsed hs he = ground arith

-- A lease granted when the clock reads `start` has expired from 65.536 seconds after its
-- twenty-four hours on, up to 2 ^ 31 milliseconds after them.
pub has_expired-after :
    (mac : List ℕ) (start elapsed : ℕ)
    → start < 2 ^ 32
    → lease_ms + 2 ^ 16 ≤ elapsed
    → elapsed ≤ lease_ms + 2 ^ 31
    → has_expired (record { mac = mac; expiry = expiry_at start }) (clock_after start elapsed)
      ≡ true
unfolding has_expired expiry_at
has_expired-after mac start elapsed hs lo hi = ground arith

-- From 2 ^ 31 + 2 ^ 16 milliseconds after the twenty-four hours of a lease that was granted when
-- the clock read `start`, and before 2 ^ 32 milliseconds after them, the expired lease counts as
-- not expired again.
pub has_expired_again :
    (mac : List ℕ) (start elapsed : ℕ)
    → start < 2 ^ 32
    → lease_ms + 2 ^ 31 + 2 ^ 16 ≤ elapsed
    → elapsed < lease_ms + 2 ^ 32
    → has_expired (record { mac = mac; expiry = expiry_at start }) (clock_after start elapsed)
      ≡ false
unfolding has_expired expiry_at
has_expired_again mac start elapsed hs lo hi = ground arith
