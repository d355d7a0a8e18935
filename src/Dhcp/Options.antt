-- ===== src/Dhcp/Options.antt =====
-- ap_website/dhcpserver/dhcpserver.c: `opt_find` and the `opt_write_*` helpers, which walk and
-- append the options (tag, length, body) of a message. A pointer is an index into the array, and an
-- access outside the array is `over_read` or `none`.
pub mod Scanning
pub mod Encoding
pub mod WellFormed
pub mod Writing
use pico_common.Common.{
  ℕ, zero, suc, ◌+◌, ◌/◌, ◌%◌, ◌^◌, List, Option, none, some, ltb, ◌==◌, if◌then◌else◌, ◌>>=◌,
  get_elem?, store, store_bytes,
}

abbrev pub dhcp_opt_end : ℕ
dhcp_opt_end = 255

-- The number of bytes of `options` behind the magic cookie.
abbrev pub opt_len : ℕ
opt_len = 308

pub data Find : Type 0 where
  found : ℕ → Find
  absent over_read out_of_fuel : Find

-- `i += 2 + opt[i + 1]`, and on from there.
abbrev pub skip_from : Option ℕ → (ℕ → Find) → Find
skip_from none next = over_read
skip_from (some n) next = next n

abbrev pub look_at : Option ℕ → ℕ → ℕ → Find → Find
look_at none cmd i rest = over_read
look_at (some b) cmd i rest =
    if b == dhcp_opt_end then absent else if b == cmd then found i else rest

-- The loop of `opt_find` at index `i`. Each round advances `i` by two at least.
pub scan : ℕ → List ℕ → ℕ → ℕ → Find
scan zero opt cmd i = out_of_fuel
scan (suc fuel) opt cmd i =
    let rest = skip_from (get_elem? opt (i + 1)) (λ n. scan fuel opt cmd (i + 2 + n)) in
    if ltb i opt_len then look_at (get_elem? opt i) cmd i rest else absent

unfoldable pub opt_find : List ℕ → ℕ → Find
unfolding scan
opt_find opt cmd = scan 155 opt cmd 0

-- A message and the place of the next option in it.
pub record Cursor : Type 0 where
  pub msg : List ℕ
  pub opt : ℕ

unfoldable pub opt_write_n : Cursor → ℕ → ℕ → List ℕ → Option Cursor
opt_write_n c cmd n body = do
  m ← store c.msg c.opt cmd
  m ← store m (c.opt + 1) (n % 2 ^ 8)
  m ← store_bytes m (c.opt + 2) body
  some (record { msg = m; opt = c.opt + 2 + n })

unfoldable pub opt_write_u8 : Cursor → ℕ → ℕ → Option Cursor
opt_write_u8 c cmd val = do
  m ← store c.msg c.opt cmd
  m ← store m (c.opt + 1) 1
  m ← store m (c.opt + 2) val
  some (record { msg = m; opt = c.opt + 3 })

unfoldable pub opt_write_u32 : Cursor → ℕ → ℕ → Option Cursor
opt_write_u32 c cmd val = do
  m ← store c.msg c.opt cmd
  m ← store m (c.opt + 1) 4
  m ← store m (c.opt + 2) (val / 2 ^ 24 % 2 ^ 8)
  m ← store m (c.opt + 3) (val / 2 ^ 16 % 2 ^ 8)
  m ← store m (c.opt + 4) (val / 2 ^ 8 % 2 ^ 8)
  m ← store m (c.opt + 5) (val % 2 ^ 8)
  some (record { msg = m; opt = c.opt + 6 })
