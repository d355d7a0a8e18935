-- ===== src/Dhcp/Options/Writing.antt =====
-- ap_website/dhcpserver/dhcpserver.c: each `opt_write_*` helper appends one option, in bounds.
use pico_common.Common.{
  ℕ, ◌+◌, ◌/◌, ◌%◌, ◌^◌, ◌≤◌, ◌<◌, ◌≡◌, ap, ◌∙◌, List, [], ◌∷◌, ◌++◌, some, arith, ◌>>=◌, length,
  overwrite, store, store_lem, store_bytes-eq-overwrite, overwrite_one, overwrite-overwrite,
  length-overwrite,
}
use pico_common.Dhcp.Options.{Cursor, opt_write_n, opt_write_u8, opt_write_u32}

-- A cursor past `bytes`, which were written at it.
abbrev pub advance : Cursor → List ℕ → Cursor
advance c bytes = record { msg = overwrite c.msg c.opt bytes; opt = c.opt + length bytes }

-- `*o++ = b` in a message with room for it.
store_first : (m : List ℕ) (i b : ℕ) → i < length m → store m i b ≡ some (overwrite m i (b ∷ []))
store_first m i b h = store_lem m i b h ∙ ap some (overwrite_one m i b)

store_next :
    (m : List ℕ) (i j b : ℕ) (xs : List ℕ)
    → j ≡ i + length xs
    → j < length m
    → store (overwrite m i xs) j b ≡ some (overwrite m i (xs ++ b ∷ []))
store_next m i j b xs h room =
    store_lem _ j b (omega (arith, length-overwrite m i xs))
    ∙ ap some (overwrite_one _ j b ∙ overwrite-overwrite m i j xs (b ∷ []) h)

pub opt_write_n_lem :
    (c : Cursor) (cmd n : ℕ) (body : List ℕ)
    → n < 2 ^ 8
    → length body ≡ n
    → c.opt + 2 + n ≤ length c.msg
    → opt_write_n c cmd n body ≡ some (advance c (cmd ∷ n ∷ body))
unfolding opt_write_n
opt_write_n_lem c cmd n body small same room =
    let n8 : n % 2 ^ 8 ≡ n = omega arith in
    let head : List ℕ = cmd ∷ n ∷ [] in
    rw
      (
        store_first c.msg c.opt cmd (omega arith),
        ◌>>=◌,
        n8,
        store_next c.msg c.opt (c.opt + 1) n (cmd ∷ []) (omega arith) (omega arith),
        store_bytes-eq-overwrite (overwrite c.msg c.opt head) (c.opt + 2) body
            (omega (arith, length-overwrite c.msg c.opt head)),
        overwrite-overwrite c.msg c.opt (c.opt + 2) head body (omega arith),
      )
      (ground arith)

pub opt_write_u8_lem :
    (c : Cursor) (cmd val : ℕ)
    → c.opt + 3 ≤ length c.msg
    → opt_write_u8 c cmd val ≡ some (advance c (cmd ∷ 1 ∷ val ∷ []))
unfolding opt_write_u8
opt_write_u8_lem c cmd val room =
    rw
      (
        store_first c.msg c.opt cmd (omega arith),
        ◌>>=◌,
        store_next c.msg c.opt (c.opt + 1) 1 (cmd ∷ []) (omega arith) (omega arith),
        store_next c.msg c.opt (c.opt + 2) val (cmd ∷ 1 ∷ []) (omega arith) (omega arith),
      )
      (ground arith)

-- The four bytes of a `uint32_t`, the high one first.
abbrev pub be32 : ℕ → List ℕ
be32 v = (v / 2 ^ 24 % 2 ^ 8) ∷ (v / 2 ^ 16 % 2 ^ 8) ∷ (v / 2 ^ 8 % 2 ^ 8) ∷ (v % 2 ^ 8) ∷ []

pub opt_write_u32_lem :
    (c : Cursor) (cmd val : ℕ)
    → c.opt + 6 ≤ length c.msg
    → opt_write_u32 c cmd val ≡ some (advance c (cmd ∷ 4 ∷ be32 val))
unfolding opt_write_u32
opt_write_u32_lem c cmd val room =
    let b3 = val / 2 ^ 24 % 2 ^ 8 in
    let b2 = val / 2 ^ 16 % 2 ^ 8 in
    let b1 = val / 2 ^ 8 % 2 ^ 8 in
    let head : List ℕ = cmd ∷ 4 ∷ [] in
    rw
      (
        store_first c.msg c.opt cmd (omega arith),
        ◌>>=◌,
        store_next c.msg c.opt (c.opt + 1) 4 (cmd ∷ []) (omega arith) (omega arith),
        store_next c.msg c.opt (c.opt + 2) b3 head (omega arith) (omega arith),
        store_next c.msg c.opt (c.opt + 3) b2 (head ++ b3 ∷ []) (omega arith) (omega arith),
        store_next c.msg c.opt (c.opt + 4) b1 (head ++ b3 ∷ b2 ∷ []) (omega arith) (omega arith),
        store_next c.msg c.opt (c.opt + 5) (val % 2 ^ 8) (head ++ b3 ∷ b2 ∷ b1 ∷ []) (omega arith)
            (omega arith),
      )
      (ground arith)
