-- ===== src/Dhcp/Process/Layout.antt =====
-- ap_website/dhcpserver/dhcpserver.c: the bytes of an answer, as one overwrite of the message.
use pico_common.Common.{
  ℕ, ◌+◌, ◌%◌, ◌^◌, ◌≤◌, ◌<◌, ◌≡◌, refl, ap, ◌∙◌, List, [], ◌∷◌, ◌++◌, some, arith, length,
  overwrite, length-overwrite, length-append, overwrite-overwrite, overwrite_one, store_lem, store,
}
use pico_common.Net.{Ip4, octets}
use pico_common.Dhcp.Options.{Cursor, opt_write_n, opt_write_u32, dhcp_opt_end}
use pico_common.Dhcp.Options.Writing.{
  advance, be32, opt_write_n_lem, opt_write_u8_lem, opt_write_u32_lem,
}
use pico_common.Dhcp.Leases.{Lease, dhcps_base_ip, default_lease_time_s}
use pico_common.Dhcp.Socket.{Server}
use pico_common.Dhcp.Process.{next, access, answer_with, write_options, at_yiaddr, at_opt, msg_size}

-- The options that both answers carry, and the end tag.
abbrev pub shared_options : Server → List ℕ
shared_options d =
    (54 ∷ 4 ∷ octets d.ip)
    ++ (1 ∷ 4 ∷ octets d.nm)
    ++ (3 ∷ 4 ∷ octets d.ip)
    ++ (6 ∷ 4 ∷ octets d.ip)
    ++ (51 ∷ 4 ∷ be32 default_lease_time_s)
    ++ dhcp_opt_end ∷ []

-- All options of an answer: a message type, and those.
abbrev pub reply_options : Server → ℕ → List ℕ
reply_options d kind = 53 ∷ 1 ∷ kind ∷ shared_options d

advance-advance : (c : Cursor) (a b : List ℕ) → advance (advance c a) b ≡ advance c (a ++ b)
advance-advance c a b =
    ground (arith, length-append a b, overwrite-overwrite c.msg c.opt (c.opt + length a) a b)

-- One more option behind those written so far.
more_n :
    (c : Cursor) (so_far : List ℕ) (cmd : ℕ) (ip : Ip4)
    → c.opt + length so_far + 6 ≤ length c.msg
    → opt_write_n (advance c so_far) cmd 4 (octets ip)
      ≡ some (advance c (so_far ++ cmd ∷ 4 ∷ octets ip))
more_n c so_far cmd ip room =
    opt_write_n_lem (advance c so_far) cmd 4 (octets ip) (omega arith) refl
      (omega (arith, length-overwrite c.msg c.opt so_far))
    ∙ ap some (advance-advance c so_far (cmd ∷ 4 ∷ octets ip))

more_u32 :
    (c : Cursor) (so_far : List ℕ) (cmd val : ℕ)
    → c.opt + length so_far + 6 ≤ length c.msg
    → opt_write_u32 (advance c so_far) cmd val ≡ some (advance c (so_far ++ cmd ∷ 4 ∷ be32 val))
more_u32 c so_far cmd val room =
    opt_write_u32_lem (advance c so_far) cmd val
      (omega (arith, length-overwrite c.msg c.opt so_far))
    ∙ ap some (advance-advance c so_far (cmd ∷ 4 ∷ be32 val))

store_last :
    (c : Cursor) (so_far : List ℕ) (b : ℕ)
    → c.opt + length so_far < length c.msg
    → store (overwrite c.msg c.opt so_far) (c.opt + length so_far) b
      ≡ some (overwrite c.msg c.opt (so_far ++ b ∷ []))
store_last c so_far b room =
    store_lem _ _ b (omega (arith, length-overwrite c.msg c.opt so_far))
    ∙ ap some (overwrite_one _ _ b ∙ overwrite-overwrite c.msg c.opt _ so_far (b ∷ []) refl)

pub write_options_lem :
    (d : Server) (c : Cursor)
    → c.opt + 31 ≤ length c.msg
    → write_options d c ≡ next (advance c (shared_options d))
unfolding write_options
write_options_lem d c room =
    rw
      (
        opt_write_n_lem c 54 4 (octets d.ip) (omega arith) refl (omega arith),
        access,
        more_n c o₁ 1 d.nm (omega arith),
        more_n c o₂ 3 d.ip (omega arith),
        more_n c o₃ 6 d.ip (omega arith),
        more_u32 c o₄ 51 default_lease_time_s (omega arith),
        store_last c o₅ dhcp_opt_end (omega arith),
      )
      (ground arith)
  where
    o₁ : List ℕ
    o₁ = 54 ∷ 4 ∷ octets d.ip

    o₂ : List ℕ
    o₂ = o₁ ++ 1 ∷ 4 ∷ octets d.nm

    o₃ : List ℕ
    o₃ = o₂ ++ 3 ∷ 4 ∷ octets d.ip

    o₄ : List ℕ
    o₄ = o₃ ++ 6 ∷ 4 ∷ octets d.ip

    o₅ : List ℕ
    o₅ = o₄ ++ 51 ∷ 4 ∷ be32 default_lease_time_s

-- The message with the address that is given in its last byte and the message type.
pub answer_with_lem :
    (msg : List ℕ) (yi kind : ℕ) (ls : List Lease)
    → length msg ≡ msg_size
    → yi < 8
    → answer_with msg yi kind ls
      ≡ next (record {
        cursor =
            advance
              (record {
                msg = overwrite msg (at_yiaddr + 3) ((dhcps_base_ip + yi) ∷ []);
                opt = at_opt;
              })
              (53 ∷ 1 ∷ kind ∷ []);
        leases = ls;
      })
unfolding answer_with
answer_with_lem msg yi kind ls whole small =
    let fits : (dhcps_base_ip + yi) % 2 ^ 8 ≡ dhcps_base_ip + yi = omega arith in
    let room : length (overwrite msg (at_yiaddr + 3) ((dhcps_base_ip + yi) ∷ [])) ≡ msg_size =
      omega (arith, length-overwrite msg (at_yiaddr + 3) ((dhcps_base_ip + yi) ∷ [])) in
    rw (
      fits,
      store_lem msg (at_yiaddr + 3) (dhcps_base_ip + yi) (omega arith),
      access,
      overwrite_one msg (at_yiaddr + 3) (dhcps_base_ip + yi),
      opt_write_u8_lem
          (record { msg = overwrite msg (at_yiaddr + 3) ((dhcps_base_ip + yi) ∷ []); opt = at_opt })
          53 kind (omega arith),
    )

-- The shared options behind a first one.
pub write_options-advance :
    (d : Server) (c : Cursor) (head : List ℕ)
    → c.opt + length head + 31 ≤ length c.msg
    → write_options d (advance c head) ≡ next (advance c (head ++ shared_options d))
write_options-advance d c head room =
    write_options_lem d (advance c head) (omega (arith, length-overwrite c.msg c.opt head))
    ∙ ap next (advance-advance c head (shared_options d))
