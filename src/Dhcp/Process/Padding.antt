-- ===== src/Dhcp/Process/Padding.antt =====
-- ap_website/dhcpserver/dhcpserver.c: the pad option of RFC 2132, a byte without a length.
use pico_common.Common.{
  ℕ, ◌≤◌, ◌≡◌, refl, ap, ◌∙◌, List, [], ◌∷◌, ◌++◌, some, arith, length, append-nil, copy_partial,
  drop,
}
use pico_common.Net.{Lwip, pbuf_free, request}
use pico_common.Dhcp.Options.{opt_find, absent}
use pico_common.Dhcp.Options.Encoding.{encode, place_of, opt_find-encode}
use pico_common.Dhcp.Socket.{Server}
use pico_common.Dhcp.Process.{on_message, dhcp_server_process, msg_size, at_opt, dhcp_min_size}
use pico_common.Dhcp.Process.Prepared.{drop-prepared}
use pico_common.Dhcp.Process.Refusals.{process_drops}

-- The search takes the byte behind a pad for its length: here the tag of the message type.
opt_find-pad :
    (kind : ℕ) (skipped rest : List ℕ)
    → length skipped ≡ 51
    → opt_find (0 ∷ 53 ∷ 1 ∷ kind ∷ (skipped ++ 255 ∷ rest)) 53 ≡ absent
unfolding place_of
opt_find-pad kind skipped rest size =
    ap (λ o. opt_find o 53) shape
    ∙ opt_find-encode 53 (record { tag = 0; body = 1 ∷ kind ∷ skipped } ∷ []) rest
        (ground arith, tt) (ground arith) (omega (arith, size, ap length (append-nil skipped)))
  where
    shape :
        0 ∷ 53 ∷ 1 ∷ kind ∷ (skipped ++ 255 ∷ rest)
        ≡ encode (record { tag = 0; body = 1 ∷ kind ∷ skipped } ∷ []) ++ 255 ∷ rest
    shape = rw (append-nil skipped, size) refl

-- A packet of at least 243 bytes whose options begin with a pad, a message type of any kind, 51 more bytes and the
-- end tag is dropped as one without a message type: it is freed without an answer, and nothing changes.
pub pad_drops :
    (env : Lwip) (now : ℕ → ℕ) (stack : List ℕ) (d : Server) (p : List ℕ) (kind : ℕ)
    (skipped rest : List ℕ)
    → length stack ≡ msg_size
    → dhcp_min_size ≤ length p
    → drop at_opt (copy_partial p msg_size stack) ≡ 0 ∷ 53 ∷ 1 ∷ kind ∷ (skipped ++ 255 ∷ rest)
    → length skipped ≡ 51
    → dhcp_server_process env now stack d p ≡ some (d, pbuf_free request ∷ [])
unfolding on_message
pad_drops env now stack d p kind skipped rest whole long options size =
    process_drops env now stack d p whole long (
      rw
        (
          drop-prepared d (copy_partial p msg_size stack),
          options,
          opt_find-pad kind skipped rest size,
        )
        refl)
