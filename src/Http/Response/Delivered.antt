-- ===== src/Http/Response/Delivered.antt =====
-- http_server/http_server.c: what an answer leaves with lwIP.
use pico_common.Common.{
  ℕ, ◌<◌, take-length, length-take, arith, ◌+◌, ◌%◌, ◌^◌, ◌≤◌, ◌≡◌, refl, ap, ◌∙◌, List, [], ◌∷◌,
  ◌++◌, append_assoc, some, length, take, ◌>>=◌,
}
use pico_common.Http.Text.{http_response_headers}
use pico_common.Http.Response.{html_server_send_get_responce}
use pico_common.Http.Response.Written.{
  length-http_response_headers, html_server_send_get_responce_lem,
}
use pico_common.Tcp.Session.{ok, Con, Session, Tcp, Step, tcp_server_send_data}
use pico_common.Tcp.Session.Safety.{IsOpen, Follows}

-- The step succeeds with status `ok`, leaves the connection open, has written these texts, and freed no packet.
abbrev pub Delivers : Session → List (List ℕ) → Step → Type 0
Delivers s texts r =
    (s' : Session) × (r ≡ some (s', ok)) × (s'.written ≡ s.written ++ texts) × Follows s s'

small_mod : (n : ℕ) → n < 2 ^ 16 → n % 2 ^ 16 ≡ n
small_mod n h = omega arith

send_data-Delivers :
    (env : Tcp) (s : Session) (bytes : List ℕ)
    → IsOpen s
    → length bytes < 2 ^ 16
    → env.write_err (length bytes) ≡ ok
    → Delivers s (bytes ∷ []) (tcp_server_send_data env s bytes)
unfolding tcp_server_send_data
send_data-Delivers env s bytes o short taken =
    let con : Con = record o.state {
      written_len = (o.state.written_len + length bytes) % 2 ^ 32;
    } in
    (
      record s { con = some con; written = s.written ++ bytes ∷ [] },
      rw
          (
            o.held,
            o.pcb_held,
            small_mod (length bytes) short,
            taken,
            take-length (length bytes) bytes (omega arith),
          )
          refl,
      refl,
      (record { state = con; held = refl; pcb_held = o.pcb_held; listens = o.listens }, refl),
    )

-- On an open connection, where lwIP takes as many bytes as the header has, and `n` bytes, an answer with
-- `n` bytes, less than 2 ^ 16, of an array that has them succeeds, leaves the connection open, and hands over the header
-- and then these bytes, behind what was written before.
pub html_server_send_get_responce-Delivers :
    (env : Tcp) (s : Session) (bytes : List ℕ) (n : ℕ)
    → IsOpen s
    → n ≤ length bytes
    → n < 2 ^ 16
    → env.write_err (length (http_response_headers n)) ≡ ok
    → env.write_err (length (take n bytes)) ≡ ok
    → Delivers s
        (http_response_headers n ∷ take n bytes ∷ [])
        (html_server_send_get_responce env s bytes n)
html_server_send_get_responce-Delivers env s bytes n o room short header body =
    let (s1, sent, wrote, (o1, same)) =
      send_data-Delivers env s (http_response_headers n) o
        (omega (arith, length-http_response_headers n)) header in
    let (s2, sent', wrote', (o2, same')) =
      send_data-Delivers env s1 (take n bytes) o1 (omega (arith, short, length-take n bytes))
        body in
    (
      s2,
      rw (html_server_send_get_responce_lem env s bytes n room, sent, ◌>>=◌, sent') refl,
      wrote'
          ∙ (ap (λ w. w ++ take n bytes ∷ []) wrote
              ∙ append_assoc s.written (http_response_headers n ∷ []) (take n bytes ∷ [])),
      (o2, same' ∙ same),
    )
