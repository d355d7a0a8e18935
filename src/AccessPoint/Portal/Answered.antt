-- ===== src/AccessPoint/Portal/Answered.antt =====
-- ap_website/picow_access_point.c: the first packet of a client that asks whether it is behind a captive
-- portal, on a new connection.
use pico_common.Common.{
  ℕ, ◌+◌, ◌≤◌, ◌≡◌, refl, ◌∙◌, ap, List, [], ◌∷◌, ◌++◌, true, none, some, arith, ◌>>=◌, length,
  take,
}
use pico_common.Net.{Ip4}
use pico_common.Http.Text.{codes}
use pico_common.Tcp.Session.{ok, Tcp, arrived}
use pico_common.AccessPoint.Connection.{state_buffer, Con, Session, new_con, tcp_server_accept}
use pico_common.AccessPoint.Request.{
  Site, http_response_redirect_header, with_header, ap_tcp_server_recv,
}
use pico_common.AccessPoint.Safety.{IsSound, IsOpen}
use pico_common.AccessPoint.Delivered.{Takes, answered}
use pico_common.AccessPoint.Run.{callback, on_event, run}
use pico_common.AccessPoint.Run.Accepted.{new_con-IsSound}
use pico_common.AccessPoint.Safety.Answers.{with_header-IsSound}
use pico_common.AccessPoint.Portal.{
  request_buffer, buffer_rest, buffer-EndsZero, get-redirect, receive-get, IsPortalRequest,
}

-- The connection that `tcp_server_accept` makes.
abbrev accepted : Ip4 → Session
accepted gw = record {
  con = some (new_con gw);
  pcb = true;
  callbacks = true;
  written = [];
  lent = [];
  received = 0;
  packets = 0;
}

accept_lem :
    (env : Tcp) (gw : Ip4)
    → env.calloc_ok ≡ true
    → tcp_server_accept env gw ok true ≡ (accepted gw, ok)
unfolding tcp_server_accept
accept_lem env gw room = rw room refl

module _ (env : Tcp) (site : Site) (gw : Ip4) (more : List ℕ) (takes : Takes env)
    (no_handler : site.get_handler ≡ none) (asks : IsPortalRequest site more)
    (fits : length (http_response_redirect_header gw site.default_url) ≤ 127) where
  -- The connection with the answer.
  abbrev redirected : Session
  redirected =
      let con = record (new_con gw) {
        headers = request_buffer (take 123 more) (buffer_rest more);
      } in
      let header = http_response_redirect_header gw site.default_url in
      answered (record (accepted gw) { con = some con; packets = 1 }) (with_header con header)
        (header ∷ [])

  redirected-IsOpen : (n : ℕ) → IsOpen (record redirected { received = n; packets = 0 })
  redirected-IsOpen n = record {
    state = record (with_header con1 header) { sent_len = 0 };
    held = refl;
    pcb_held = refl;
    listens = refl;
    sound = record { headers_end = sound.headers_end; result_size = sound.result_size };
  }
    where
      con1 : Con
      con1 = record (new_con gw) { headers = request_buffer (take 123 more) (buffer_rest more) }

      header : List ℕ
      header = http_response_redirect_header gw site.default_url

      sound : IsSound (with_header con1 header)
      sound =
          with_header-IsSound con1 header
            (record { headers_end = buffer-EndsZero more; result_size = refl })

  recv-redirect :
      ap_tcp_server_recv env site (accepted gw) (some (codes "GET " ++ more))
      ≡ some (record redirected { received = 0 + length (codes "GET " ++ more); packets = 0 }, ok)
  recv-redirect =
      receive-get env site (accepted gw) redirected (new_con gw) more refl refl
        (get-redirect env site takes no_handler (take 123 more) (buffer_rest more) asks.plain
          asks.zeroless asks.is_default asks.unlisted (buffer-EndsZero more)
          (record (accepted gw) { con = some con1; packets = 1 }) (new_con gw) o1
          (new_con-IsSound gw) refl fits)
        refl
    where
      con1 : Con
      con1 = record (new_con gw) { headers = request_buffer (take 123 more) (buffer_rest more) }

      o1 : IsOpen (record (accepted gw) { con = some con1; packets = 1 })
      o1 = record {
        state = con1;
        held = refl;
        pcb_held = refl;
        listens = refl;
        sound = record { headers_end = buffer-EndsZero more; result_size = refl };
      }

  -- The first packet on a new connection, "GET " and one of the default requests, of any length, where its
  -- first 123 bytes have no question mark and no zero, no page's text begins them, and there is no handler:
  -- where lwIP takes every write, the client is sent a redirection to `default_url` at the server's address,
  -- whose text fits into the header buffer, and nothing else, from a buffer of the connection's state; the packet is taken whole and freed, and the
  -- connection stays open.
  pub run-redirect :
      env.calloc_ok ≡ true
      → (s' : Session) × (run env site
            (tcp_server_accept env gw ok true).0
            (arrived (codes "GET " ++ more) ∷ [])
          ≡ some s')
        × (s'.written ≡ http_response_redirect_header gw site.default_url ∷ [])
        × (s'.lent ≡ state_buffer ∷ [])
        × (s'.received ≡ length (codes "GET " ++ more))
        × (s'.packets ≡ 0)
        × IsOpen s'
  unfolding run on_event callback
  run-redirect room = (
    record redirected { received = 0 + length (codes "GET " ++ more); packets = 0 },
    ap (λ r. run env site r.0 (arrived (codes "GET " ++ more) ∷ [])) (accept_lem env gw room)
        ∙ ap (λ r. r >>= λ (s', _). run env site s' []) recv-redirect,
    refl,
    refl,
    omega arith,
    refl,
    redirected-IsOpen (0 + length (codes "GET " ++ more)),
  )
