-- ===== src/Http/Tests.antt =====
-- http_server/http_server.c, http_server/url_collection.cpp: concrete requests, pages and answers.
use pico_common.Common.{ℕ, ◌≡◌, refl, List, [], ◌∷◌, ◌++◌, true, false, none, some, arith}
use pico_common.Http.Text.{codes, c_string}
use pico_common.Http.Url.{UrlItem, register_url}
use pico_common.Http.Response.{html_server_send_get_responce}
use pico_common.Tcp.Session.Safety.{IsOpen}
use pico_common.Http.Request.{Generator, handle_tcp_data}
use pico_common.Http.Request.Pages.{handle_tcp_data-query}
use pico_common.Tcp.Session.{ok, Session, Tcp}

abbrev tcp : Tcp
tcp = record { close_err = ok; write_err = λ n. ok; calloc_ok = true }

abbrev client : Session
client = record {
  con = some (record { written_len = 0; sent_len = 0; dont_close_on_send_finish = false });
  pcb = true;
  callbacks = true;
  written = [];
  received = 0;
  packets = 0;
}

-- A page that sends its parameters' first byte back.
abbrev page : Generator
page none s = html_server_send_get_responce tcp s (codes "none") 4
page (some params) s = html_server_send_get_responce tcp s params 1

abbrev item : UrlItem Generator
item = record { addr = 8; url = codes "/led"; html_generator_func = some page }

abbrev root : UrlItem Generator
root = record { addr = 4; url = codes "/"; html_generator_func = none }

handle_tcp_data-query_example :
    (given : List ℕ) × (handle_tcp_data tcp
        (register_url item (root ∷ []))
        none
        (codes "GET " ++ (codes "/led" ++ b'?' ∷ (codes "on" ++ b' ' ∷ codes "HTTP")))
        127
        client
      ≡ page (some given) client)
    × (c_string given ≡ some (codes "on"))
handle_tcp_data-query_example =
    handle_tcp_data-query tcp item page (root ∷ []) none (codes "on") (codes "HTTP") 127 client refl
      (ground arith, tt) (ground arith) (ground arith) (ground arith) (omega arith) (omega arith)
      (ground arith) (ground arith)

client-IsOpen : IsOpen client
client-IsOpen = record {
  state = record { written_len = 0; sent_len = 0; dont_close_on_send_finish = false };
  held = refl;
  pcb_held = refl;
  listens = refl;
}
