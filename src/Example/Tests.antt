-- ===== src/Example/Tests.antt =====
-- main_ap.cpp and main.cpp: the example programs on concrete connections, and a request for a page whose text another
-- page's text begins.
pub mod Main
use pico_common.Common.{none, false, ℕ, ◌≡◌, refl, [], ◌∷◌, ◌++◌, true, some, length, arith}
use pico_common.Net.{Ip4}
use pico_common.Http.Text.{codes, c_string, http_response_headers}
use pico_common.Http.Url.{UrlItem, register_url, find_handeler}
use pico_common.Tcp.Session.{Con, Session as WebSession, ok, Tcp, arrived, acked, timed_out}
use pico_common.Tcp.Session.Safety.{IsOpen}
use pico_common.Http.Response.Delivered.{Delivers}
use pico_common.Http.Request.{handle_tcp_data}
use pico_common.Example.Blink.{Light, rounds, shown, ideal_rounds, rounds-ideal}
use pico_common.Example.Sensor.{sensor_pages}
use pico_common.Example.Sensor.Pages.{get_temp-Delivers}
use pico_common.AccessPoint.Connection.{Session, tcp_server_accept}
use pico_common.AccessPoint.Run.{run}
use pico_common.AccessPoint.Safety.{IsSafe}
use pico_common.Example.{main_site, temp_page}
use pico_common.Example.Safety.{main_site-IsSafe}
use pico_common.Example.Prefixes.{find_handeler-lower_address}

abbrev pub tcp : Tcp
tcp = record { close_err = ok; write_err = λ n. ok; calloc_ok = true }

abbrev gw : Ip4
gw = record { a = 192; b = 168; c = 4; d = 1 }

main_site-IsSafe_example :
    (s' : Session) × (run tcp
        (main_site tcp length (codes "21.50") (codes "70.70"))
        (tcp_server_accept tcp gw ok true).0
        (arrived (codes "GET /temp HTTP") ∷ acked 100 ∷ timed_out ∷ [])
      ≡ some s')
    × IsSafe s'
main_site-IsSafe_example =
    main_site-IsSafe tcp length (codes "21.50") (codes "70.70") (omega arith) gw ok true
      (arrived (codes "GET /temp HTTP") ∷ acked 100 ∷ timed_out ∷ []) (tt, (tt, (tt, tt)))

abbrev temp : UrlItem ℕ
temp = record { addr = 100; url = codes "/temp"; html_generator_func = some 1 }

abbrev temp_c : UrlItem ℕ
temp_c = record { addr = 200; url = codes "/tempC"; html_generator_func = some 2 }

abbrev status : UrlItem ℕ
status = record { addr = 150; url = codes "/status"; html_generator_func = some 3 }

find_handeler-lower_address_example :
    (find_handeler
        (codes "/tempC HTTP" ++ 0 ∷ [])
        (register_url temp (register_url temp_c (status ∷ [])))
      ≡ some (some temp))
    × (find_handeler
          (codes "/tempC HTTP" ++ 0 ∷ [])
          (register_url temp_c (register_url temp (status ∷ [])))
        ≡ some (some temp))
unfolding c_string
find_handeler-lower_address_example =
    find_handeler-lower_address (codes "/tempC HTTP" ++ 0 ∷ []) (codes "/tempC HTTP") temp temp_c
      (status ∷ []) refl (refl, tt) refl refl (omega arith)

abbrev web_con : Con
web_con = record { written_len = 0; sent_len = 0; dont_close_on_send_finish = false }

abbrev web_client : WebSession
web_client = record {
  con = some web_con;
  pcb = true;
  callbacks = true;
  written = [];
  received = 0;
  packets = 0;
}

web_client-IsOpen : IsOpen web_client
web_client-IsOpen = record { state = web_con; held = refl; pcb_held = refl; listens = refl }

-- A light that was turned just before the clock wraps.
abbrev light : Light
light = record { prev_time = 4294967000; led_state = true; puts = [] }

rounds-ideal_example :
    rounds (shown light) (4294967500 ∷ 4294968200 ∷ [])
    ≡ shown (ideal_rounds light (4294967500 ∷ 4294968200 ∷ []))
rounds-ideal_example =
    rounds-ideal (4294967500 ∷ 4294968200 ∷ []) 4294967100 light (omega arith) (omega arith)
      (omega arith, omega arith, (omega arith, omega arith, tt))
