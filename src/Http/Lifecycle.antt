-- ===== src/Http/Lifecycle.antt =====
-- http_server/http_server.c: the start and stop of the server. The pages and the handler that
-- `handle_tcp_data` looks up are those that are set when it is called.
use pico_common.Common.{ℕ, List, Option, some}
use pico_common.Wifi.{Start, Answers}
use pico_common.Http.Url.{UrlItem}
use pico_common.Http.Request.{Generator, GetHandler, handle_tcp_data}
use pico_common.Tcp.Session.{Tcp, Handler}
use pico_common.Tcp.Lifecycle.{
  Global, Opens, tcp_server_start_timeout, tcp_server_stop,
  tcp_server_default_wifi_connect_timeout_ms,
}

-- `on_tcp_data_recived` as a function of the pages and the handler of the time of the call.
abbrev pub OnData : Type 0
OnData = List (UrlItem Generator) → Option GetHandler → Handler

abbrev pub max_header_size : ℕ
max_header_size = 128

-- What the server sets before it starts.
abbrev pub prepared : Tcp → Global OnData → Global OnData
prepared env g = record g {
  tcp_server_max_read_size = max_header_size;
  tcp_server_on_data_recived = some (handle_tcp_data env);
}

unfoldable pub http_server_start_timeout :
    Tcp → Answers → Opens → Start → ℕ → Global OnData → Global OnData × ℕ
unfolding tcp_server_start_timeout
http_server_start_timeout env a o x host_port g =
    tcp_server_start_timeout a o x host_port (prepared env g)

unfoldable pub http_server_start :
    Tcp → Answers → Opens → List ℕ → List ℕ → List ℕ → ℕ → Global OnData → Global OnData × ℕ
unfolding http_server_start_timeout
http_server_start env a o wifi_ssid wifi_password hostname host_port g =
    http_server_start_timeout env a o
      (record {
        wifi_ssid = wifi_ssid;
        wifi_password = wifi_password;
        hostname = hostname;
        wifi_connect_timeout_ms = tcp_server_default_wifi_connect_timeout_ms;
      })
      host_port g

unfoldable pub http_server_stop : Global OnData → Option (Global OnData × ℕ)
unfolding tcp_server_stop
http_server_stop g = tcp_server_stop g
