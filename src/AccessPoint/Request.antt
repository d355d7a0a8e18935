-- ===== src/AccessPoint/Request.antt =====
-- ap_website/picow_access_point.c and ap_website/url_collection.cpp: what a packet of a client comes to.
-- The request lies in the connection's own header buffer, which the answer's header overwrites.
use pico_common.Common.{
  ℕ, ◌+◌, ◌-◌, List, [], ◌∷◌, ◌++◌, Option, none, some, ltb, ◌==◌, if◌then◌else◌, ◌>>=◌, length,
  take, overwrite, copy_partial,
}
use pico_common.Net.{Ip4}
use pico_common.Http.Text.{
  codes, print_d, c_string, find_first_index, strncmp_eq, http_response_headers,
  http_response_not_found_header, not_found_body,
}
use pico_common.Http.Url.{UrlItem, find_handeler, generator_of}
use pico_common.Http.Response.{small_request_copy}
use pico_common.Http.Request.{parse_request}
use pico_common.Tcp.Session.{Err, ok, clsd, Tcp}
use pico_common.AccessPoint.{is_default_requests}
use pico_common.AccessPoint.Connection.{
  max_header_size, max_data_size, Con, Session, Step, state_buffer, tcp_close_client_connection,
  write_or_close, if_ok,
}

-- `html_page_generator_func_t`, with the code that it stores in `*write_error_code`.
abbrev pub Generator : Type 0
Generator = Option (List ℕ) → Session → Step

-- `ap_get_handeler_func_t`. The last component is `none` where it answers false.
abbrev pub GetHandler : Type 0
GetHandler = List ℕ → Option (List ℕ) → Session → Option (Session × Option Err)

-- What the program sets: the registered pages, `get_handler` and `default_url`.
pub record Site : Type 0 where
  pub pages : List (UrlItem Generator)
  pub get_handler : Option GetHandler
  pub default_url : List ℕ

-- `snprintf` into an array that is not cleared: the text as far as it fits, and a zero.
unfoldable pub snprintf_into : List ℕ → ℕ → List ℕ → List ℕ
snprintf_into buf size text = overwrite buf 0 (take (size - 1) text ++ 0 ∷ [])

-- `ipaddr_ntoa`.
abbrev pub ipaddr_ntoa : Ip4 → List ℕ
ipaddr_ntoa ip =
    print_d ip.a ++ (b'.' ∷ (print_d ip.b ++ (b'.' ∷ (print_d ip.c ++ (b'.' ∷ print_d ip.d)))))

unfoldable pub http_response_redirect_header : Ip4 → List ℕ → List ℕ
unfolding print_d
http_response_redirect_header gw url =
    codes "HTTP/1.1 302 Redirect\nServer: PICOW (RP2040)\nLocation: http://"
    ++ (ipaddr_ntoa gw ++ (url ++ codes "\n\n"))

-- `sizeof(NOT_FOUND_BODY)`: the format with its `%s`, and its zero.
abbrev pub not_found_size : ℕ
not_found_size = 213

-- The header and, if there is one, the body are written from the state's buffers.
unfoldable pub send_result : Tcp → Session → Con → Step
unfolding write_or_close
send_result env s con =
    let con' = record con { sent_len = 0 } in
    let s' = record s { con = some con' } in
    write_or_close env s' state_buffer con'.headers con'.header_len
    >>= if_ok (λ s1.
      if con'.result_len == 0
      then some (s1, ok)
      else write_or_close env s1 state_buffer con'.result con'.result_len)

-- The state with the header of an answer that is there already.
abbrev pub with_header : Con → List ℕ → Con
with_header con text = record con {
  headers = snprintf_into con.headers max_header_size text;
  header_len = length text;
}

unfoldable pub send_page : Tcp → Session → Con → Step
unfolding send_result tcp_close_client_connection http_response_headers snprintf_into
send_page env s con =
    let con' = with_header con (http_response_headers con.result_len) in
    if ltb (max_header_size - 1) con'.header_len
    then tcp_close_client_connection env (record s { con = some con' }) clsd
    else send_result env s con'

unfoldable pub not_found : Con → List ℕ → Con
unfolding not_found_body http_response_not_found_header snprintf_into
not_found con url =
    let body = not_found_body url in
    let con' = record con {
      result = snprintf_into con.result not_found_size body;
      result_len = length body;
    } in
    with_header con' (http_response_not_found_header (length body))

unfoldable pub send_not_found : Tcp → Session → Con → List ℕ → Step
unfolding send_result not_found small_request_copy find_first_index c_string
send_not_found env s con request =
    small_request_copy request (find_first_index request b' ' max_header_size) >>= λ copy.
    c_string copy >>= λ url. send_result env s (not_found con url)

unfoldable pub send_redirect : Tcp → Site → Session → Con → Step
unfolding send_result http_response_redirect_header snprintf_into
send_redirect env site s con =
    send_result env s (with_header con (http_response_redirect_header con.gw site.default_url))

-- What the state asks for, where neither a page nor the handler has answered.
unfoldable pub choose_default : Tcp → Site → Session → List ℕ → Con → Step
unfolding send_page send_redirect send_not_found is_default_requests tcp_close_client_connection
choose_default env site s request con =
    let other = is_default_requests request >>= λ is_default.
    if is_default then send_redirect env site s con else send_not_found env s con request in
    if ltb (max_data_size - 1) con.result_len
    then tcp_close_client_connection env s clsd
    else if ltb 0 con.result_len
    then send_page env s con
    else other

-- The rest of `http_get_generate`.
unfoldable pub send_default : Tcp → Site → Session → List ℕ → Step
unfolding choose_default
send_default env site s request = s.con >>= choose_default env site s request

unfoldable pub after_handler : Tcp → Site → List ℕ → Session × Option Err → Step
unfolding send_default
after_handler env site request (s, some e) = some (s, e)
after_handler env site request (s, none) = send_default env site s request

unfoldable pub try_handler :
    Tcp → Site → Option GetHandler → List ℕ → Option (List ℕ) → Session → Step
unfolding after_handler
try_handler env site none request params s = send_default env site s request
try_handler env site (some h) request params s =
    h request params s >>= after_handler env site request

unfoldable pub answer_page :
    Tcp → Site → List ℕ → Option (List ℕ) → Session → Option Generator → Step
unfolding try_handler
answer_page env site request params s (some g) = g params s
answer_page env site request params s none = try_handler env site site.get_handler request params s

-- `create_html_page` of the access point: only the pages whose text begins the request.
unfoldable pub create_html_page : List ℕ → List (UrlItem Generator) → Option (Option Generator)
unfolding find_handeler
create_html_page request pages =
    find_handeler request pages >>= λ handeler. some (generator_of handeler)

unfoldable pub http_get_generate : Tcp → Site → Session → List ℕ → Option (List ℕ) → Step
unfolding create_html_page answer_page
http_get_generate env site s request params =
    create_html_page request site.pages >>= answer_page env site request params s

-- The request is cut in the header buffer.
unfoldable pub handle_get : Tcp → Site → Session → Con → List ℕ → Step
unfolding parse_request http_get_generate
handle_get env site s con headers = parse_request headers >>= λ (request, params).
    let con' = record con { headers = take 4 headers ++ request } in
    http_get_generate env site (record s { con = some con' }) request params

-- The end of `ap_tcp_server_recv`.
unfoldable pub finish : ℕ → Session → Step
finish total s =
    if s.pcb
    then some (record s { received = s.received + total; packets = s.packets - 1 }, ok)
    else none

-- A packet, copied into the header buffer.
unfoldable pub receive_into : Tcp → Site → Session → List ℕ → Con → Step
unfolding handle_get strncmp_eq finish
receive_into env site s p con =
    let n = if ltb (max_header_size - 1) (length p) then max_header_size - 1 else length p in
    let headers = copy_partial p n con.headers in
    let s' = record s { con = some (record con { headers = headers }) } in
    strncmp_eq (codes "GET") headers >>= λ is_get.
    (if is_get then handle_get env site s' con headers else some (s', ok))
    >>= if_ok (finish (length p))

unfoldable pub receive : Tcp → Site → Session → List ℕ → Step
unfolding receive_into
receive env site s p = s.con >>= receive_into env site s p

abbrev pub free_empty : Session → Step
free_empty s = some (record s { packets = s.packets - 1 }, ok)

-- `ap_tcp_server_recv`; no packet means that the peer has closed.
unfoldable pub ap_tcp_server_recv : Tcp → Site → Session → Option (List ℕ) → Step
unfolding tcp_close_client_connection receive
ap_tcp_server_recv env site s none = tcp_close_client_connection env s ok
ap_tcp_server_recv env site s (some p) =
    let s' = record s { packets = s.packets + 1 } in
    if length p == 0 then free_empty s' else receive env site s' p
