-- ===== src/Http/Response.antt =====
-- http_server/http_server.c: the answers it sends, from its buffers on the stack.
pub mod Written
pub mod Delivered
use pico_common.Common.{
  ℕ, ◌-◌, List, [], Bool, true, false, Option, none, some, ltb, if◌then◌else◌, ◌>>=◌, take,
  replicate, overwrite, load_bytes,
}
use pico_common.Http.Text.{
  Search, at, missing, over_read, find_first_index, c_string, snprintf, http_response_headers,
  http_response_not_found_header, not_found_body,
}
use pico_common.Tcp.Session.{Err, ok, abrt, clsd, is_ok, Session, Tcp, Step, tcp_server_send_data}

-- `tcp_server_send_data(connection, data, data_len)`, where `data` is an array.
unfoldable pub send_array : Tcp → Session → List ℕ → ℕ → Step
unfolding tcp_server_send_data
send_array env s data_ data_len =
    load_bytes data_ 0 data_len >>= λ bytes. tcp_server_send_data env s bytes

-- Both are sent, whatever comes of the first; `join` makes one status of the two.
unfoldable pub send_both : Tcp → Session → (Err → Err → Err) → List ℕ × ℕ → List ℕ × ℕ → Step
unfolding send_array
send_both env s join (header, header_len) (body, body_len) =
    send_array env s header header_len >>= λ (s1, err_header).
    send_array env s1 body body_len >>= λ (s2, err_body). some (s2, join err_header err_body)

abbrev pub first_error : Err → Err → Err
first_error header body = if is_ok header then body else header

abbrev pub ok_or_abrt : Err → Err → Err
ok_or_abrt header body =
    let second = if is_ok body then ok else abrt in if is_ok header then second else abrt

unfoldable pub html_server_send_get_responce : Tcp → Session → List ℕ → ℕ → Step
unfolding send_both snprintf http_response_headers
html_server_send_get_responce env s data_ data_len =
    let header = snprintf 128 (http_response_headers data_len) in
    let sent = send_both env s first_error header (data_, data_len) in
    if ltb (128 - 1) header.1 then some (s, clsd) else sent

-- `small_request_copy`, of 128 zeros before.
unfoldable pub small_request_copy : List ℕ → Search → Option (List ℕ)
small_request_copy request (at i) = some (overwrite (replicate 128 0) 0 (take i request))
small_request_copy request missing = some (replicate 128 0)
small_request_copy request over_read = none

unfoldable pub http_send_404 : Tcp → Session → List ℕ → Step
unfolding send_both snprintf small_request_copy find_first_index http_response_not_found_header
    not_found_body c_string
http_send_404 env s request =
    small_request_copy request (find_first_index request b' ' 128) >>= λ copy.
    c_string copy >>= λ url.
    let body = snprintf 4096 (not_found_body url) in
    let header = snprintf 128 (http_response_not_found_header body.1) in
    send_both env s ok_or_abrt header body
