-- ===== src/AccessPoint/Connection.antt =====
-- ap_website/picow_access_point.c: one client's connection, whose state holds the buffers of the request
-- and of the answer. The state is freed when the connection is closed, and lwIP frees the protocol control
-- block before it reports an error: any use after that is a fault.
use pico_common.Common.{
  ℕ, ◌+◌, ◌-◌, ◌%◌, ◌^◌, List, [], ◌∷◌, ◌++◌, Bool, true, false, Option, none, some, leb, ltb,
  if◌then◌else◌, ◌>>=◌, replicate, load_bytes,
}
use pico_common.Net.{Ip4}
use pico_common.Http.Text.{snprintf, http_response_headers}
use pico_common.Tcp.Session.{Err, ok, mem, val, abrt, clsd, is_ok, is_abrt, Tcp}

abbrev pub max_header_size : ℕ
max_header_size = 128

abbrev pub max_data_size : ℕ
max_data_size = 4096

-- `TCP_CONNECT_STATE_T`, without the control block that it points to.
pub record Con : Type 0 where
  pub sent_len : ℕ
  pub headers : List ℕ
  pub result : List ℕ
  pub header_len : ℕ
  pub result_len : ℕ
  pub gw : Ip4

-- The array that a call of `tcp_write` names: a buffer of the connection's state, or an array of the function
-- that makes the call. Without TCP_WRITE_FLAG_COPY lwIP goes on reading it until its bytes are acknowledged.
pub data Memory : Type 0 where
  state_buffer local_array : Memory

-- A connection: its state, until it is freed; whether its control block exists; whether the callbacks
-- are registered with it; for each call of `tcp_write` that lwIP took, the bytes that the array then held and
-- the array, which lwIP does not copy; the bytes given to `tcp_recved`; and how many packets lwIP handed over
-- that were not freed.
pub record Session : Type 0 where
  pub con : Option Con
  pub pcb : Bool
  pub callbacks : Bool
  pub written : List (List ℕ)
  pub lent : List Memory
  pub received : ℕ
  pub packets : ℕ

-- `none` is a use of memory that is not the program's.
abbrev pub Step : Type 0
Step = Option (Session × Err)

-- `tcp_close_client_connection(con_state, con_state->pcb, close_err)`.
unfoldable pub tcp_close_client_connection : Tcp → Session → Err → Step
tcp_close_client_connection env s close_err = s.con >>= λ con.
    let closed = record s { con = none; pcb = false; callbacks = false } in
    let status = if is_ok env.close_err then close_err else abrt in
    if s.pcb then some (closed, status) else none

-- `calloc` clears the state.
abbrev pub new_con : Ip4 → Con
new_con gw = record {
  sent_len = 0;
  headers = replicate max_header_size 0;
  result = replicate max_data_size 0;
  header_len = 0;
  result_len = 0;
  gw = gw;
}

-- `tcp_server_accept`, where `gw` is the server's address.
unfoldable pub tcp_server_accept : Tcp → Ip4 → Err → Bool → Session × Err
tcp_server_accept env gw err has_pcb =
    let empty : Session = record {
      con = none;
      pcb = has_pcb;
      callbacks = false;
      written = [];
      lent = [];
      received = 0;
      packets = 0;
    } in
    let accepted : Session × Err =
      (record empty { con = some (new_con gw); callbacks = true }, ok) in
    let made : Session × Err = if env.calloc_ok then accepted else (empty, mem) in
    if is_ok err then if has_pcb then made else (empty, val) else (empty, val)

-- `tcp_write` of the first bytes of an array, with flags 0, and what follows it where it fails. Its length is a
-- `u16_t`.
unfoldable pub write_or_close : Tcp → Session → Memory → List ℕ → ℕ → Step
unfolding tcp_close_client_connection
write_or_close env s memory buf len = s.con >>= λ con. load_bytes buf 0 (len % 2 ^ 16) >>= λ bytes.
    let err = env.write_err (len % 2 ^ 16) in
    let kept =
      some (record s { written = s.written ++ bytes ∷ []; lent = s.lent ++ memory ∷ [] }, ok) in
    let written = if is_ok err then kept else tcp_close_client_connection env s err in
    if s.pcb then written else none

-- Every caller in the repository gives it an array of its own.
unfoldable pub ap_tcp_write : Tcp → Session → List ℕ → ℕ → Step
unfolding write_or_close
ap_tcp_write env s buf data_len = write_or_close env s local_array buf data_len

-- On where the step's status is `ok`, and out with it where it is not.
abbrev pub if_ok : (Session → Step) → Session × Err → Step
if_ok next (s, e) = if is_ok e then next s else some (s, e)

unfoldable pub ap_send_get_responce : Tcp → Session → List ℕ → ℕ → Step
unfolding ap_tcp_write tcp_close_client_connection snprintf http_response_headers
ap_send_get_responce env s buf data_len =
    let header = snprintf max_header_size (http_response_headers data_len) in
    let sending =
      ap_tcp_write env s header.0 header.1 >>= if_ok (λ s1. ap_tcp_write env s1 buf data_len) in
    if ltb (max_header_size - 1) header.1 then tcp_close_client_connection env s clsd else sending

-- `ap_tcp_server_sent`: `len` more bytes have been acknowledged.
unfoldable pub ap_tcp_server_sent : Tcp → Session → ℕ → Step
unfolding tcp_close_client_connection
ap_tcp_server_sent env s len = s.con >>= λ con.
    let con' = record con { sent_len = (con.sent_len + len) % 2 ^ 32 } in
    let s' = record s { con = some con' } in
    if leb ((con.header_len + con.result_len) % 2 ^ 32) con'.sent_len
    then tcp_close_client_connection env s' ok
    else some (s', ok)

unfoldable pub ap_tcp_server_poll : Tcp → Session → Step
unfolding tcp_close_client_connection
ap_tcp_server_poll env s = tcp_close_client_connection env s ok

-- `ap_tcp_server_err`. lwIP has freed the control block when it makes this call.
unfoldable pub ap_tcp_server_err : Tcp → Session → Err → Step
unfolding tcp_close_client_connection
ap_tcp_server_err env s err =
    if is_abrt err then some (s, err) else tcp_close_client_connection env s err
