-- ===== src/Tcp/Session.antt =====
-- http_server/tcp_server.c: one client's connection, through the callbacks that lwIP makes.
-- The connection's state lives in memory that is freed when it is closed, and lwIP frees the protocol
-- control block before it reports an error: any use after that, and any second free, is a fault.
pub mod Safety
use pico_common.Common.{
  ℕ, ◌+◌, ◌-◌, ◌%◌, ◌^◌, List, [], ◌∷◌, ◌++◌, Bool, true, false, Option, none, some, leb, ltb, ◌==◌,
  if◌then◌else◌, ◌>>=◌, length, take, overwrite, copy_partial,
}

pub data Err : Type 0 where
  ok mem val abrt clsd : Err
  other : ℕ → Err

abbrev pub is_ok : Err → Bool
is_ok ok = true
is_ok mem = false
is_ok val = false
is_ok abrt = false
is_ok clsd = false
is_ok (other n) = false

abbrev pub is_abrt : Err → Bool
is_abrt abrt = true
is_abrt ok = false
is_abrt mem = false
is_abrt val = false
is_abrt clsd = false
is_abrt (other n) = false

-- `TCP_CONNECT_STATE_T`, without the control block that it points to.
pub record Con : Type 0 where
  pub written_len : ℕ
  pub sent_len : ℕ
  pub dont_close_on_send_finish : Bool

-- A connection: its state, until it is freed; whether its control block exists; whether the
-- callbacks are registered with it; what was handed to `tcp_write`, and to `tcp_recved`; and how many of the
-- packets that lwIP handed over were not freed.
pub record Session : Type 0 where
  pub con : Option Con
  pub pcb : Bool
  pub callbacks : Bool
  pub written : List (List ℕ)
  pub received : ℕ
  pub packets : ℕ

-- What `tcp_close`, `tcp_write` and `calloc` answer. `write_err n` is the answer to a write of `n`
-- bytes.
pub record Tcp : Type 0 where
  pub close_err : Err
  pub write_err : ℕ → Err
  pub calloc_ok : Bool

-- `none` is a use of memory that is not the program's.
abbrev pub Step : Type 0
Step = Option (Session × Err)

-- `tcp_close_client_connection(con_state, con_state->pcb, close_err)`.
unfoldable pub tcp_close_client_connection : Tcp → Session → Err → Step
tcp_close_client_connection env s close_err = s.con >>= λ con.
    let closed = record s { con = none; pcb = false; callbacks = false } in
    let status = if is_ok env.close_err then close_err else abrt in
    if s.pcb then some (closed, status) else none

-- `tcp_server_accept`, for a connection that lwIP hands over without an error.
unfoldable pub tcp_server_accept : Tcp → Err → Bool → Session × Err
tcp_server_accept env err has_pcb =
    let empty : Session = record {
      con = none;
      pcb = has_pcb;
      callbacks = false;
      written = [];
      received = 0;
      packets = 0;
    } in
    let con : Con = record { written_len = 0; sent_len = 0; dont_close_on_send_finish = false } in
    let accepted : Session × Err = (record empty { con = some con; callbacks = true }, ok) in
    let made : Session × Err = if env.calloc_ok then accepted else (empty, mem) in
    if is_ok err then if has_pcb then made else (empty, val) else (empty, val)

-- `tcp_server_send_data`, where `data_len` is the length of `bytes`. The length that `tcp_write` takes is a
-- `u16_t`; sums of `size_t` are taken mod 2 ^ 32.
unfoldable pub tcp_server_send_data : Tcp → Session → List ℕ → Step
tcp_server_send_data env s bytes = s.con >>= λ con.
    let con' = record con { written_len = (con.written_len + length bytes) % 2 ^ 32 } in
    let taken = take (length bytes % 2 ^ 16) bytes in
    let err = env.write_err (length bytes % 2 ^ 16) in
    let kept = if is_ok err then s.written ++ taken ∷ [] else s.written in
    if s.pcb then some (record s { con = some con'; written = kept }, err) else none

-- `tcp_server_sent`: `len` more bytes have been acknowledged.
unfoldable pub tcp_server_sent : Tcp → Session → ℕ → Step
unfolding tcp_close_client_connection
tcp_server_sent env s len = s.con >>= λ con.
    let con' = record con { sent_len = (con.sent_len + len) % 2 ^ 32 } in
    let s' = record s { con = some con' } in
    let finished =
      if con'.dont_close_on_send_finish
      then tcp_close_client_connection env s' ok
      else some (s', ok) in
    if leb con'.written_len con'.sent_len then finished else some (s', ok)

-- `tcp_server_on_data_recived`: a handler is given the bytes of its buffer, and how many of them
-- were read.
abbrev pub Handler : Type 0
Handler = List ℕ → ℕ → Session → Step

-- After the handler: an error closes the connection, else the bytes are acknowledged to lwIP and the packet is
-- freed.
unfoldable pub after_data : Tcp → ℕ → Session × Err → Step
unfolding tcp_close_client_connection
after_data env total (s, err) =
    let taken =
      if s.pcb
      then some (record s { received = s.received + total; packets = s.packets - 1 }, ok)
      else none in
    if is_ok err then taken else tcp_close_client_connection env s err

-- `tcp_server_recv` with a packet of a non-empty total length. `buffer` is the array on the stack,
-- of `tcp_server_max_read_size` bytes, before the packet is copied into it.
unfoldable pub receive : Tcp → Option Handler → List ℕ → Session → List ℕ → Step
unfolding after_data
receive env none buffer s p = after_data env (length p) (s, ok)
receive env (some handler) buffer s p =
    let bytes = copy_partial p (length buffer - 1) buffer in
    handler bytes (length (take (length buffer - 1) p)) s >>= λ r. after_data env (length p) r

abbrev pub is_empty : List ℕ → Bool
is_empty [] = true
is_empty (x ∷ xs) = false

-- `tcp_server_recv`; no packet means that the peer has closed.
unfoldable pub tcp_server_recv : Tcp → Option Handler → List ℕ → Session → Option (List ℕ) → Step
unfolding tcp_close_client_connection receive
tcp_server_recv env handler buffer s none = tcp_close_client_connection env s ok
tcp_server_recv env handler buffer s (some p) =
    let s' = record s { packets = s.packets + 1 } in
    if is_empty p
    then some (record s' { packets = s'.packets - 1 }, ok)
    else receive env handler buffer s' p

unfoldable pub tcp_server_poll_event : Tcp → Session → Step
unfolding tcp_close_client_connection
tcp_server_poll_event env s = tcp_close_client_connection env s ok

-- `tcp_server_err`. lwIP has freed the control block when it makes this call.
unfoldable pub tcp_server_err : Tcp → Session → Err → Step
unfolding tcp_close_client_connection
tcp_server_err env s err =
    if is_abrt err then some (s, err) else tcp_close_client_connection env s err

-- What lwIP reports of a connection.
pub data Event : Type 0 where
  acked : ℕ → Event
  arrived : List ℕ → Event
  peer_closed timed_out : Event
  broken : Err → Event

-- One report. Nothing is reported where the callbacks are not registered.
unfoldable pub on_event : Tcp → Option Handler → List ℕ → Session → Event → Step
unfolding tcp_server_sent tcp_server_recv tcp_server_poll_event tcp_server_err
on_event env handler buffer s (acked n) =
    if s.callbacks then tcp_server_sent env s n else some (s, ok)
on_event env handler buffer s (arrived p) =
    if s.callbacks then tcp_server_recv env handler buffer s (some p) else some (s, ok)
on_event env handler buffer s peer_closed =
    if s.callbacks then tcp_server_recv env handler buffer s none else some (s, ok)
on_event env handler buffer s timed_out =
    if s.callbacks then tcp_server_poll_event env s else some (s, ok)
on_event env handler buffer s (broken e) =
    if s.callbacks
    then tcp_server_err env (record s { pcb = false; callbacks = false }) e
    else some (s, ok)

-- All of them, in order.
unfoldable pub run : Tcp → Option Handler → List ℕ → Session → List Event → Option Session
unfolding on_event
run env handler buffer s [] = some s
run env handler buffer s (e ∷ es) =
    on_event env handler buffer s e >>= λ (s', _). run env handler buffer s' es
