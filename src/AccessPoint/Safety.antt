-- ===== src/AccessPoint/Safety.antt =====
-- ap_website/picow_access_point.c: the memory that the steps of a connection use.
pub mod Answers
use pico_common.Common.{
  ℕ, zero, suc, ◌+◌, ◌-◌, ◌%◌, ◌^◌, ◌≤◌, ◌<◌, ◌≡◌, ◌≢◌, refl, sym, ◌∙◌, ap, ◌⊎◌, inl, inr, List, [],
  ◌∷◌, ◌++◌, Bool, true, false, Option, none, some, arith, ltb, leb, ◌==◌, if◌then◌else◌, ◌>>=◌,
  length, take, replicate, overwrite, load_bytes, load_bytes-eq-take, Bool-cases, ltb→lt,
  le→ltb_false, length-overwrite,
}
use pico_common.Net.{Ip4}
use pico_common.Http.Text.{snprintf, http_response_headers}
use pico_common.Http.Response.Written.{length-http_response_headers, length-replicate}
use pico_common.Tcp.Session.{Err, ok, mem, val, abrt, clsd, is_ok, is_abrt, Tcp}
use pico_common.AccessPoint.Connection.{
  max_header_size, max_data_size, Con, Session, Step, Memory, local_array,
  tcp_close_client_connection, write_or_close, if_ok, ap_tcp_write, ap_send_get_responce,
  ap_tcp_server_sent, ap_tcp_server_poll, ap_tcp_server_err,
}
use pico_common.Http.Request.Closed.{EndsZero}

-- The buffers have their sizes, and that of the headers ends in a zero.
pub record IsSound (con : Con) : Type 0 where
  pub headers_end : EndsZero 127 con.headers
  pub result_size : length con.result ≡ max_data_size

-- The connection is open, and all of its memory is the program's.
pub record IsOpen (s : Session) : Type 0 where
  pub state : Con
  pub held : s.con ≡ some state
  pub pcb_held : s.pcb ≡ true
  pub listens : s.callbacks ≡ true
  pub sound : IsSound state

-- The connection is open, or nothing will be reported of it any more.
abbrev pub IsSafe : Session → Type 0
IsSafe s = IsOpen s ⊎ (s.callbacks ≡ false)

-- A step that faults nowhere, and leaves the connection open where it succeeds.
pub data Sound : Step → Type 0 where
  goes_on : (s : Session) (e : Err) → is_ok e ≡ true → IsOpen s → Sound (some (s, e))
  gives_up : (s : Session) (e : Err) → is_ok e ≡ false → IsSafe s → Sound (some (s, e))

pub Sound-if_ok :
    {r : Step} (next : Session → Step)
    → Sound r
    → ((s : Session) → IsOpen s → Sound (next s))
    → Sound (r >>= if_ok next)
Sound-if_ok next (goes_on s e fine o) h = rw fine (h s o)
Sound-if_ok next (gives_up s e bad safe) h = rw bad (gives_up s e bad safe)

-- The same connection with another state whose buffers are sound.
pub with_con-IsOpen :
    (s : Session) (con : Con) → IsOpen s → IsSound con → IsOpen (record s { con = some con })
with_con-IsOpen s con o sound = record {
  state = con;
  held = refl;
  pcb_held = o.pcb_held;
  listens = o.listens;
  sound = sound;
}

pub close_lem :
    (env : Tcp) (s : Session) (e : Err)
    → IsOpen s
    → tcp_close_client_connection env s e
      ≡ some (
        record s { con = none; pcb = false; callbacks = false },
        if is_ok env.close_err then e else abrt,
      )
unfolding tcp_close_client_connection
close_lem env s e o = rw (o.held, o.pcb_held)

close_status :
    (env : Tcp) (e : Err)
    → is_ok e ≡ false
    → is_ok (if is_ok env.close_err then e else abrt) ≡ false
close_status env e bad = elim (Bool-cases (is_ok env.close_err)) [
  | inl fine ↦ rw fine bad
  | inr broken ↦ rw broken refl
]

pub close-Sound :
    (env : Tcp) (s : Session) (e : Err)
    → IsOpen s
    → is_ok e ≡ false
    → Sound (tcp_close_client_connection env s e)
close-Sound env s e o bad = rw (close_lem env s e o) (
    gives_up (record s { con = none; pcb = false; callbacks = false })
      (if is_ok env.close_err then e else abrt) (close_status env e bad) (inr refl))

pub write_lem :
    (env : Tcp) (s : Session) (memory : Memory) (buf : List ℕ) (len n : ℕ)
    → IsOpen s
    → len % 2 ^ 16 ≡ n
    → n ≤ length buf
    → is_ok (env.write_err n) ≡ true
    → write_or_close env s memory buf len
      ≡ some (record s { written = s.written ++ take n buf ∷ []; lent = s.lent ++ memory ∷ [] }, ok)
unfolding write_or_close
write_lem env s memory buf len n o cut room fine =
    rw (cut, o.held, load_bytes-eq-take buf 0 n (omega arith), o.pcb_held, ◌>>=◌, fine) refl

write_refused :
    (env : Tcp) (s : Session) (memory : Memory) (buf : List ℕ) (len n : ℕ)
    → IsOpen s
    → len % 2 ^ 16 ≡ n
    → n ≤ length buf
    → is_ok (env.write_err n) ≡ false
    → write_or_close env s memory buf len ≡ tcp_close_client_connection env s (env.write_err n)
unfolding write_or_close
write_refused env s memory buf len n o cut room bad =
    rw (cut, o.held, load_bytes-eq-take buf 0 n (omega arith), o.pcb_held, ◌>>=◌, bad) refl

pub written-IsOpen :
    (s : Session) (texts : List (List ℕ)) (lent : List Memory)
    → IsOpen s
    → IsOpen (record s { written = texts; lent = lent })
written-IsOpen s texts lent o = record {
  state = o.state;
  held = o.held;
  pcb_held = o.pcb_held;
  listens = o.listens;
  sound = o.sound;
}

pub write_or_close-Sound :
    (env : Tcp) (s : Session) (memory : Memory) (buf : List ℕ) (len : ℕ)
    → IsOpen s
    → len ≤ length buf
    → Sound (write_or_close env s memory buf len)
write_or_close-Sound env s memory buf len o room = elim (Bool-cases (is_ok (env.write_err n))) [
  | inl fine ↦ rw (write_lem env s memory buf len n o refl (omega (arith, room)) fine) (
      goes_on (record s { written = s.written ++ take n buf ∷ []; lent = s.lent ++ memory ∷ [] }) ok
        refl (written-IsOpen s (s.written ++ take n buf ∷ []) (s.lent ++ memory ∷ []) o))
  | inr bad ↦
      rw (write_refused env s memory buf len n o refl (omega (arith, room)) bad)
        (close-Sound env s (env.write_err n) o bad)
]
  where
    n : ℕ
    n = len % 2 ^ 16

-- The header of an answer that was printed into an array of 128 zeros is read back within it.
pub header_fits :
    (n : ℕ)
    → (snprintf max_header_size (http_response_headers n)).1
      ≤ length (snprintf max_header_size (http_response_headers n)).0
unfolding snprintf
header_fits n = omega (
  arith,
  length-http_response_headers n,
  length-overwrite (replicate 128 0) 0 (take 127 (http_response_headers n)),
  length-replicate 128,
)

pub header_short :
    (n : ℕ)
    → ltb (max_header_size - 1) (snprintf max_header_size (http_response_headers n)).1 ≡ false
unfolding snprintf
header_short n =
    le→ltb_false 127 (length (http_response_headers n))
      (omega (arith, length-http_response_headers n))

-- A page's answer with `n` bytes of an array that has them is a sound step, whatever lwIP answers.
pub ap_send_get_responce-Sound :
    (env : Tcp) (s : Session) (bytes : List ℕ) (n : ℕ)
    → IsOpen s
    → n ≤ length bytes
    → Sound (ap_send_get_responce env s bytes n)
unfolding ap_send_get_responce
ap_send_get_responce-Sound env s bytes n o room = rw (header_short n) (
    Sound-if_ok (λ s1. ap_tcp_write env s1 bytes n)
      (write_or_close-Sound env s local_array (snprintf max_header_size (http_response_headers n)).0
        (snprintf max_header_size (http_response_headers n)).1 o (header_fits n))
      λ s1 o1. write_or_close-Sound env s1 local_array bytes n o1 room)
