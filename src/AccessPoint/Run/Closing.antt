-- ===== src/AccessPoint/Run/Closing.antt =====
-- ap_website/picow_access_point.c: when acknowledgements close a connection.
use pico_common.Common.{
  ℕ, ◌+◌, ◌%◌, ◌^◌, ◌≤◌, ◌<◌, ◌≡◌, refl, List, [], ◌∷◌, false, none, some, arith, inl, inr, leb,
  if◌then◌else◌, ◌>>=◌, Bool-cases, leb_false→lt,
}
use pico_common.Tcp.Session.{ok, Tcp, Event, acked}
use pico_common.AccessPoint.Connection.{
  Con, Session, tcp_close_client_connection, ap_tcp_server_sent,
}
use pico_common.AccessPoint.Request.{Site}
use pico_common.AccessPoint.Safety.{IsOpen, close_lem}
use pico_common.AccessPoint.Run.{callback, on_event, run}

-- Acknowledgements of so many bytes each, and of so many altogether.
abbrev pub acks : List ℕ → List Event
acks [] = []
acks (n ∷ ns) = acked n ∷ acks ns

abbrev pub sum : List ℕ → ℕ
sum [] = 0
sum (n ∷ ns) = n + sum ns

abbrev pub answer_len : Con → ℕ
answer_len con = con.header_len + con.result_len

abbrev after_ack : Con → ℕ → Con
after_ack con n = record con { sent_len = con.sent_len + n }

acked_lem :
    (env : Tcp) (site : Site) (s : Session) (n : ℕ) (o : IsOpen s)
    → answer_len o.state < 2 ^ 32
    → o.state.sent_len + n < 2 ^ 32
    → on_event env site s (acked n) ≡ (
        if leb (answer_len o.state) (o.state.sent_len + n)
        then tcp_close_client_connection env (record s { con = some (after_ack o.state n) }) ok
        else some (record s { con = some (after_ack o.state n) }, ok))
unfolding on_event callback ap_tcp_server_sent
acked_lem env site s n o small fits =
    let whole : answer_len o.state % 2 ^ 32 ≡ answer_len o.state = omega arith in
    let sum_fits : (o.state.sent_len + n) % 2 ^ 32 ≡ o.state.sent_len + n = omega arith in
    rw (o.listens, o.held, ◌>>=◌, whole, sum_fits) refl

deaf-on_event :
    (env : Tcp) (site : Site) (s : Session) (n : ℕ)
    → s.callbacks ≡ false
    → on_event env site s (acked n) ≡ some (s, ok)
unfolding on_event
deaf-on_event env site s n deaf = simp (deaf)

deaf_lem :
    (env : Tcp) (site : Site) (s : Session) (ns : List ℕ)
    → s.callbacks ≡ false
    → run env site s (acks ns) ≡ some s
unfolding run
deaf_lem env site s [] deaf = refl
deaf_lem env site s (n ∷ ns) deaf =
    rw (deaf-on_event env site s n deaf, ◌>>=◌) (deaf_lem env site s ns deaf)

-- Once the acknowledgements of an open connection reach the length of the answer's header and result, the
-- connection is closed, its state freed, and nothing is reported of it any more: here for an answer of
-- which less than that was acknowledged before.
pub run-acks :
    (env : Tcp) (site : Site) (ns : List ℕ) (s : Session) (o : IsOpen s)
    → answer_len o.state < 2 ^ 32
    → o.state.sent_len + sum ns < 2 ^ 32
    → o.state.sent_len < answer_len o.state
    → answer_len o.state ≤ o.state.sent_len + sum ns
    → run env site s (acks ns) ≡ some (record s { con = none; pcb = false; callbacks = false })
unfolding run
run-acks env site [] s o small fits open_still enough = absurd (omega arith)
run-acks env site (n ∷ ns) s o small fits open_still enough =
    elim (Bool-cases (leb (answer_len o.state) (o.state.sent_len + n))) [
      | inl done ↦
          rw (acked_lem env site s n o small (omega arith), done, close_lem env s' ok o', ◌>>=◌)
            (deaf_lem env site (record s { con = none; pcb = false; callbacks = false }) ns refl)
      | inr more ↦
          rw (acked_lem env site s n o small (omega arith), more, ◌>>=◌)
            (run-acks env site ns s' o' small (omega arith)
              (leb_false→lt (answer_len o.state) (o.state.sent_len + n) more) (omega arith))
    ]
  where
    s' : Session
    s' = record s { con = some (after_ack o.state n) }

    o' : IsOpen s'
    o' = record {
      state = after_ack o.state n;
      held = refl;
      pcb_held = o.pcb_held;
      listens = o.listens;
      sound = record { headers_end = o.sound.headers_end; result_size = o.sound.result_size };
    }
