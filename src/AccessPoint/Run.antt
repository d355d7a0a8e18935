-- ===== src/AccessPoint/Run.antt =====
-- ap_website/picow_access_point.c: what lwIP reports of one connection, in sequence.
pub mod Pages
pub mod Safe
pub mod Accepted
pub mod Closing
use pico_common.Common.{ℕ, true, false, List, [], ◌∷◌, Option, none, some, if◌then◌else◌, ◌>>=◌}
use pico_common.Tcp.Session.{Err, ok, Tcp, Event, acked, arrived, peer_closed, timed_out, broken}
use pico_common.AccessPoint.Connection.{
  Session, Step, ap_tcp_server_sent, ap_tcp_server_poll, ap_tcp_server_err,
}
use pico_common.AccessPoint.Request.{Site, ap_tcp_server_recv}

-- The callback of a report.
unfoldable pub callback : Tcp → Site → Session → Event → Step
unfolding ap_tcp_server_sent ap_tcp_server_recv ap_tcp_server_poll ap_tcp_server_err
callback env site s (acked n) = ap_tcp_server_sent env s n
callback env site s (arrived p) = ap_tcp_server_recv env site s (some p)
callback env site s peer_closed = ap_tcp_server_recv env site s none
callback env site s timed_out = ap_tcp_server_poll env s
callback env site s (broken e) =
    ap_tcp_server_err env (record s { pcb = false; callbacks = false }) e

-- One report. Nothing is reported where the callbacks are not registered.
unfoldable pub on_event : Tcp → Site → Session → Event → Step
unfolding callback
on_event env site s ev = if s.callbacks then callback env site s ev else some (s, ok)

-- All of them, in order.
unfoldable pub run : Tcp → Site → Session → List Event → Option Session
unfolding on_event
run env site s [] = some s
run env site s (e ∷ es) = on_event env site s e >>= λ (s', _). run env site s' es
