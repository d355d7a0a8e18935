-- ===== src/AccessPoint/Run/Accepted.antt =====
-- ap_website/picow_access_point.c: a connection from `tcp_server_accept` on.
use pico_common.Common.{◌≡◌, refl, List, [], Bool, true, false, none, some, inl, inr, if◌then◌else◌}
use pico_common.Net.{Ip4}
use pico_common.Tcp.Session.{Err, ok, mem, val, is_ok, Tcp, Event}
use pico_common.Tcp.Session.Safety.{AllOrdinary}
use pico_common.AccessPoint.Connection.{Session, new_con, tcp_server_accept}
use pico_common.AccessPoint.Delivered.NotFound.{IsFresh}
use pico_common.AccessPoint.Request.{Site}
use pico_common.AccessPoint.Safety.{IsSound, IsSafe}
use pico_common.AccessPoint.Run.{run}
use pico_common.AccessPoint.Run.Safe.{run-IsSafe}
use pico_common.AccessPoint.Run.Pages.{IsSoundSite}

pub new_con-IsSound : (gw : Ip4) → IsSound (new_con gw)
new_con-IsSound gw = record {
  headers_end = record { size = refl; last = refl };
  result_size = refl;
}

pub new_con-IsFresh : (gw : Ip4) → IsFresh (new_con gw)
new_con-IsFresh gw = record { sound = new_con-IsSound gw; cleared = refl; unused = refl }

-- A connection is accepted exactly where `tcp_server_accept` reports success, and then it is open.
pub tcp_server_accept-IsSafe :
    (env : Tcp) (gw : Ip4) (err : Err) (has_pcb : Bool)
    → IsSafe (tcp_server_accept env gw err has_pcb).0
unfolding tcp_server_accept
tcp_server_accept-IsSafe env gw err has_pcb = status (is_ok err) has_pcb env.calloc_ok
  where
    empty : Bool → Session
    empty b = record {
      con = none;
      pcb = b;
      callbacks = false;
      written = [];
      lent = [];
      received = 0;
      packets = 0;
    }

    accepted : Bool → Session × Err
    accepted b = (record (empty b) { con = some (new_con gw); callbacks = true }, ok)

    status :
        (fine there room : Bool)
        → IsSafe
            (if fine
              then if there
                then if room then accepted there else (empty there, mem)
                else (empty there, val)
              else (empty there, val)).0
    status true true true = inl (record {
      state = new_con gw;
      held = refl;
      pcb_held = refl;
      listens = refl;
      sound = new_con-IsSound gw;
    })
    status true true false = inr refl
    status true false room = inr refl
    status false there room = inr refl

module _ (env : Tcp) (site : Site) (ok_site : IsSoundSite site) where
  -- From the call of `tcp_server_accept`, whatever it is given, no sequence of acknowledgements, packets of
  -- any length and content, closes by the peer, time-outs and aborts, other errors left out, makes
  -- the callbacks themselves use memory that is not the program's or lies outside its arrays, whatever lwIP
  -- answers, where the pages and the handler do neither, and `default_url` has at most 17 bytes. What lwIP reads
  -- later from the arrays that it was lent is not part of this.
  pub run-tcp_server_accept :
      (gw : Ip4) (err : Err) (has_pcb : Bool) (events : List Event)
      → AllOrdinary events
      → (s' : Session) × (run env site (tcp_server_accept env gw err has_pcb).0 events ≡ some s')
        × IsSafe s'
  run-tcp_server_accept gw err has_pcb events ord =
      run-IsSafe env site ok_site events (tcp_server_accept env gw err has_pcb).0
        (tcp_server_accept-IsSafe env gw err has_pcb) ord
