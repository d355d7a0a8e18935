-- ===== src/AccessPoint/Portal/Dangling.antt =====
-- ap_website/picow_access_point.c: a connection that is closed before its answer was acknowledged.
use pico_common.Common.{false, none}
use pico_common.Tcp.Session.{Tcp}
use pico_common.AccessPoint.Connection.{Session}

abbrev closed : Session → Session
closed s = record s { con = none; pcb = false; callbacks = false }
