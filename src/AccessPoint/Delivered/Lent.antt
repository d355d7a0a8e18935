-- ===== src/AccessPoint/Delivered/Lent.antt =====
-- ap_website/picow_access_point.c: the arrays that a page's answer leaves lwIP to read.
use pico_common.Tcp.Session.{Tcp}
use pico_common.AccessPoint.Connection.{Session}
