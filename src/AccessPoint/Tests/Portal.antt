-- ===== src/AccessPoint/Tests/Portal.antt =====
-- ap_website/picow_access_point.c: a client that joins a running access point.
use pico_common.Common.{◌≡◌, refl, ◌∷◌, [], ◌++◌, true, none, some, arith, inr, ap, get_elem?}
use pico_common.Net.{pbuf_alloc, udp_sendto, pbuf_free, reply, request}
use pico_common.Http.Text.{codes}
use pico_common.Tcp.Session.{ok, arrived}
use pico_common.Dhcp.Leases.Choosing.{or_else}
use pico_common.Dhcp.Run.{handle}
use pico_common.Dhcp.Handshake.{offered, sends}
use pico_common.Dhcp.Tests.{lwip, mac}
use pico_common.Dhcp.Tests.Handshake.{sent_by, discover-IsFrom}
use pico_common.Dns.Process.{dns_server_process}
use pico_common.Dns.Process.Query.{query_bytes, response_bytes}
use pico_common.Dns.Tests.{client, query, stack, query-IsStandard}
use pico_common.AccessPoint.Connection.{Session, tcp_server_accept}
use pico_common.AccessPoint.Request.{Site}
use pico_common.AccessPoint.Run.{run}
use pico_common.AccessPoint.Lifecycle.{TcpServer, Answers, access_point_init}
use pico_common.AccessPoint.Portal.{IsPortalRequest}
use pico_common.AccessPoint.Portal.Captive.{AllGranted, own_address, redirect_text, captive_portal}
use pico_common.AccessPoint.Tests.{tcp, off}

-- A site with one page.
abbrev one_page : Site
one_page = record {
  pages = record { addr = 7; url = codes "/status"; html_generator_func = none } ∷ [];
  get_handler = none;
  default_url = codes "/index.html";
}

one_page-IsPortalRequest : IsPortalRequest one_page (codes "/redirect HTTP/1.1")
one_page-IsPortalRequest = record {
  plain = ground arith;
  zeroless = ground arith;
  is_default = inr (inr (codes " HTTP/1.1", refl));
  unlisted = (
    (λ (more, e).
        let second : 114 ≡ 115 = ap (λ l. or_else (get_elem? l 1) 0) e in absurd (omega arith)),
    tt,
  );
}

abbrev pub all : Answers
all = record {
  calloc_ok = true;
  arch_init_ok = true;
  dhcp_new_ok = true;
  dhcp_bind_ok = true;
  dns_new_ok = true;
  dns_bind_ok = true;
  new_ok = true;
  bind_ok = true;
  listen_ok = true;
}

all-AllGranted : AllGranted all
all-AllGranted = record {
  well = (refl, refl, refl, refl, refl);
  dhcp_new = refl;
  dhcp_bind = refl;
  dns_new = refl;
  dns_bind = refl;
}

captive_portal_example :
    let g' = (access_point_init all off).0 in
    ((access_point_init all off).1 ≡ 0)
    × (handle g'.dhcp_server (sent_by mac 1)
        ≡ some
            (offered g'.dhcp_server (sent_by mac 1) mac, sends g'.dhcp_server (sent_by mac 1) 0 2))
    × (dns_server_process lwip stack g'.dns_server (query_bytes query) client 5353
        ≡ some (
            pbuf_alloc 42
            ∷ udp_sendto (response_bytes g'.dns_server query) client 5353
            ∷ pbuf_free reply
            ∷ pbuf_free request
            ∷ []))
    × (g'.dhcp_server.ip ≡ own_address)
    × (g'.dns_server.ip ≡ own_address)
    × ((server : TcpServer) × (g'.state ≡ some server)
        × (s' : Session) × (run tcp one_page
              (tcp_server_accept tcp server.gw ok true).0
              (arrived (codes "GET " ++ codes "/redirect HTTP/1.1") ∷ [])
            ≡ some s')
        × (s'.written ≡ redirect_text (codes "/index.html") ∷ []))
captive_portal_example =
    captive_portal all off all-AllGranted (sent_by mac 1) mac lwip stack query client 5353 tcp
      one_page (codes "/redirect HTTP/1.1") discover-IsFrom (ground arith) refl query-IsStandard
      refl (λ n. refl) refl refl one_page-IsPortalRequest (ground arith)
