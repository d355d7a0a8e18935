-- ===== src/AccessPoint/Portal/Captive.antt =====
-- ap_website/picow_access_point.c: the three servers of the access point from the point of view of a client
-- that has just joined.
use pico_common.Common.{
  ℕ, ◌+◌, ◌≤◌, ◌≡◌, refl, ap, ◌∙◌, List, [], ◌++◌, true, none, some, length, bytes_eq_ne, arith,
  ◌≢◌, ◌∷◌, sym,
}
use pico_common.Net.{Ip4, Lwip, pbuf_alloc, udp_sendto, pbuf_free, reply, request}
use pico_common.Http.Text.{codes, print_d, digits}
use pico_common.Tcp.Session.{ok, Tcp, arrived}
use pico_common.Dhcp.Socket.{dhcp_server_init, port_dhcp_server}
use pico_common.Dhcp.Leases.{no_mac, empty_leases}
use pico_common.Dhcp.Leases.Choosing.{first_held, first_available}
use pico_common.Dhcp.Run.{Arrival, handle}
use pico_common.Dhcp.Handshake.{IsFrom, offered, sends}
use pico_common.Dhcp.Handshake.Race.{new_client}
use pico_common.Dns.Socket.{dns_server_init, port_dns_server}
use pico_common.Dns.Process.{dns_server_process, max_dns_msg_size}
use pico_common.Dns.Process.Query.{Query, question, query_bytes, response_bytes, IsStandard}
use pico_common.Dns.Process.Reply.{dns_server_process-answers}
use pico_common.AccessPoint.Connection.{Session, tcp_server_accept}
use pico_common.AccessPoint.Request.{Site, http_response_redirect_header}
use pico_common.AccessPoint.Delivered.{Takes}
use pico_common.AccessPoint.Run.{run}
use pico_common.AccessPoint.Lifecycle.{
  TcpServer, Globals, Answers, address, mask, access_point_init,
}
use pico_common.AccessPoint.Lifecycle.Laws.{AllWell, running, access_point_init_started}
use pico_common.AccessPoint.Portal.{IsPortalRequest}
use pico_common.AccessPoint.Portal.Answered.{run-redirect}

-- What `access_point_init` is answered where everything is granted, the servers' sockets too.
pub record AllGranted (a : Answers) : Type 0 where
  pub well : AllWell a
  pub dhcp_new : a.dhcp_new_ok ≡ true
  pub dhcp_bind : a.dhcp_bind_ok ≡ true
  pub dns_new : a.dns_new_ok ≡ true
  pub dns_bind : a.dns_bind_ok ≡ true

abbrev pub any_address : Ip4
any_address = record { a = 0; b = 0; c = 0; d = 0 }

-- 192.168.4.1.
abbrev pub own_address : Ip4
own_address = record { a = 192; b = 168; c = 4; d = 1 }

-- The redirect of 192.168.4.1 to a place of its own.
abbrev pub redirect_text : List ℕ → List ℕ
redirect_text url =
    codes "HTTP/1.1 302 Redirect\nServer: PICOW (RP2040)\nLocation: http://192.168.4.1"
    ++ (url ++ codes "\n\n")

redirect_lem : (url : List ℕ) → http_response_redirect_header address url ≡ redirect_text url
unfolding http_response_redirect_header print_d digits
redirect_lem url = refl

-- The servers' sockets and addresses.
dns_lem :
    (a : Answers) (g : Globals)
    → AllGranted a
    → (running a g).dns_server ≡ record {
      udp = some (record { receives = true; bound = some (any_address, port_dns_server) });
      ip = address;
    }
unfolding dns_server_init
dns_lem a g granted = rw (granted.dns_new, granted.dns_bind) refl

dhcp_lem :
    (a : Answers) (g : Globals)
    → AllGranted a
    → (running a g).dhcp_server ≡ record {
      ip = address;
      nm = mask;
      lease = empty_leases;
      udp = some (record { receives = true; port = some port_dhcp_server });
    }
unfolding dhcp_server_init
dhcp_lem a g granted = rw (granted.dhcp_new, granted.dhcp_bind) refl

empty_leases-new :
    (chaddr : List ℕ) (now : ℕ → ℕ)
    → chaddr ≢ no_mac
    → (first_held chaddr 0 empty_leases ≡ none) × (first_available now 0 empty_leases ≡ some 0)
unfolding first_held first_available
empty_leases-new chaddr now used = (rw (bytes_eq_ne no_mac chaddr (λ e. used (sym e))) refl, refl)

module _ (a : Answers) (g : Globals) (granted : AllGranted a) where
  -- The access point that runs, and its servers.
  dhcp_offers :
      (discover : Arrival) (chaddr : List ℕ)
      → IsFrom discover chaddr 1
      → chaddr ≢ no_mac
      → let d = (running a g).dhcp_server in
        handle d discover ≡ some (offered d discover chaddr, sends d discover 0 2)
  dhcp_offers discover chaddr from used =
      rw (dhcp_lem a g granted)
        (new_client
          (record {
            ip = address;
            nm = mask;
            lease = empty_leases;
            udp = some (record { receives = true; port = some port_dhcp_server });
          })
          discover chaddr 0 (omega arith) from (empty_leases-new chaddr discover.now used).0
          (empty_leases-new chaddr discover.now used).1).0

  -- An access point that was granted all it asks for, at a start that reports 0, has the address 192.168.4.1. A
  -- client, other than the one whose address is all zeros, that sends a DHCPDISCOVER of at least 243 bytes first
  -- is offered the first address; a standard query of at most 300 bytes, for a name of at most 255 bytes, is answered with a record
  -- of 192.168.4.1; and "GET " and a default request, the first packet on a new connection to the web server,
  -- without a question mark or a zero in its first 123 bytes, is redirected to `default_url` at
  -- 192.168.4.1. The site has no handler and no page whose text begins that request, the redirect has at most
  -- 127 bytes, the buffers of all answers are granted, and lwIP takes every write.
  pub captive_portal :
      (discover : Arrival) (chaddr : List ℕ) (lwip : Lwip) (stack : List ℕ) (q : Query) (src : Ip4)
      (port : ℕ) (env : Tcp) (site : Site) (more : List ℕ)
      → IsFrom discover chaddr 1
      → chaddr ≢ no_mac
      → length stack ≡ max_dns_msg_size
      → IsStandard q
      → lwip.alloc_ok (12 + length (question q) + 16) ≡ true
      → Takes env
      → env.calloc_ok ≡ true
      → site.get_handler ≡ none
      → IsPortalRequest site more
      → length (redirect_text site.default_url) ≤ 127
      → let g' = (access_point_init a g).0 in
        ((access_point_init a g).1 ≡ 0)
        × (handle g'.dhcp_server discover
            ≡ some (offered g'.dhcp_server discover chaddr, sends g'.dhcp_server discover 0 2))
        × (dns_server_process lwip stack g'.dns_server (query_bytes q) src port
            ≡ some (
                pbuf_alloc (12 + length (question q) + 16)
                ∷ udp_sendto (response_bytes g'.dns_server q) src port
                ∷ pbuf_free reply
                ∷ pbuf_free request
                ∷ []))
        × (g'.dhcp_server.ip ≡ own_address)
        × (g'.dns_server.ip ≡ own_address)
        × ((server : TcpServer) × (g'.state ≡ some server)
            × (s' : Session) × (run env site
                  (tcp_server_accept env server.gw ok true).0
                  (arrived (codes "GET " ++ more) ∷ [])
                ≡ some s')
            × (s'.written ≡ redirect_text site.default_url ∷ []))
  captive_portal discover chaddr lwip stack q src port env site more from used whole standard room
        takes calloc no_handler asks fits =
      let (s', runs, written, lent, received, packets, stays) =
        run-redirect env site address more takes no_handler asks
          (omega (arith, fits, ap length (redirect_lem site.default_url))) calloc in
      rw (access_point_init_started a g granted.well) (
        refl,
        dhcp_offers discover chaddr from used,
        dns_server_process-answers lwip stack (running a g).dns_server q src port whole standard
            room,
        ap (λ d. d.ip) (dhcp_lem a g granted),
        ap (λ d. d.ip) (dns_lem a g granted),
        (
          record { server_pcb = true; gw = address },
          refl,
          s',
          runs,
          written ∙ ap (λ t. t ∷ []) (redirect_lem site.default_url),
        ),
      )
