-- ===== src/Dns/Tests.antt =====
-- ap_website/dnsserver/dnsserver.c: concrete queries.
use pico_common.Common.{
  ℕ, ◌≡◌, refl, List, [], ◌∷◌, true, none, some, arith, copy_partial, replicate,
}
use pico_common.Net.{Ip4, Lwip, Call, pbuf_alloc, udp_sendto, pbuf_free, reply, request}
use pico_common.Dns.Socket.{Server}
use pico_common.Dns.Process.{dns_server_process, max_dns_msg_size}
use pico_common.Dns.Process.Total.{IsOrderly, dns_server_process-total}
use pico_common.Dns.Process.Reply.{dns_server_process-answers}
use pico_common.Dns.Process.Query.{Query, query_bytes, response_bytes, IsStandard}

abbrev lwip : Lwip
lwip = record { alloc_ok = λ n. true; input_netif = true; send_err = 0 }

abbrev server : Server
server = record { udp = none; ip = record { a = 192; b = 168; c = 4; d = 1 } }

abbrev pub client : Ip4
client = record { a = 192; b = 168; c = 4; d = 16 }

abbrev name : List (List ℕ)
name = (b'p' ∷ b'i' ∷ b'c' ∷ b'o' ∷ []) ∷ (b'l' ∷ b'a' ∷ b'n' ∷ []) ∷ []

abbrev pub query : Query
query = record {
  id_hi = 1;
  id_lo = 2;
  flags_hi = 1;
  flags_lo = 0;
  count_hi = 0;
  count_lo = 1;
  counts = record { a = 0; b = 0; c = 0; d = 0 };
  additional_hi = 0;
  additional_lo = 0;
  labels = name;
  kind = record { a = 0; b = 1; c = 0; d = 1 };
  more = [];
}

pub query-IsStandard : IsStandard query
query-IsStandard = record {
  no_response = refl;
  standard = refl;
  counted = omega arith;
  are_labels = (omega arith, omega arith, (omega arith, omega arith, tt));
  name_fits = omega arith;
  size_fits = omega arith;
}

abbrev pub stack : List ℕ
stack = replicate 300 7

dns_server_process-total_example :
    (calls : List Call) × (dns_server_process lwip stack server (255 ∷ 255 ∷ []) client 5353
      ≡ some calls)
    × IsOrderly lwip (copy_partial (255 ∷ 255 ∷ []) max_dns_msg_size stack) client 5353 calls
dns_server_process-total_example =
    dns_server_process-total lwip stack server (255 ∷ 255 ∷ []) client 5353 refl

dns_server_process-answers_example :
    dns_server_process lwip stack server (query_bytes query) client 5353
    ≡ some (
        pbuf_alloc 42
        ∷ udp_sendto (response_bytes server query) client 5353
        ∷ pbuf_free reply
        ∷ pbuf_free request
        ∷ [])
dns_server_process-answers_example =
    dns_server_process-answers lwip stack server query client 5353 refl query-IsStandard refl
