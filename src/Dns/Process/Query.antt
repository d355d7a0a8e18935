-- ===== src/Dns/Process/Query.antt =====
-- ap_website/dnsserver/dnsserver.c: queries and answers as RFC 1035 writes them.
use pico_common.Common.{
  ℕ, ◌+◌, ◌*◌, ◌/◌, ◌%◌, ◌^◌, ◌≤◌, ◌≡◌, List, [], ◌∷◌, ◌++◌, arith, length, length-append,
}
use pico_common.Net.{Ip4, octets}
use pico_common.Dns.Walk.Labels.{encode, AreLabels}
use pico_common.Dns.Socket.{Server}
use pico_common.Dns.Process.{max_dns_msg_size}
use pico_common.Dns.Process.Header.{response_header}

-- A query: the identifier, the flags, the number of questions and six more bytes of header; the
-- name asked for; its type and class; and anything behind.
pub record Query : Type 0 where
  pub id_hi : ℕ
  pub id_lo : ℕ
  pub flags_hi : ℕ
  pub flags_lo : ℕ
  pub count_hi : ℕ
  pub count_lo : ℕ
  pub counts : Ip4
  pub additional_hi : ℕ
  pub additional_lo : ℕ
  pub labels : List (List ℕ)
  pub kind : Ip4
  pub more : List ℕ

-- The name, its zero, type and class.
abbrev pub question : Query → List ℕ
question q = encode q.labels ++ 0 ∷ octets q.kind

abbrev pub query_header : Query → List ℕ
query_header q =
    q.id_hi ∷ q.id_lo ∷ q.flags_hi ∷ q.flags_lo ∷ q.count_hi ∷ q.count_lo ∷ q.counts.a ∷ q.counts.b
    ∷ q.counts.c ∷ q.counts.d ∷ q.additional_hi ∷ q.additional_lo ∷ []

abbrev pub query_bytes : Query → List ℕ
query_bytes q = query_header q ++ (question q ++ q.more)

-- A record of RFC 1035 with an address: the name by a pointer to byte 12, type A, class IN, sixty seconds to
-- live, and four bytes.
abbrev pub address_record : Ip4 → List ℕ
address_record ip =
    192 ∷ 12 ∷ 0 ∷ 1 ∷ 0 ∷ 1 ∷ 0 ∷ 0 ∷ 0 ∷ 60 ∷ 0 ∷ 4 ∷ ip.a ∷ ip.b ∷ ip.c ∷ ip.d ∷ []

-- The answer: the query's identifier, the header of a response, the question, and the record with
-- the server's address.
abbrev pub response_bytes : Server → Query → List ℕ
response_bytes d q = (q.id_hi ∷ q.id_lo ∷ response_header) ++ (question q ++ address_record d.ip)

-- What the tests ask of the query, and that it and its name are not too long.
pub record IsStandard (q : Query) : Type 0 where
  pub no_response : (q.flags_hi * 2 ^ 8 + q.flags_lo) / 2 ^ 15 % 2 ≡ 0
  pub standard : (q.flags_hi * 2 ^ 8 + q.flags_lo) / 2 ^ 11 % 2 ^ 4 ≡ 0
  pub counted : 1 ≤ q.count_hi * 2 ^ 8 + q.count_lo
  pub are_labels : AreLabels q.labels
  pub name_fits : length (encode q.labels) + 1 ≤ 255
  pub size_fits : length (query_bytes q) ≤ max_dns_msg_size

pub length-question : (q : Query) → length (question q) ≡ length (encode q.labels) + 5
length-question q = omega (arith, length-append (encode q.labels) (0 ∷ octets q.kind))
