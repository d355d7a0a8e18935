-- ===== src/Dns/Process/Reply.antt =====
-- ap_website/dnsserver/dnsserver.c: the answer that `dns_server_process` gives to a query of RFC 1035,
-- byte for byte.
use pico_common.Common.{
  ℕ, ◌+◌, ◌-◌, ◌≤◌, ◌≡◌, refl, sym, ap, ◌∙◌, List, [], ◌∷◌, ◌++◌, true, some, arith, length,
  length-append, overwrite, length-overwrite, overwrite-append_right, overwrite-zero, overwrite-nil,
  copy_partial, take, take-length, take-append, drop, append_assoc, min, le→ltb_false,
}
use pico_common.Net.{Ip4, octets, Lwip, pbuf_alloc, udp_sendto, pbuf_free, reply, request}
use pico_common.Dns.Walk.{walk, stopped}
use pico_common.Dns.Walk.Labels.{encode, walk-encode}
use pico_common.Dns.Socket.{Server}
use pico_common.Dns.Process.{
  next, ◌>>=◌, answer_record, answer_question, dns_server_process, max_dns_msg_size, header_size,
}
use pico_common.Dns.Process.Header.{
  response_header, answered_message, write_answer_lem, length-answered_message,
}
use pico_common.Dns.Process.Checks.{answer_message-query}
use pico_common.Dns.Process.Total.{sendto_lem}
use pico_common.Dns.Process.Query.{
  Query, question, query_header, query_bytes, response_bytes, IsStandard, length-question,
}

-- The message with the answer written: whatever stood behind the question is overwritten first.
answered_message_lem :
    (d : Server) (q : Query) (rest : List ℕ)
    → 16 ≤ length rest
    → take
        (12 + length (question q) + 16)
        (answered_message d (query_header q ++ (question q ++ rest)) (12 + length (question q)))
      ≡ response_bytes d q
answered_message_lem d q rest room =
    rw (append_answer, overwrite-nil (question q ++ (answer_record d.ip ++ tail)) 0) cut
  where
    tail : List ℕ
    tail = drop 16 rest

    append_answer :
        overwrite
          (query_header q ++ (question q ++ rest))
          (12 + length (question q))
          (answer_record d.ip)
        ≡ query_header q ++ (question q ++ (answer_record d.ip ++ tail))
    append_answer =
        overwrite-append_right (query_header q) (question q ++ rest) (answer_record d.ip)
          (length (question q)) _ refl
        ∙ ap (◌++◌ (query_header q)) (
            overwrite-append_right (question q) rest (answer_record d.ip) 0 _ (omega arith)
            ∙ ap (◌++◌ (question q)) (overwrite-zero rest (answer_record d.ip) room))

    cut :
        take
          (12 + length (question q) + 16)
          ((q.id_hi ∷ q.id_lo ∷ response_header) ++ (question q ++ (answer_record d.ip ++ tail)))
        ≡ response_bytes d q
    cut =
        ap
          (λ xs. take (12 + length (question q) + 16) ((q.id_hi ∷ q.id_lo ∷ response_header) ++ xs))
          (sym (append_assoc (question q) (answer_record d.ip) tail))
        ∙ take-append (12 + length (question q) + 16) (response_bytes d q) tail
            (omega (arith, length-append (question q) (answer_record d.ip)))

-- The walk over the name of a query in its array.
walk-question :
    (q : Query) (rest : List ℕ)
    → IsStandard q
    → walk max_dns_msg_size
        (query_header q ++ (question q ++ rest))
        (length (query_bytes q))
        header_size
      ≡ stopped (header_size + length (encode q.labels) + 1)
walk-question q rest ok = rw (append_assoc (encode q.labels) (0 ∷ octets q.kind) rest) (
    walk-encode max_dns_msg_size (query_header q) q.labels (octets q.kind ++ rest) _ header_size
      ok.are_labels refl (omega (arith, length-question q, length-append (question q) q.more))
      (omega (arith, ok.size_fits)))

answer_question_lem :
    (d : Server) (q : Query) (rest : List ℕ)
    → IsStandard q
    → 12 + length (question q) + length rest ≡ max_dns_msg_size
    → let msg = query_header q ++ (question q ++ rest) in
      answer_question d msg (length (query_bytes q))
      ≡ next (answered_message d msg (12 + length (question q)), 12 + length (question q) + 16)
unfolding answer_question
answer_question_lem d q rest ok size = rw (
  walk-question q rest ok,
  le→ltb_false 255 (header_size + length (encode q.labels) + 1 - header_size)
      (omega (arith, ok.name_fits)),
  at_end,
  at_end',
  write_answer_lem d (query_header q ++ (question q ++ rest)) (12 + length (question q))
      (omega arith)
      (omega (arith, size, length-append (question q) rest, ok.name_fits, length-question q)),
)
  where
    at_end : header_size + length (encode q.labels) + 1 + 4 ≡ 12 + length (question q)
    at_end = omega (arith, length-question q)

    at_end' : header_size + length (encode q.labels) + 1 + 20 ≡ 12 + length (question q) + 16
    at_end' = omega (arith, length-question q)

-- A standard query of one question or more, whose name is made of labels and takes at most 255
-- bytes, in a packet of at most 300 bytes, where the answer's buffer is granted: the answer goes
-- to its sender. It carries the query's identifier, the flags of an authoritative response, the
-- question as it was asked, and one record with the server's address.
pub dns_server_process-answers :
    (env : Lwip) (stack : List ℕ) (d : Server) (q : Query) (src : Ip4) (port : ℕ)
    → length stack ≡ max_dns_msg_size
    → IsStandard q
    → env.alloc_ok (12 + length (question q) + 16) ≡ true
    → dns_server_process env stack d (query_bytes q) src port
      ≡ some (
          pbuf_alloc (12 + length (question q) + 16)
          ∷ udp_sendto (response_bytes d q) src port
          ∷ pbuf_free reply
          ∷ pbuf_free request
          ∷ [])
unfolding dns_server_process
dns_server_process-answers env stack d q src port whole ok room = rw (
  msg_lem,
  len_lem,
  le→ltb_false (length (query_bytes q)) header_size (omega arith),
  answer_message-query d (query_header q ++ (question q ++ rest)) (length (query_bytes q))
      q.flags_hi q.flags_lo q.count_hi q.count_lo refl refl refl refl ok.no_response ok.standard
      ok.counted,
  answer_question_lem d q rest ok size,
  ◌>>=◌,
  sendto_lem env (answered_message d (query_header q ++ (question q ++ rest)) end) (end + 16) src
      port (omega (arith, answered, size, len_q, ok.name_fits)) (omega (arith, len_q, ok.name_fits))
      room,
  answered_message_lem d q rest (omega (arith, size, len_q, ok.name_fits)),
)
  where
    end : ℕ
    end = 12 + length (question q)

    len_q : length (question q) ≡ length (encode q.labels) + 5
    len_q = length-question q

    rest : List ℕ
    rest = q.more ++ drop (length (query_bytes q)) stack

    msg_lem :
        copy_partial (query_bytes q) max_dns_msg_size stack ≡ query_header q ++ (question q ++ rest)
    msg_lem =
        ap (overwrite stack 0) (take-length max_dns_msg_size (query_bytes q) ok.size_fits)
        ∙ overwrite-zero stack (query_bytes q) (omega (arith, ok.size_fits))
        ∙ ap (◌++◌ (query_header q))
            (append_assoc (question q) q.more (drop (length (query_bytes q)) stack))

    len_lem : min (length (query_bytes q)) max_dns_msg_size ≡ length (query_bytes q)
    len_lem = omega (arith, ok.size_fits)

    size : 12 + length (question q) + length rest ≡ max_dns_msg_size
    size = omega (
      arith,
      length-overwrite stack 0 (take max_dns_msg_size (query_bytes q)),
      ap length msg_lem,
      length-append (question q) rest,
    )

    answered :
        length (answered_message d (query_header q ++ (question q ++ rest)) end)
        ≡ 12 + length (question q) + length rest
    answered =
        length-answered_message d (query_header q ++ (question q ++ rest)) end
        ∙ omega (arith, length-append (question q) rest)
