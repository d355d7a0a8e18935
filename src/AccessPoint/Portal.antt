-- ===== src/AccessPoint/Portal.antt =====
-- ap_website/picow_access_point.c: the request of a client that asks whether it is behind a captive portal,
-- from its first packet to the answer.
pub mod Answered
pub mod Captive
pub mod Dangling
use pico_common.Common.{
  ℕ, suc, ◌+◌, ◌-◌, ◌≤◌, ◌<◌, ◌≡◌, refl, sym, ◌∙◌, ap, inl, inr, List, [], ◌∷◌, ◌++◌, Bool, true,
  false, Option, none, some, arith, ◌==◌, ltb, if◌then◌else◌, ◌>>=◌, length, length-append,
  length-take, take, drop, replicate, overwrite, overwrite-zero, take-length, append_assoc,
  copy_partial, Bool-cases, ltb_false→le, ltb→lt,
}
use pico_common.Net.{Ip4}
use pico_common.Http.Text.{codes, strncmp_eq}
use pico_common.Http.Text.Strings.{Without}
use pico_common.Http.Url.{UrlItem, is_prefix, first_prefix, find_handeler}
use pico_common.Http.Request.Parts.{parse_request-plain}
use pico_common.Http.Response.Written.{length-replicate}
use pico_common.Tcp.Session.{ok, is_ok, Tcp, arrived}
use pico_common.AccessPoint.Defaults.{Begins, is_prefix-Begins}
use pico_common.AccessPoint.Connection.{
  max_header_size, Con, Session, Step, if_ok, new_con, tcp_server_accept,
}
use pico_common.Http.Request.Closed.{EndsZero, copy_partial-EndsZero}
use pico_common.AccessPoint.Request.{
  Site, http_response_redirect_header, with_header, create_html_page, answer_page, try_handler,
  http_get_generate, handle_get, finish, receive_into, receive, ap_tcp_server_recv,
}
use pico_common.AccessPoint.Safety.{IsSound, IsOpen, with_con-IsOpen}
use pico_common.AccessPoint.Delivered.{Takes, answered}
use pico_common.AccessPoint.Delivered.Redirect.{IsDefault, send_default-redirect, drop-replicate}
use pico_common.AccessPoint.Run.{callback, on_event, run}
use pico_common.AccessPoint.Run.Accepted.{new_con-IsSound}

-- What `ap_tcp_server_recv` copies of a packet that begins with "GET ".
take-request :
    (more : List ℕ)
    → let p = codes "GET " ++ more in
      take (if ltb 127 (length p) then 127 else length p) p ≡ codes "GET " ++ take 123 more
take-request more = elim (Bool-cases (ltb 127 (length (codes "GET " ++ more)))) [
  | inl long ↦ rw long refl
  | inr short ↦ rw short (
      take-length (length (codes "GET " ++ more)) (codes "GET " ++ more) (omega arith)
      ∙ ap (λ t. codes "GET " ++ t)
          (sym (
            take-length 123 more
              (omega (arith, ltb_false→le 127 (length (codes "GET " ++ more)) short)))))
]

-- The header buffer of a new connection then holds the request as a C string.
buffered :
    (more : List ℕ)
    → let p = codes "GET " ++ more in
      let line = take 123 more in
      copy_partial p (if ltb 127 (length p) then 127 else length p) (replicate max_header_size 0)
      ≡ codes "GET " ++ (line ++ 0 ∷ replicate (128 - length (codes "GET " ++ line) - 1) 0)
buffered more =
    let line = take 123 more in
    let cut = length-take 123 more in
    ap (overwrite (replicate max_header_size 0) 0) (take-request more)
    ∙ (overwrite-zero (replicate max_header_size 0) (codes "GET " ++ line) (omega (arith, cut))
        ∙ (ap (λ t. (codes "GET " ++ line) ++ t)
              (drop-replicate (length (codes "GET " ++ line)) 128 (omega (arith, cut)))
            ∙ append_assoc (codes "GET ") line
                (0 ∷ replicate (128 - length (codes "GET " ++ line) - 1) 0)))

module _ {G : Type 0} where
  -- No page's text begins the request.
  abbrev pub NonePage : List ℕ → List (UrlItem G) → Type 0
  NonePage line [] = Unit {0}
  NonePage line (x ∷ xs) = (¬ (Begins x.url line)) × NonePage line xs

  first_prefix-none :
      (line : List ℕ) (pages : List (UrlItem G))
      → NonePage line pages
      → first_prefix line pages ≡ none
  unfolding first_prefix
  first_prefix-none line [] n = refl
  first_prefix-none line (x ∷ xs) n = elim (Bool-cases (is_prefix x.url line)) [
    | inl begins ↦ absurd (n.0 (is_prefix-Begins x.url line begins))
    | inr other ↦ rw other (first_prefix-none line xs n.1)
  ]

-- The header buffer with a request in it.
abbrev pub request_buffer : List ℕ → List ℕ → List ℕ
request_buffer line rest = codes "GET " ++ (line ++ 0 ∷ rest)

module _ (env : Tcp) (site : Site) (takes : Takes env) (no_handler : site.get_handler ≡ none)
    (line rest : List ℕ) (plain : Without b'?' line) (zeroless : Without 0 line)
    (is_default : IsDefault line) (unlisted : NonePage line site.pages)
    (last : EndsZero 127 (request_buffer line rest)) where
  generate-redirect :
      (s : Session) (con : Con) (o : IsOpen s)
      → s.con ≡ some con
      → IsSound con
      → con.result_len ≡ 0
      → length (http_response_redirect_header con.gw site.default_url) ≤ 127
      → http_get_generate env site s (line ++ 0 ∷ rest) none
        ≡ some (
          answered s
              (with_header con (http_response_redirect_header con.gw site.default_url))
              (http_response_redirect_header con.gw site.default_url ∷ []),
          ok,
        )
  unfolding http_get_generate create_html_page find_handeler answer_page try_handler
  generate-redirect s con o held sound unused fits =
      rw
        (
          (parse_request-plain line rest plain zeroless).1,
          first_prefix-none line site.pages unlisted,
          no_handler,
        )
        (send_default-redirect env site s con takes o held sound unused fits line rest is_default)

  pub get-redirect :
      (s : Session) (con : Con)
      → IsOpen s
      → IsSound con
      → con.result_len ≡ 0
      → length (http_response_redirect_header con.gw site.default_url) ≤ 127
      → let filled = record con { headers = request_buffer line rest } in
        handle_get env site s con (request_buffer line rest)
        ≡ some (
          answered
              (record s { con = some filled })
              (with_header filled (http_response_redirect_header con.gw site.default_url))
              (http_response_redirect_header con.gw site.default_url ∷ []),
          ok,
        )
  unfolding handle_get
  get-redirect s con o sound unused fits =
      rw ((parse_request-plain line rest plain zeroless).0, ◌>>=◌)
        (generate-redirect (record s { con = some filled }) filled
          (with_con-IsOpen s filled o filled-IsSound) refl filled-IsSound unused fits)
    where
      filled : Con
      filled = record con { headers = request_buffer line rest }

      filled-IsSound : IsSound filled
      filled-IsSound = record { headers_end = last; result_size = sound.result_size }

-- What a client finds that asks by itself: a packet "GET " with a default request behind it, of any length.
pub record IsPortalRequest (site : Site) (more : List ℕ) : Type 0 where
  pub plain : Without b'?' (take 123 more)
  pub zeroless : Without 0 (take 123 more)
  pub is_default : IsDefault (take 123 more)
  pub unlisted : NonePage (take 123 more) site.pages

-- What the header buffer of a new connection holds after a packet "GET " with `more` behind it.
abbrev pub buffer_rest : List ℕ → List ℕ
buffer_rest more = replicate (128 - length (codes "GET " ++ take 123 more) - 1) 0

pub buffer-EndsZero :
    (more : List ℕ) → EndsZero 127 (request_buffer (take 123 more) (buffer_rest more))
buffer-EndsZero more = rw⁻¹ (buffered more) (
    copy_partial-EndsZero (codes "GET " ++ more) (replicate max_header_size 0) n (ground arith)
      (record { size = refl; last = refl }))
  where
    n : ℕ
    n = if ltb 127 (length (codes "GET " ++ more)) then 127 else length (codes "GET " ++ more)

-- What `receive_into` does with a header buffer.
abbrev with_buffer : Tcp → Site → Session → ℕ → Con → List ℕ → Step
with_buffer env site s total con headers =
    let s' = record s { con = some (record con { headers = headers }) } in
    strncmp_eq (codes "GET") headers >>= λ is_get.
    (if is_get then handle_get env site s' con headers else some (s', ok)) >>= if_ok (finish total)

with_buffer-get :
    (env : Tcp) (site : Site) (s s2 : Session) (total : ℕ) (con : Con) (more : List ℕ)
    → handle_get env site
        (record s { con = some (record con { headers = codes "GET " ++ more }) })
        con
        (codes "GET " ++ more)
      ≡ some (s2, ok)
    → s2.pcb ≡ true
    → with_buffer env site s total con (codes "GET " ++ more)
      ≡ some (record s2 { received = s2.received + total; packets = s2.packets - 1 }, ok)
unfolding strncmp_eq finish
with_buffer-get env site s s2 total con more e stays =
    ap (λ r. r >>= if_ok (finish total)) e ∙ rw stays refl

abbrev copied_length : List ℕ → ℕ
copied_length more =
    if ltb 127 (length (codes "GET " ++ more)) then 127 else length (codes "GET " ++ more)

recv_lem :
    (env : Tcp) (site : Site) (s : Session) (con : Con) (more : List ℕ)
    → let p = codes "GET " ++ more in
      s.con ≡ some con
      → ap_tcp_server_recv env site s (some p)
        ≡ with_buffer env site
            (record s { packets = s.packets + 1 })
            (length p)
            con
            (copy_partial p (copied_length more) con.headers)
unfolding ap_tcp_server_recv receive receive_into
recv_lem env site s con more held = rw (some_bytes, held) refl
  where
    some_bytes : (length (codes "GET " ++ more) == 0) ≡ false
    some_bytes = ground arith

pub receive-get :
    (env : Tcp) (site : Site) (s s2 : Session) (con : Con) (more : List ℕ)
    → let p = codes "GET " ++ more in
      s.con ≡ some con
      → con.headers ≡ replicate max_header_size 0
      → handle_get env site
          (record s {
            con = some (record con { headers = request_buffer (take 123 more) (buffer_rest more) });
            packets = s.packets + 1;
          })
          con
          (request_buffer (take 123 more) (buffer_rest more))
        ≡ some (s2, ok)
      → s2.pcb ≡ true
      → ap_tcp_server_recv env site s (some p)
        ≡ some (record s2 { received = s2.received + length p; packets = s2.packets - 1 }, ok)
receive-get env site s s2 con more held cleared e stays =
    recv_lem env site s con more held
    ∙ (ap
          (with_buffer env site (record s { packets = s.packets + 1 })
            (length (codes "GET " ++ more)) con)
          (ap (copy_partial (codes "GET " ++ more) (copied_length more)) cleared ∙ buffered more)
        ∙ with_buffer-get env site (record s { packets = s.packets + 1 }) s2
            (length (codes "GET " ++ more)) con (take 123 more ++ 0 ∷ buffer_rest more) e stays)
