-- ===== src/AccessPoint/Safety/Answers.antt =====
-- ap_website/picow_access_point.c: the answers that the site gives by itself, from the connection's buffers.
use pico_common.Common.{
  ℕ, ◌+◌, ◌-◌, ◌≤◌, ◌<◌, ◌≡◌, refl, ◌∙◌, List, [], ◌∷◌, ◌++◌, Bool, true, false, ◌||◌, Option, none,
  some, arith, ltb, ◌==◌, inl, inr, if◌then◌else◌, ◌>>=◌, length, length-append, take, replicate,
  overwrite, Bool-cases, ltb_false→le, le→ltb_false, length-overwrite,
}
use pico_common.Net.{Ip4}
use pico_common.Http.Text.{
  codes, print_d, c_string, find_first_index, http_response_headers, http_response_not_found_header,
  not_found_body,
}
use pico_common.Http.Text.Numbers.{length-print_d}
use pico_common.Http.Text.Closed.{HasZero, strncmp_eq-total, find_first_index-total}
use pico_common.Http.Response.{small_request_copy}
use pico_common.Http.Response.Written.{
  length-http_response_headers, length-not_found, length-not_found_body,
}
use pico_common.Tcp.Session.{ok, clsd, Tcp}
use pico_common.AccessPoint.{
  is_default_requests, default_request_one, default_request_two, default_request_three,
}
use pico_common.AccessPoint.Connection.{
  state_buffer, max_data_size, Con, Session, Step, write_or_close,
}
use pico_common.Http.Request.Closed.{EndsZero, copy_partial-EndsZero, c_string-short}
use pico_common.AccessPoint.Buffer.{snprintf_into-EndsZero}
use pico_common.AccessPoint.Request.{
  Site, snprintf_into, http_response_redirect_header, send_result, with_header, send_page,
  not_found, send_not_found, not_found_size, send_redirect, send_default, choose_default,
}
use pico_common.AccessPoint.Safety.{
  IsSound, IsOpen, Sound, goes_on, Sound-if_ok, with_con-IsOpen, close-Sound, write_or_close-Sound,
}

-- The lengths of an answer lie within the buffers that it is written from.
pub record Fits (con : Con) : Type 0 where
  pub header_fits : con.header_len ≤ 128
  pub result_fits : con.result_len ≤ max_data_size

pub send_result-Sound :
    (env : Tcp) (s : Session) (con : Con)
    → IsOpen s
    → IsSound con
    → Fits con
    → Sound (send_result env s con)
unfolding send_result
send_result-Sound env s con o sound fits =
    Sound-if_ok body
      (write_or_close-Sound env s' state_buffer con.headers con.header_len
        (with_con-IsOpen s con' o
          (record { headers_end = sound.headers_end; result_size = sound.result_size }))
        (omega (arith, fits.header_fits, sound.headers_end.size)))
      λ s1 o1. elim (Bool-cases (con.result_len == 0)) [
        | inl empty ↦ rw empty (goes_on s1 ok refl o1)
        | inr some_result ↦ rw some_result (
            write_or_close-Sound env s1 state_buffer con.result con.result_len o1
              (omega (arith, fits.result_fits, sound.result_size)))
      ]
  where
    con' : Con
    con' = record con { sent_len = 0 }

    s' : Session
    s' = record s { con = some con' }

    body : Session → Step
    body s1 =
        if con.result_len == 0
        then some (s1, ok)
        else write_or_close env s1 state_buffer con.result con.result_len

pub with_header-IsSound : (con : Con) (text : List ℕ) → IsSound con → IsSound (with_header con text)
with_header-IsSound con text sound = record {
  headers_end = snprintf_into-EndsZero con.headers text sound.headers_end;
  result_size = sound.result_size;
}

send_page-Sound :
    (env : Tcp) (s : Session) (con : Con)
    → IsOpen s
    → IsSound con
    → con.result_len ≤ max_data_size
    → Sound (send_page env s con)
unfolding send_page
send_page-Sound env s con o sound fits =
    rw
      (le→ltb_false 127 (length (http_response_headers con.result_len))
        (omega (arith, length-http_response_headers con.result_len)))
      (send_result-Sound env s (with_header con (http_response_headers con.result_len)) o
        (with_header-IsSound con (http_response_headers con.result_len) sound)
        (record {
          header_fits = omega (arith, length-http_response_headers con.result_len);
          result_fits = fits;
        }))

length-dotted :
    (a b c d url : List ℕ)
    → length a ≤ 11
    → length b ≤ 11
    → length c ≤ 11
    → length d ≤ 11
    → length (
        codes "HTTP/1.1 302 Redirect\nServer: PICOW (RP2040)\nLocation: http://"
        ++ ((a ++ (b'.' ∷ (b ++ (b'.' ∷ (c ++ (b'.' ∷ d)))))) ++ (url ++ codes "\n\n")))
      ≤ 111 + length url
length-dotted a b c d url ha hb hc hd = omega (
  arith,
  length-append (a ++ (b'.' ∷ (b ++ (b'.' ∷ (c ++ (b'.' ∷ d)))))) (url ++ codes "\n\n"),
  length-append a (b'.' ∷ (b ++ (b'.' ∷ (c ++ (b'.' ∷ d))))),
  length-append b (b'.' ∷ (c ++ (b'.' ∷ d))),
  length-append c (b'.' ∷ d),
  length-append url (codes "\n\n"),
)

length-redirect :
    (gw : Ip4) (url : List ℕ) → length (http_response_redirect_header gw url) ≤ 111 + length url
unfolding http_response_redirect_header
length-redirect gw url =
    length-dotted (print_d gw.a) (print_d gw.b) (print_d gw.c) (print_d gw.d) url
      (length-print_d gw.a) (length-print_d gw.b) (length-print_d gw.c) (length-print_d gw.d)

send_redirect-Sound :
    (env : Tcp) (site : Site) (s : Session) (con : Con)
    → IsOpen s
    → IsSound con
    → con.result_len ≤ max_data_size
    → length site.default_url ≤ 17
    → Sound (send_redirect env site s con)
unfolding send_redirect
send_redirect-Sound env site s con o sound fits short =
    send_result-Sound env s
      (with_header con (http_response_redirect_header con.gw site.default_url)) o
      (with_header-IsSound con (http_response_redirect_header con.gw site.default_url) sound)
      (record {
        header_fits = omega (arith, length-redirect con.gw site.default_url);
        result_fits = fits;
      })

pub not_found-IsSound : (con : Con) (url : List ℕ) → IsSound con → IsSound (not_found con url)
unfolding not_found snprintf_into
not_found-IsSound con url sound = record {
  headers_end =
      snprintf_into-EndsZero con.headers
        (http_response_not_found_header (length (not_found_body url))) sound.headers_end;
  result_size =
      length-overwrite con.result 0 (take (not_found_size - 1) (not_found_body url) ++ 0 ∷ [])
      ∙ sound.result_size;
}

pub not_found-Fits : (con : Con) (url : List ℕ) → length url ≤ 127 → Fits (not_found con url)
unfolding not_found
not_found-Fits con url h = record {
  header_fits = omega (
    arith,
    length-not_found (length (not_found_body url)) (omega (arith, length-not_found_body url)),
  );
  result_fits = omega (arith, length-not_found_body url);
}

-- The copy of the request's text up to its first space is a C string of less than 128 bytes.
copy-total :
    (request : List ℕ)
    → HasZero request
    → (url : List ℕ) × ((small_request_copy request (find_first_index request b' ' 128) >>= λ copy.
          c_string copy)
        ≡ some url)
      × (length url ≤ 127)
unfolding small_request_copy
copy-total request z = elim (find_first_index-total request b' ' 128 z) [
  | inl none_there ↦
      let (url, is, short) = c_string-short 127 (replicate 128 0) all_zero in
      (url, rw (none_there, ◌>>=◌) is, short)
  | inr (j, there, small) ↦
      let (url, is, short) =
        c_string-short 127 (overwrite (replicate 128 0) 0 (take j request)) (copied j small) in
      (url, rw (there, ◌>>=◌) is, short)
]
  where
    all_zero : EndsZero 127 (replicate 128 0)
    all_zero = record { size = refl; last = refl }

    copied : (j : ℕ) → j < 128 → EndsZero 127 (overwrite (replicate 128 0) 0 (take j request))
    copied j small = copy_partial-EndsZero request (replicate 128 0) j (omega arith) all_zero

pub send_not_found_lem :
    (env : Tcp) (s : Session) (con : Con) (request url : List ℕ)
    → (small_request_copy request (find_first_index request b' ' 128) >>= λ copy. c_string copy)
      ≡ some url
    → send_not_found env s con request ≡ send_result env s (not_found con url)
unfolding send_not_found
send_not_found_lem env s con request url is =
    bind_twice (small_request_copy request (find_first_index request b' ' 128)) is
  where
    bind_twice :
        (o : Option (List ℕ))
        → (o >>= λ copy. c_string copy) ≡ some url
        → (o >>= λ copy. c_string copy >>= λ u. send_result env s (not_found con u))
          ≡ send_result env s (not_found con url)
    bind_twice none h = cc
    bind_twice (some copy) h = rw h refl

send_not_found-Sound :
    (env : Tcp) (s : Session) (con : Con) (request : List ℕ)
    → IsOpen s
    → IsSound con
    → HasZero request
    → Sound (send_not_found env s con request)
send_not_found-Sound env s con request o sound z =
    let (url, is, short) = copy-total request z in
    rw (send_not_found_lem env s con request url is) (
      send_result-Sound env s (not_found con url) o (not_found-IsSound con url sound)
        (not_found-Fits con url short))

is_default_requests-total :
    (request : List ℕ) → HasZero request → (b : Bool) × (is_default_requests request ≡ some b)
unfolding is_default_requests
is_default_requests-total request z =
    let (one, e1) = strncmp_eq-total default_request_one request z (ground arith) in
    let (two, e2) = strncmp_eq-total default_request_two request z (ground arith) in
    let (three, e3) = strncmp_eq-total default_request_three request z (ground arith) in
    (one || (two || three), rw (e1, ◌>>=◌, e2, ◌>>=◌, e3) refl)

pub send_default_lem :
    (env : Tcp) (site : Site) (s : Session) (request : List ℕ) (con : Con)
    → s.con ≡ some con
    → send_default env site s request ≡ choose_default env site s request con
unfolding send_default
send_default_lem env site s request con held = rw (held, ◌>>=◌) refl

choose_default-Sound :
    (env : Tcp) (site : Site) (s : Session) (request : List ℕ) (con : Con)
    → IsOpen s
    → IsSound con
    → HasZero request
    → length site.default_url ≤ 17
    → Sound (choose_default env site s request con)
unfolding choose_default
choose_default-Sound env site s request con o sound z short =
    elim (Bool-cases (ltb 4095 con.result_len)) [
      | inl large ↦ rw large (close-Sound env s clsd o refl)
      | inr fits ↦ elim (Bool-cases (ltb 0 con.result_len)) [
        | inl some_result ↦
            rw (fits, some_result)
              (send_page-Sound env s con o sound
                (omega (arith, ltb_false→le 4095 con.result_len fits)))
        | inr empty ↦
            rw (fits, empty)
              (other (omega (arith, ltb_false→le 4095 con.result_len fits))
                (is_default_requests-total request z))
      ]
    ]
  where
    other :
        con.result_len ≤ max_data_size
        → (b : Bool) × (is_default_requests request ≡ some b)
        → Sound (
            is_default_requests request >>= λ is_default.
            if is_default then send_redirect env site s con else send_not_found env s con request)
    other room (true, e) = rw (e, ◌>>=◌) (send_redirect-Sound env site s con o sound room short)
    other room (false, e) = rw (e, ◌>>=◌) (send_not_found-Sound env s con request o sound z)

-- The rest of `http_get_generate` is sound, where `default_url` has at most 17 bytes.
pub send_default-Sound :
    (env : Tcp) (site : Site) (s : Session) (request : List ℕ)
    → IsOpen s
    → HasZero request
    → length site.default_url ≤ 17
    → Sound (send_default env site s request)
send_default-Sound env site s request o z short =
    rw (send_default_lem env site s request o.state o.held)
      (choose_default-Sound env site s request o.state o o.sound z short)
