-- ===== src/AccessPoint/Delivered.antt =====
-- ap_website/picow_access_point.c: what the site's own answers hand to lwIP.
pub mod NotFound
pub mod Redirect
pub mod Lent
use pico_common.Common.{
  ℕ, zero, suc, ◌+◌, ◌-◌, ◌≤◌, ◌<◌, ◌≡◌, refl, ◌∙◌, ap, List, [], ◌∷◌, ◌++◌, true, false, some,
  arith, ◌==◌, ◌>>=◌, length, length-append, take, drop, replicate, overwrite, overwrite-zero,
  overwrite-nil, take-append, take-length, append_assoc, lt→ltb, le→ltb_false,
}
use pico_common.Http.Text.{
  codes, http_response_headers, http_response_not_found_header, not_found_body, find_first_index,
  c_string,
}
use pico_common.Http.Text.Strings.{Without, find_first_index-found}
use pico_common.Http.Response.{small_request_copy}
use pico_common.Http.Response.Written.{
  length-http_response_headers, length-not_found, length-not_found_body, c_string-overwrite,
}
use pico_common.Tcp.Session.{ok, is_ok, Tcp}
use pico_common.AccessPoint.{is_default_requests}
use pico_common.AccessPoint.Connection.{max_data_size, Con, Memory, state_buffer, Session}
use pico_common.AccessPoint.Request.{
  Site, snprintf_into, send_result, with_header, send_page, not_found, not_found_size, send_default,
  choose_default,
}
use pico_common.AccessPoint.Safety.{IsSound, IsOpen, with_con-IsOpen, written-IsOpen, write_lem}
use pico_common.AccessPoint.Safety.Answers.{
  Fits, with_header-IsSound, not_found-IsSound, send_not_found_lem, send_default_lem,
}

-- lwIP takes every write.
abbrev pub Takes : Tcp → Type 0
Takes env = (n : ℕ) → is_ok (env.write_err n) ≡ true

-- One buffer of the state for each text.
abbrev pub loans : List (List ℕ) → List Memory
loans [] = []
loans (t ∷ ts) = state_buffer ∷ loans ts

-- The state that an answer leaves, the texts that it wrote, and the state's buffers that lwIP reads them from.
abbrev pub answered : Session → Con → List (List ℕ) → Session
answered s con texts = record s {
  con = some (record con { sent_len = 0 });
  written = s.written ++ texts;
  lent = s.lent ++ loans texts;
}

send_result_lem :
    (env : Tcp) (s : Session) (con : Con)
    → Takes env
    → IsOpen s
    → IsSound con
    → Fits con
    → 0 < con.result_len
    → send_result env s con
      ≡ some (
        answered s con (take con.header_len con.headers ∷ take con.result_len con.result ∷ []),
        ok,
      )
unfolding send_result
send_result_lem env s con takes o sound fits some_result =
    rw
      (
        write_lem env s' state_buffer con.headers con.header_len con.header_len o'
            (omega (arith, fits.header_fits))
            (omega (arith, fits.header_fits, sound.headers_end.size)) (takes con.header_len),
        ◌>>=◌,
        result_there,
        write_lem env s1 state_buffer con.result con.result_len con.result_len o1
            (omega (arith, fits.result_fits)) (omega (arith, fits.result_fits, sound.result_size))
            (takes con.result_len),
        append_assoc s.written (take con.header_len con.headers ∷ [])
            (take con.result_len con.result ∷ []),
        append_assoc s.lent (state_buffer ∷ []) (state_buffer ∷ []),
      )
      refl
  where
    con' : Con
    con' = record con { sent_len = 0 }

    s' : Session
    s' = record s { con = some con' }

    o' : IsOpen s'
    o' =
        with_con-IsOpen s con' o
          (record { headers_end = sound.headers_end; result_size = sound.result_size })

    s1 : Session
    s1 = record s' {
      written = s.written ++ take con.header_len con.headers ∷ [];
      lent = s.lent ++ state_buffer ∷ [];
    }

    o1 : IsOpen s1
    o1 =
        written-IsOpen s' (s.written ++ take con.header_len con.headers ∷ [])
          (s.lent ++ state_buffer ∷ []) o'

    result_there : (con.result_len == 0) ≡ false
    result_there = ground arith

-- A text that leaves room for its zero is printed whole.
pub take-snprintf_into :
    (buf text : List ℕ) (n : ℕ)
    → length buf ≡ suc n
    → length text ≤ n
    → take (length text) (snprintf_into buf (suc n) text) ≡ text
unfolding snprintf_into
take-snprintf_into buf text n size short =
    rw
      (
        take-length (suc n - 1) text (omega arith),
        overwrite-zero buf (text ++ 0 ∷ []) (omega (arith, length-append text (0 ∷ []))),
        append_assoc text (0 ∷ []) (drop (length (text ++ 0 ∷ [])) buf),
      )
      (take-append (length text) text (0 ∷ drop (length (text ++ 0 ∷ [])) buf) refl)

-- A header of at most 127 bytes that was printed into the state, and the result.
pub with_header-sent :
    (env : Tcp) (s : Session) (con : Con) (text : List ℕ)
    → Takes env
    → IsOpen s
    → IsSound con
    → length text ≤ 127
    → 0 < con.result_len
    → con.result_len ≤ max_data_size
    → send_result env s (with_header con text)
      ≡ some (answered s (with_header con text) (text ∷ take con.result_len con.result ∷ []), ok)
with_header-sent env s con text takes o sound short some_result fits =
    send_result_lem env s (with_header con text) takes o (with_header-IsSound con text sound)
      (record { header_fits = omega arith; result_fits = fits }) some_result
    ∙ ap
        (λ t.
          some (answered s (with_header con text) (t ∷ take con.result_len con.result ∷ []), ok))
        (take-snprintf_into con.headers text 127 sound.headers_end.size short)

send_page_lem :
    (env : Tcp) (s : Session) (con : Con)
    → Takes env
    → IsOpen s
    → IsSound con
    → 0 < con.result_len
    → con.result_len ≤ max_data_size
    → send_page env s con
      ≡ some (
        answered s
            (with_header con (http_response_headers con.result_len))
            (http_response_headers con.result_len ∷ take con.result_len con.result ∷ []),
        ok,
      )
unfolding send_page
send_page_lem env s con takes o sound some_result fits =
    rw
      (le→ltb_false 127 (length (http_response_headers con.result_len))
        (omega (arith, length-http_response_headers con.result_len)))
      (with_header-sent env s con (http_response_headers con.result_len) takes o sound
        (omega (arith, length-http_response_headers con.result_len)) some_result fits)

-- Where a result was left in the state by an earlier answer, any request that neither a page nor the
-- handler answers gets that result, under a header that reports success.
pub send_default-stale :
    (env : Tcp) (site : Site) (s : Session) (con : Con) (request : List ℕ)
    → Takes env
    → IsOpen s
    → s.con ≡ some con
    → IsSound con
    → 0 < con.result_len
    → con.result_len < max_data_size
    → send_default env site s request
      ≡ some (
        answered s
            (with_header con (http_response_headers con.result_len))
            (http_response_headers con.result_len ∷ take con.result_len con.result ∷ []),
        ok,
      )
unfolding choose_default
send_default-stale env site s con request takes o held sound some_result fits =
    rw
      (
        send_default_lem env site s request con held,
        le→ltb_false 4095 con.result_len (omega arith),
        lt→ltb 0 con.result_len some_result,
      )
      (send_page_lem env s con takes o sound some_result (omega arith))
