-- ===== src/AccessPoint/Delivered/Redirect.antt =====
-- ap_website/picow_access_point.c: the answer to a client that asks whether it is behind a captive portal.
use pico_common.Common.{
  ℕ, zero, suc, ◌-◌, ◌≤◌, ◌<◌, ◌≡◌, refl, ◌∙◌, ap, ◌⊎◌, List, [], ◌∷◌, ◌++◌, true, some, arith,
  ◌==◌, ◌>>=◌, length, take, drop, replicate,
}
use pico_common.Tcp.Session.{ok, Tcp}
use pico_common.AccessPoint.{
  is_default_requests, default_request_one, default_request_two, default_request_three,
}
use pico_common.AccessPoint.Defaults.{Begins, is_default_requests-Begins}
use pico_common.AccessPoint.Connection.{Con, Session}
use pico_common.AccessPoint.Request.{
  Site, http_response_redirect_header, send_result, with_header, send_default, choose_default,
  send_redirect,
}
use pico_common.AccessPoint.Connection.{state_buffer}
use pico_common.AccessPoint.Safety.{IsSound, IsOpen, with_con-IsOpen, write_lem}
use pico_common.AccessPoint.Safety.Answers.{with_header-IsSound, send_default_lem}
use pico_common.AccessPoint.Delivered.{Takes, answered, take-snprintf_into}

-- The text begins with one of the requests that a client makes by itself.
abbrev pub IsDefault : List ℕ → Type 0
IsDefault text =
    Begins default_request_one text
    ⊎ (Begins default_request_two text ⊎ Begins default_request_three text)

-- An answer without a body.
send_result-header :
    (env : Tcp) (s : Session) (con : Con)
    → Takes env
    → IsOpen s
    → IsSound con
    → con.header_len ≤ 128
    → con.result_len ≡ 0
    → send_result env s con ≡ some (answered s con (take con.header_len con.headers ∷ []), ok)
unfolding send_result
send_result-header env s con takes o sound fits none_left =
    rw
      (
        write_lem env s' state_buffer con.headers con.header_len con.header_len o'
            (omega (arith, fits)) (omega (arith, fits, sound.headers_end.size))
            (takes con.header_len),
        ◌>>=◌,
        no_result,
      )
      refl
  where
    con' : Con
    con' = record con { sent_len = 0 }

    s' : Session
    s' = record s { con = some con' }

    o' : IsOpen s'
    o' =
        with_con-IsOpen s con' o
          (record { headers_end = sound.headers_end; result_size = sound.result_size })

    no_result : (con.result_len == 0) ≡ true
    no_result = ground arith

default_lem :
    (text rest : List ℕ) → IsDefault text → is_default_requests (text ++ 0 ∷ rest) ≡ some true
default_lem text rest is_default =
    let (b, answer, when) = is_default_requests-Begins text rest in
    answer ∙ ap some (when.1 is_default)

choose_redirect :
    (env : Tcp) (site : Site) (s : Session) (request : List ℕ) (con : Con)
    → con.result_len ≡ 0
    → is_default_requests request ≡ some true
    → choose_default env site s request con ≡ send_redirect env site s con
unfolding choose_default
choose_redirect env site s request con unused is_default = rw (unused, is_default) refl

module _ (env : Tcp) (site : Site) (s : Session) (con : Con) (takes : Takes env) (o : IsOpen s)
    (held : s.con ≡ some con) (sound : IsSound con) (unused : con.result_len ≡ 0)
    (fits : length (http_response_redirect_header con.gw site.default_url) ≤ 127) where
  pub send_default-redirect :
      (text rest : List ℕ)
      → IsDefault text
      → send_default env site s (text ++ 0 ∷ rest)
        ≡ some (
          answered s
              (with_header con (http_response_redirect_header con.gw site.default_url))
              (http_response_redirect_header con.gw site.default_url ∷ []),
          ok,
        )
  unfolding send_redirect
  send_default-redirect text rest is_default =
      send_default_lem env site s (text ++ 0 ∷ rest) con held
      ∙ (choose_redirect env site s (text ++ 0 ∷ rest) con unused (default_lem text rest is_default)
          ∙ (send_result-header env s (with_header con header) takes o
                (with_header-IsSound con header sound) (omega (arith, fits)) unused
              ∙ ap (λ t. some (answered s (with_header con header) (t ∷ []), ok))
                  (take-snprintf_into con.headers header 127 sound.headers_end.size fits)))
    where
      header : List ℕ
      header = http_response_redirect_header con.gw site.default_url

-- The rest of an array of zeros, behind a part of it.
pub drop-replicate :
    (k n : ℕ) → k < n → drop k (replicate {A = ℕ} n 0) ≡ 0 ∷ replicate (n - k - 1) 0
drop-replicate k zero h = absurd (omega arith)
drop-replicate zero (suc n) h = ap (λ j. 0 ∷ replicate j 0) (omega arith)
drop-replicate (suc k) (suc n) h =
    drop-replicate k n (omega arith) ∙ ap (λ j. 0 ∷ replicate j 0) (omega arith)
