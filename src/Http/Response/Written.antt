-- ===== src/Http/Response/Written.antt =====
-- http_server/http_server.c: what its answers put on the wire.
use pico_common.Common.{
  ℕ, zero, suc, ◌+◌, ◌-◌, ◌≤◌, ◌<◌, ◌≡◌, refl, ap, List, [], ◌∷◌, ◌++◌, Option, none, some, arith,
  ltb, if◌then◌else◌, ◌>>=◌, length, take, replicate, overwrite, load_bytes-overwrite,
  load_bytes-eq-take, length-append, le→ltb_false, take-length, take-append,
}
use pico_common.Http.Text.{
  codes, snprintf, http_response_headers, http_response_not_found_header, not_found_body, print_d,
  c_string, find_first_index,
}
use pico_common.Http.Text.Numbers.{length-print_d, length-digits_small}
use pico_common.Http.Text.Strings.{Without, find_first_index-found, find_first_index-missing}
use pico_common.Http.Response.{
  send_array, send_both, first_error, ok_or_abrt, html_server_send_get_responce, http_send_404,
  small_request_copy,
}
use pico_common.Tcp.Session.{Err, clsd, Session, Tcp, Step, tcp_server_send_data}

pub length-replicate : (n : ℕ) → length (replicate {A = ℕ} n 0) ≡ n
length-replicate zero = refl
length-replicate (suc n) = ap suc (length-replicate n)

-- A text that leaves room for its closing zero is sent whole.
pub send_array-snprintf :
    (env : Tcp) (s : Session) (text : List ℕ) (n : ℕ)
    → length text < n
    → send_array env s (snprintf n text).0 (snprintf n text).1 ≡ tcp_server_send_data env s text
unfolding send_array snprintf
send_array-snprintf env s text n h =
    rw
      (
        take-length (n - 1) text (omega arith),
        load_bytes-overwrite (replicate n 0) 0 text (omega (arith, length-replicate n)),
        ◌>>=◌,
      )
      refl

pub length-http_response_headers : (n : ℕ) → length (http_response_headers n) ≤ 125
unfolding http_response_headers
length-http_response_headers n = ground (
  arith,
  length-print_d n,
  length-append (print_d n)
      (codes "\nContent-Type: text/html; charset=utf-8\nConnection: close\n\n"),
)

pub length-not_found : (n : ℕ) → n < 10000 → length (http_response_not_found_header n) ≤ 127
unfolding http_response_not_found_header print_d
length-not_found n h = ground (
  arith,
  length-digits_small 10 3 n h,
  length-append (print_d n)
      (codes "\nContent-Type: text/html; charset=utf-8\nConnection: close\n\n"),
)

pub c_string-overwrite :
    (n : ℕ) (url : List ℕ)
    → length url < n
    → Without 0 url
    → c_string (overwrite (replicate n 0) 0 url) ≡ some url
unfolding c_string
c_string-overwrite zero url h z = absurd (omega arith)
c_string-overwrite (suc n) [] h z = refl
c_string-overwrite (suc n) (b ∷ bs) h z = ground (arith, c_string-overwrite n bs (omega arith) z.1)

pub length-not_found_body : (url : List ℕ) → length (not_found_body url) ≤ 300 + length url
unfolding not_found_body
length-not_found_body url =
    ground
      (arith, length-append url (codes "\" was not found on this server.</p>\n</body>\n</html>"))

>>=-cong :
    (o : Option (Session × Err)) (f g : Session × Err → Step)
    → ((r : Session × Err) → f r ≡ g r)
    → (o >>= f) ≡ (o >>= g)
>>=-cong none f g h = refl
>>=-cong (some r) f g h = h r

send_array-take :
    (env : Tcp) (s : Session) (bytes : List ℕ) (n : ℕ)
    → n ≤ length bytes
    → send_array env s bytes n ≡ tcp_server_send_data env s (take n bytes)
unfolding send_array
send_array-take env s bytes n h = rw (load_bytes-eq-take bytes 0 n (omega arith), ◌>>=◌) refl

send_both_lem :
    (env : Tcp) (s : Session) (join : Err → Err → Err) (header text : List ℕ) (m : ℕ)
    (body : List ℕ × ℕ)
    → length header < m
    → ((s1 : Session) → send_array env s1 body.0 body.1 ≡ tcp_server_send_data env s1 text)
    → send_both env s join (snprintf m header) body ≡ (
        tcp_server_send_data env s header >>= λ (s1, e1).
        tcp_server_send_data env s1 text >>= λ (s2, e2). some (s2, join e1 e2))
unfolding send_both
send_both_lem env s join header text m body short h =
    rw (send_array-snprintf env s header m short) (
      >>=-cong (tcp_server_send_data env s header) _ _
        λ (s1, e1). ap (λ o. o >>= λ (s2, e2). some (s2, join e1 e2)) (h s1))

guarded :
    (env : Tcp) (s : Session) (header bytes : List ℕ) (n : ℕ)
    → length header ≤ 125
    → n ≤ length bytes
    → (let h = snprintf 128 header in
        let sent = send_both env s first_error h (bytes, n) in
        if ltb (128 - 1) h.1 then some (s, clsd) else sent)
      ≡ (tcp_server_send_data env s header >>= λ (s1, e1).
          tcp_server_send_data env s1 (take n bytes) >>= λ (s2, e2). some (s2, first_error e1 e2))
unfolding snprintf
guarded env s header bytes n short h = rw (le→ltb_false 127 (length header) (omega arith)) (
    send_both_lem env s first_error header (take n bytes) 128 (bytes, n) (omega arith)
      λ s1. send_array-take env s1 bytes n h)

-- An answer with `n` bytes of an array that has them is its header and these bytes, for every `n`: the
-- header's buffer is never too small. The status is the first one that is not `ok`.
pub html_server_send_get_responce_lem :
    (env : Tcp) (s : Session) (bytes : List ℕ) (n : ℕ)
    → n ≤ length bytes
    → html_server_send_get_responce env s bytes n ≡ (
        tcp_server_send_data env s (http_response_headers n) >>= λ (s1, e1).
        tcp_server_send_data env s1 (take n bytes) >>= λ (s2, e2). some (s2, first_error e1 e2))
unfolding html_server_send_get_responce
html_server_send_get_responce_lem env s bytes n h =
    guarded env s (http_response_headers n) bytes n (length-http_response_headers n) h

not_found_sent :
    (env : Tcp) (s : Session) (body : List ℕ)
    → length body < 4096
    → send_both env s ok_or_abrt
        (snprintf 128 (http_response_not_found_header (snprintf 4096 body).1))
        (snprintf 4096 body)
      ≡ (tcp_server_send_data env s (http_response_not_found_header (length body)) >>= λ (s1, e1).
          tcp_server_send_data env s1 body >>= λ (s2, e2). some (s2, ok_or_abrt e1 e2))
unfolding snprintf
not_found_sent env s body h =
    send_both_lem env s ok_or_abrt (http_response_not_found_header (length body)) body 128
      (snprintf 4096 body) (omega (arith, length-not_found (length body)))
      λ s1. send_array-snprintf env s1 body 4096 h

-- `http_send_404` after it has found the requested text.
pub after_copy :
    (env : Tcp) (s : Session) (request copy url : List ℕ)
    → small_request_copy request (find_first_index request b' ' 128) ≡ some copy
    → c_string copy ≡ some url
    → length url < 128
    → http_send_404 env s request ≡ (
        tcp_server_send_data env s (http_response_not_found_header (length (not_found_body url)))
        >>= λ (s1, e1). tcp_server_send_data env s1 (not_found_body url) >>= λ (s2, e2).
            some (s2, ok_or_abrt e1 e2))
unfolding http_send_404 small_request_copy
after_copy env s request copy url is_copy is_url h =
    rw (is_copy, ◌>>=◌, is_url, ◌>>=◌)
      (not_found_sent env s (not_found_body url) (omega (arith, length-not_found_body url)))

-- Where a request is a text of less than 128 bytes, with no space or zero, and then a space, the
-- not-found answer is the header with the length of the body, then the body that names this text.
-- The status is `ok` where both were taken, else `abrt`.
pub http_send_404_lem :
    (env : Tcp) (s : Session) (url rest : List ℕ)
    → Without b' ' url
    → Without 0 url
    → length url < 128
    → http_send_404 env s (url ++ b' ' ∷ rest) ≡ (
        tcp_server_send_data env s (http_response_not_found_header (length (not_found_body url)))
        >>= λ (s1, e1). tcp_server_send_data env s1 (not_found_body url) >>= λ (s2, e2).
            some (s2, ok_or_abrt e1 e2))
unfolding small_request_copy
http_send_404_lem env s url rest spaceless zeroless h =
    after_copy env s (url ++ b' ' ∷ rest) (overwrite (replicate 128 0) 0 url) url copied
      (c_string-overwrite 128 url h zeroless) h
  where
    copied :
        small_request_copy (url ++ b' ' ∷ rest) (find_first_index (url ++ b' ' ∷ rest) b' ' 128)
        ≡ some (overwrite (replicate 128 0) 0 url)
    copied =
        rw (find_first_index-found url b' ' 128 rest spaceless zeroless (omega arith) h)
          (rw (take-append (length url) url (b' ' ∷ rest) refl) refl)

-- Where the request's text, without a space, was cut by a zero before its first space, as it is
-- behind a question mark, the not-found answer names the empty text.
pub http_send_404_cut :
    (env : Tcp) (s : Session) (path rest : List ℕ)
    → Without b' ' path
    → Without 0 path
    → http_send_404 env s (path ++ 0 ∷ rest) ≡ (
        tcp_server_send_data env s (http_response_not_found_header (length (not_found_body [])))
        >>= λ (s1, e1). tcp_server_send_data env s1 (not_found_body []) >>= λ (s2, e2).
            some (s2, ok_or_abrt e1 e2))
unfolding small_request_copy c_string
http_send_404_cut env s path rest spaceless zeroless =
    after_copy env s (path ++ 0 ∷ rest) (replicate 128 0) []
      (rw (find_first_index-missing path b' ' 128 rest spaceless zeroless) refl) refl (omega arith)
