-- ===== src/Example/Sensor/Pages.antt =====
-- main.cpp: the temperature page over the HTTP server.
use pico_common.Common.{
  ℕ, ◌<◌, ◌^◌, ◌+◌, ◌-◌, ◌≤◌, ◌≡◌, ◌≢◌, refl, ◌∙◌, ap, inl, inr, List, [], ◌∷◌, ◌++◌, none, some,
  arith, ltb, ◌==◌, Bool-cases, length, replicate, take, drop, overwrite, overwrite-zero,
  take-append, take-length, length-overwrite,
}
use pico_common.Http.Text.{codes, snprintf, http_response_headers}
use pico_common.Http.Text.Strings.{Without}
use pico_common.Http.Url.{UrlItem, register_url}
use pico_common.Http.Url.Lookup.{Unlisted}
use pico_common.Http.Request.{Generator, handle_tcp_data}
use pico_common.Http.Request.Pages.{handle_tcp_data-plain}
use pico_common.Http.Response.{html_server_send_get_responce}
use pico_common.Http.Response.Written.{length-replicate}
use pico_common.Http.Response.Delivered.{Delivers, html_server_send_get_responce-Delivers}
use pico_common.Tcp.Session.{ok, Session, Tcp}
use pico_common.Tcp.Session.Safety.{IsOpen}
use pico_common.Example.{temp_page, status_page, index_page}
use pico_common.Example.Safety.{temp_page-short}
use pico_common.Example.Sensor.{send_page, send_file, register_page, first_pages, sensor_pages}

register_url-Unlisted :
    (url : List ℕ) (item : UrlItem Generator) (pages : List (UrlItem Generator))
    → item.url ≢ url
    → Unlisted url pages
    → Unlisted url (register_url item pages)
unfolding register_url
register_url-Unlisted url item [] ne rest = (ne, tt)
register_url-Unlisted url item (x ∷ xs) ne rest = elim (Bool-cases (ltb item.addr x.addr)) [
  | inl before ↦ rw before (ne, rest)
  | inr later ↦ elim (Bool-cases (item.addr == x.addr)) [
    | inl same ↦ rw (later, same) (ne, rest.1)
    | inr behind ↦ rw (later, behind) (rest.0, register_url-Unlisted url item xs ne rest.1)
  ]
]

-- A text that is printed into a larger array and read back by its length.
read_printed :
    (size : ℕ) (text : List ℕ)
    → length text + 1 ≤ size
    → take (snprintf size text).1 (snprintf size text).0 ≡ text
unfolding snprintf
read_printed size text room =
    ap (λ t. take (length text) (overwrite (replicate size 0) 0 t))
      (take-length (size - 1) text (omega arith))
    ∙ (ap (take (length text))
          (overwrite-zero (replicate size 0) text (omega (arith, length-replicate size)))
        ∙ take-append (length text) text (drop (length text) (replicate size 0)) refl)

printed_room :
    (size : ℕ) (text : List ℕ)
    → length text ≤ size
    → (snprintf size text).1 ≤ length (snprintf size text).0
unfolding snprintf
printed_room size text room =
    omega
      (arith, length-overwrite (replicate size 0) 0 (take (size - 1) text), length-replicate size)

printed_length : (size : ℕ) (text : List ℕ) → (snprintf size text).1 ≡ length text
unfolding snprintf
printed_length size text = refl

sent_array :
    (env : Tcp) (s : Session) (buf text : List ℕ) (n : ℕ)
    → IsOpen s
    → n ≤ length buf
    → n < 2 ^ 16
    → take n buf ≡ text
    → ((k : ℕ) → env.write_err k ≡ ok)
    → Delivers s (http_response_headers n ∷ text ∷ []) (html_server_send_get_responce env s buf n)
sent_array env s buf text n o room small read takes = rw⁻¹ read (
    html_server_send_get_responce-Delivers env s buf n o room small
      (takes (length (http_response_headers n))) (takes (length (take n buf))))

send_page-Delivers :
    (env : Tcp) (text : List ℕ) (s : Session)
    → IsOpen s
    → length text ≤ 1023
    → ((n : ℕ) → env.write_err n ≡ ok)
    → Delivers s (http_response_headers (length text) ∷ text ∷ []) (send_page env text s)
unfolding send_page snprintf
send_page-Delivers env text s o short takes =
    sent_array env s (snprintf 1024 text).0 text (snprintf 1024 text).1 o
      (printed_room 1024 text (omega arith)) (omega arith) (read_printed 1024 text (omega arith))
      takes

register_page-Unlisted :
    (addr : List ℕ → ℕ) (other url : List ℕ) (page : Generator) (pages : List (UrlItem Generator))
    → url ≢ other
    → Unlisted other pages
    → Unlisted other (register_page addr url page pages)
register_page-Unlisted addr other url page pages ne rest =
    register_url-Unlisted other
      (record { addr = addr url; url = url; html_generator_func = some page }) pages ne rest

first_pages-Unlisted :
    (env : Tcp) (addr : List ℕ → ℕ) (temp_c temp_f : List ℕ)
    → Unlisted (codes "/temp") (first_pages env addr temp_c temp_f)
unfolding first_pages
first_pages-Unlisted env addr temp_c temp_f =
    let key = codes "/temp" in
    let p1 = register_page addr (codes "/status") (λ params s. send_page env status_page s) [] in
    let p2 = register_page addr (codes "/index.html") (λ params s. send_page env index_page s) p1 in
    let p3 = register_page addr (codes "/file") (λ params s. send_file env s) p2 in
    let p4 = register_page addr (codes "/tempC") (λ params s. send_page env temp_c s) p3 in
    let u1 =
      register_page-Unlisted addr key (codes "/status") (λ params s. send_page env status_page s) []
        (ground arith) tt in
    let u2 =
      register_page-Unlisted addr key (codes "/index.html") (λ params s. send_page env index_page s)
        p1 (ground arith) u1 in
    let u3 =
      register_page-Unlisted addr key (codes "/file") (λ params s. send_file env s) p2
        (ground arith) u2 in
    let u4 =
      register_page-Unlisted addr key (codes "/tempC") (λ params s. send_page env temp_c s) p3
        (ground arith) u3 in
    register_page-Unlisted addr key (codes "/tempF") (λ params s. send_page env temp_f s) p4
      (ground arith) u4

Without-append : (ch : ℕ) (xs ys : List ℕ) → Without ch xs → Without ch ys → Without ch (xs ++ ys)
Without-append ch [] ys w v = v
Without-append ch (x ∷ xs) ys w v = (w.0, Without-append ch xs ys w.1 v)

-- On an open connection, where lwIP takes every write and the texts of the temperatures have at most 900
-- bytes together, a request "GET /temp rest" without a question mark, before a closing zero, is answered
-- with the header for the temperature page's length and then the page with both texts, wherever the texts
-- of the pages lie in memory, and the connection stays open.
pub get_temp-Delivers :
    (env : Tcp) (addr : List ℕ → ℕ) (temp_c temp_f more rest : List ℕ) (n : ℕ) (s : Session)
    → length temp_c + length temp_f ≤ 900
    → IsOpen s
    → ((k : ℕ) → env.write_err k ≡ ok)
    → Without b'?' more
    → Without 0 more
    → Delivers s
        (http_response_headers (length (temp_page temp_c temp_f)) ∷ temp_page temp_c temp_f ∷ [])
        (handle_tcp_data env
          (sensor_pages env addr temp_c temp_f)
          none
          (codes "GET /temp " ++ (more ++ 0 ∷ rest))
          n
          s)
unfolding sensor_pages
get_temp-Delivers env addr temp_c temp_f more rest n s short o takes plain zeroless =
    rw
      (handle_tcp_data-plain env item page (first_pages env addr temp_c temp_f) none more rest n s
        refl (first_pages-Unlisted env addr temp_c temp_f)
        (Without-append b'?' (codes "/temp ") more (ground arith) plain)
        (Without-append 0 (codes "/temp ") more (ground arith) zeroless) (ground arith)
        (omega arith))
      (send_page-Delivers env (temp_page temp_c temp_f) s o (temp_page-short temp_c temp_f short)
        takes)
  where
    page : Generator
    page params s' = send_page env (temp_page temp_c temp_f) s'

    item : UrlItem Generator
    item = record {
      addr = addr (codes "/temp");
      url = codes "/temp";
      html_generator_func = some page;
    }
