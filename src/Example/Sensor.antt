-- ===== src/Example/Sensor.antt =====
-- main.cpp: the example program that joins a network: its pages over the HTTP server. The texts of the
-- temperatures, which are printed from floating point numbers, and the addresses of the texts of the
-- pages are parameters.
pub mod Pages
pub mod Main
pub mod Safety
use pico_common.Common.{
  ℕ, List, [], ◌∷◌, Option, none, some, ◌>>=◌, ◌==◌, if◌then◌else◌, replicate, take, load_bytes,
}
use pico_common.Http.Text.{codes, snprintf}
use pico_common.Http.Url.{UrlItem, register_url}
use pico_common.Http.Request.{Generator}
use pico_common.Http.Response.{html_server_send_get_responce}
use pico_common.Tcp.Session.{Err, is_ok, Session, Step, Tcp, tcp_server_send_data}
use pico_common.Example.{temp_page, status_page, index_page, http_response_file_download_header}

-- An answer with a text that was printed into an array of 1024 bytes.
unfoldable pub send_page : Tcp → List ℕ → Session → Step
unfolding snprintf html_server_send_get_responce
send_page env text s =
    let page = snprintf 1024 text in html_server_send_get_responce env s page.0 page.1

-- `tcp_server_send_data` of the first bytes of an array.
unfoldable pub send_from : Tcp → Session → List ℕ → ℕ → Step
unfolding tcp_server_send_data
send_from env s buf n = load_bytes buf 0 n >>= λ bytes. tcp_server_send_data env s bytes

-- `if ((*write_error_code) != 0) { return; }`
abbrev pub go_on : (Session → Step) → Session × Err → Step
go_on next (s, e) = if is_ok e then next s else some (s, e)

unfoldable pub send_file : Tcp → Session → Step
unfolding send_from snprintf
send_file env s =
    let header = snprintf 256 (http_response_file_download_header 128 (codes "file.txt")) in
    send_from env s header.0 header.1 >>= go_on (λ s1. send_from env s1 (replicate 128 b'H') 128)

abbrev pub temp_c_html_page : Tcp → List ℕ → Generator
temp_c_html_page env temp_c params s = send_page env temp_c s

abbrev pub temp_f_html_page : Tcp → List ℕ → Generator
temp_f_html_page env temp_f params s = send_page env temp_f s

abbrev pub temp_html_page : Tcp → List ℕ → List ℕ → Generator
temp_html_page env temp_c temp_f params s = send_page env (temp_page temp_c temp_f) s

abbrev pub create_status_html_page : Tcp → Generator
create_status_html_page env params s = send_page env status_page s

abbrev pub create_index_html_page : Tcp → Generator
create_index_html_page env params s = send_page env index_page s

abbrev pub file_html_page : Tcp → Generator
file_html_page env params s = send_file env s

-- `html_server_register_generator`.
abbrev pub register_page :
    (List ℕ → ℕ) → List ℕ → Generator → List (UrlItem Generator) → List (UrlItem Generator)
register_page addr url page pages =
    register_url (record { addr = addr url; url = url; html_generator_func = some page }) pages

-- The pages that `main` registers before its last one.
unfoldable pub first_pages : Tcp → (List ℕ → ℕ) → List ℕ → List ℕ → List (UrlItem Generator)
unfolding register_url send_page send_file
first_pages env addr temp_c temp_f =
    let p1 = register_page addr (codes "/status") (create_status_html_page env) [] in
    let p2 = register_page addr (codes "/index.html") (create_index_html_page env) p1 in
    let p3 = register_page addr (codes "/file") (file_html_page env) p2 in
    let p4 = register_page addr (codes "/tempC") (temp_c_html_page env temp_c) p3 in
    register_page addr (codes "/tempF") (temp_f_html_page env temp_f) p4

unfoldable pub sensor_pages : Tcp → (List ℕ → ℕ) → List ℕ → List ℕ → List (UrlItem Generator)
unfolding register_url send_page first_pages
sensor_pages env addr temp_c temp_f =
    register_page addr (codes "/temp") (temp_html_page env temp_c temp_f)
      (first_pages env addr temp_c temp_f)
