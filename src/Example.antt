-- ===== src/Example.antt =====
-- main_ap.cpp: the example program of an access point: its pages. The texts of the temperatures, which
-- the program prints from floating point numbers, are parameters, and so are the addresses of the texts
-- of the pages, which order the map.
pub mod Safety
pub mod Prefixes
pub mod Sensor
pub mod Blink
pub mod Startup
pub mod Main
pub mod Tests
use pico_common.Common.{ℕ, ◌+◌, List, [], ◌∷◌, ◌++◌, Option, none, some, ◌>>=◌, replicate, length}
use pico_common.Http.Text.{codes, snprintf, print_d}
use pico_common.Http.Url.{UrlItem, register_url}
use pico_common.Tcp.Session.{Tcp}
use pico_common.AccessPoint.Connection.{Session, Step, ap_tcp_write, ap_send_get_responce, if_ok}
use pico_common.AccessPoint.Request.{Generator, Site}

-- An answer with a text that was printed into an array of 1024 bytes.
unfoldable pub send_text : Tcp → List ℕ → Session → Step
unfolding snprintf ap_send_get_responce
send_text env text s = let page = snprintf 1024 text in ap_send_get_responce env s page.0 page.1

abbrev pub temp_c_html_page : Tcp → List ℕ → Generator
temp_c_html_page env temp_c params s = send_text env temp_c s

abbrev pub temp_f_html_page : Tcp → List ℕ → Generator
temp_f_html_page env temp_f params s = send_text env temp_f s

abbrev pub temp_page : List ℕ → List ℕ → List ℕ
temp_page temp_c temp_f =
    codes "<html><body><h1>Temperature</h1><p>Onboard temperature C = "
    ++ (temp_c
        ++ (codes "</p><p>Onboard temperature F = " ++ (temp_f ++ codes "</p></body></html>")))

abbrev pub temp_html_page : Tcp → List ℕ → List ℕ → Generator
temp_html_page env temp_c temp_f params s = send_text env (temp_page temp_c temp_f) s

abbrev pub status_page : List ℕ
status_page = codes "<html><body><h1>Status</h1><p>Some status information</p></body></html>"

abbrev pub create_status_html_page : Tcp → Generator
create_status_html_page env params s = send_text env status_page s

abbrev pub index_page : List ℕ
index_page = codes "<html><body><h1>Status</h1><p>Index: </p></body></html>"

abbrev pub create_index_html_page : Tcp → Generator
create_index_html_page env params s = send_text env index_page s

abbrev pub http_response_file_download_header : ℕ → List ℕ → List ℕ
http_response_file_download_header n name =
    codes "HTTP/1.1 200 OK\nServer: PICOW (RP2040)\nContent-Type: text/plain\nContent-Length: "
    ++ (print_d n
        ++ (codes "\nContent-Disposition: attachment; filename=\""
            ++ (name ++ codes "\"\nConnection: close\n\n")))

unfoldable pub file_html_page : Tcp → Generator
unfolding snprintf ap_tcp_write
file_html_page env params s =
    let file_data = replicate 128 b'H' in
    let header = snprintf 256 (http_response_file_download_header 128 (codes "file.txt")) in
    ap_tcp_write env s header.0 header.1 >>= if_ok (λ s1. ap_tcp_write env s1 file_data 128)

-- `ap_register_html_generator`.
abbrev pub register :
    (List ℕ → ℕ) → List ℕ → Generator → List (UrlItem Generator) → List (UrlItem Generator)
register addr url page pages =
    register_url (record { addr = addr url; url = url; html_generator_func = some page }) pages

-- The pages that `main` registers.
unfoldable pub main_pages : Tcp → (List ℕ → ℕ) → List ℕ → List ℕ → List (UrlItem Generator)
unfolding register_url file_html_page send_text
main_pages env addr temp_c temp_f =
    let p1 = register addr (codes "/status") (create_status_html_page env) [] in
    let p2 = register addr (codes "/index.html") (create_index_html_page env) p1 in
    let p3 = register addr (codes "/file") (file_html_page env) p2 in
    let p4 = register addr (codes "/tempC") (temp_c_html_page env temp_c) p3 in
    let p5 = register addr (codes "/tempF") (temp_f_html_page env temp_f) p4 in
    register addr (codes "/temp") (temp_html_page env temp_c temp_f) p5

-- The site of the program, which sets no handler and leaves `default_url` as it is.
abbrev pub main_site : Tcp → (List ℕ → ℕ) → List ℕ → List ℕ → Site
main_site env addr temp_c temp_f = record {
  pages = main_pages env addr temp_c temp_f;
  get_handler = none;
  default_url = codes "/index.html";
}
