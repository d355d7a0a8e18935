-- ===== src/Example/Safety.antt =====
-- main_ap.cpp: the memory that a connection to the example program uses.
use pico_common.Common.{
  ℕ, ◌+◌, ◌-◌, ◌≤◌, ◌≡◌, refl, inl, inr, List, [], ◌∷◌, ◌++◌, Bool, Option, some, arith, ltb, ◌==◌,
  Bool-cases, length, length-append, length-overwrite, replicate, take,
}
use pico_common.Net.{Ip4}
use pico_common.Http.Text.{codes, snprintf, print_d}
use pico_common.Http.Url.{UrlItem, register_url}
use pico_common.Http.Response.Written.{length-replicate}
use pico_common.Tcp.Session.{Err, Tcp, Event}
use pico_common.Tcp.Session.Safety.{AllOrdinary}
use pico_common.AccessPoint.Connection.{Session, local_array, tcp_server_accept, ap_tcp_write}
use pico_common.AccessPoint.Request.{Generator}
use pico_common.AccessPoint.Safety.{
  IsOpen, IsSafe, Sound, Sound-if_ok, write_or_close-Sound, ap_send_get_responce-Sound,
}
use pico_common.AccessPoint.Run.{run}
use pico_common.AccessPoint.Run.Pages.{SoundPage, AllSound}
use pico_common.AccessPoint.Run.Accepted.{run-tcp_server_accept}
use pico_common.Example.{
  http_response_file_download_header, send_text, file_html_page, create_status_html_page,
  create_index_html_page, temp_c_html_page, temp_f_html_page, temp_html_page, temp_page,
  status_page, index_page, register, main_pages, main_site,
}

register_url-AllSound :
    (item : UrlItem Generator) (pages : List (UrlItem Generator))
    → SoundPage item.html_generator_func
    → AllSound pages
    → AllSound (register_url item pages)
unfolding register_url
register_url-AllSound item [] page sound = (page, tt)
register_url-AllSound item (x ∷ xs) page sound = elim (Bool-cases (ltb item.addr x.addr)) [
  | inl before ↦ rw before (page, sound)
  | inr later ↦ elim (Bool-cases (item.addr == x.addr)) [
    | inl same ↦ rw (later, same) (page, sound.1)
    | inr behind ↦ rw (later, behind) (sound.0, register_url-AllSound item xs page sound.1)
  ]
]

length-snprintf : (size : ℕ) (text : List ℕ) → length (snprintf size text).0 ≡ size
unfolding snprintf
length-snprintf size text =
    omega
      (arith, length-overwrite (replicate size 0) 0 (take (size - 1) text), length-replicate size)

printed : (size : ℕ) (text : List ℕ) → (snprintf size text).1 ≡ length text
unfolding snprintf
printed size text = refl

send_text-Sound :
    (env : Tcp) (text : List ℕ) (s : Session)
    → length text ≤ 1024
    → IsOpen s
    → Sound (send_text env text s)
unfolding send_text
send_text-Sound env text s short o =
    ap_send_get_responce-Sound env s (snprintf 1024 text).0 (snprintf 1024 text).1 o
      (omega (arith, length-snprintf 1024 text, printed 1024 text))

file_html_page-Sound :
    (env : Tcp) (params : Option (List ℕ)) (s : Session)
    → IsOpen s
    → Sound (file_html_page env params s)
unfolding file_html_page ap_tcp_write snprintf print_d
file_html_page-Sound env params s o =
    let header = snprintf 256 (http_response_file_download_header 128 (codes "file.txt")) in
    Sound-if_ok (λ s1. ap_tcp_write env s1 (replicate 128 b'H') 128)
      (write_or_close-Sound env s local_array header.0 header.1 o (omega arith))
      λ s1 o1. write_or_close-Sound env s1 local_array (replicate 128 b'H') 128 o1 (omega arith)

pub temp_page-short :
    (temp_c temp_f : List ℕ)
    → length temp_c + length temp_f ≤ 900
    → length (temp_page temp_c temp_f) ≤ 1023
temp_page-short temp_c temp_f short = omega (
  arith,
  length-append temp_c
      (codes "</p><p>Onboard temperature F = " ++ (temp_f ++ codes "</p></body></html>")),
  length-append temp_f (codes "</p></body></html>"),
)

register-AllSound :
    (addr : List ℕ → ℕ) (url : List ℕ) (page : Generator) (pages : List (UrlItem Generator))
    → SoundPage (some page)
    → AllSound pages
    → AllSound (register addr url page pages)
register-AllSound addr url page pages sound rest =
    register_url-AllSound (record { addr = addr url; url = url; html_generator_func = some page })
      pages sound rest

module _ (env : Tcp) (addr : List ℕ → ℕ) (temp_c temp_f : List ℕ)
    (short : length temp_c + length temp_f ≤ 900) where
  main_pages-AllSound : AllSound (main_pages env addr temp_c temp_f)
  unfolding main_pages
  main_pages-AllSound =
      let p1 = register addr (codes "/status") (create_status_html_page env) [] in
      let p2 = register addr (codes "/index.html") (create_index_html_page env) p1 in
      let p3 = register addr (codes "/file") (file_html_page env) p2 in
      let p4 = register addr (codes "/tempC") (temp_c_html_page env temp_c) p3 in
      let p5 = register addr (codes "/tempF") (temp_f_html_page env temp_f) p4 in
      let s1 =
        register-AllSound addr (codes "/status") (create_status_html_page env) []
          (λ params s o. send_text-Sound env status_page s (omega arith) o) tt in
      let s2 =
        register-AllSound addr (codes "/index.html") (create_index_html_page env) p1
          (λ params s o. send_text-Sound env index_page s (omega arith) o) s1 in
      let s3 =
        register-AllSound addr (codes "/file") (file_html_page env) p2
          (λ params s o. file_html_page-Sound env params s o) s2 in
      let s4 =
        register-AllSound addr (codes "/tempC") (temp_c_html_page env temp_c) p3
          (λ params s o. send_text-Sound env temp_c s (omega (arith, short)) o) s3 in
      let s5 =
        register-AllSound addr (codes "/tempF") (temp_f_html_page env temp_f) p4
          (λ params s o. send_text-Sound env temp_f s (omega (arith, short)) o) s4 in
      register-AllSound addr (codes "/temp") (temp_html_page env temp_c temp_f) p5
        (λ params s o.
          send_text-Sound env (temp_page temp_c temp_f) s
            (omega (arith, temp_page-short temp_c temp_f short)) o)
        s5

  -- From the call of `tcp_server_accept`, no sequence of acknowledgements, packets of any length and
  -- content, closes by the peer, time-outs and aborts, other errors left out, makes the callbacks and
  -- pages of the example program themselves use memory that is not their own or lies outside its arrays, whatever
  -- lwIP answers, where the texts of the two temperatures have at most 900 bytes together. What lwIP reads later
  -- from the arrays that it was lent is not part of this.
  pub main_site-IsSafe :
      (gw : Ip4) (err : Err) (has_pcb : Bool) (events : List Event)
      → AllOrdinary events
      → (s' : Session) × (run env
            (main_site env addr temp_c temp_f)
            (tcp_server_accept env gw err has_pcb).0
            events
          ≡ some s')
        × IsSafe s'
  main_site-IsSafe gw err has_pcb events ord =
      run-tcp_server_accept env (main_site env addr temp_c temp_f)
        (record { pages_sound = main_pages-AllSound; handler_sound = tt; url_short = omega arith })
        gw err has_pcb events ord
