-- ===== src/Example/Sensor/Safety.antt =====
-- main.cpp: the memory that a connection to the example's web server uses.
use pico_common.Common.{
  ℕ, ◌+◌, ◌-◌, ◌≤◌, ◌≡◌, refl, ◌∙◌, inl, inr, List, [], ◌∷◌, Bool, false, none, some, arith, ltb,
  ◌==◌, Bool-cases, ◌>>=◌, length, take, replicate, load_bytes-eq-take, length-overwrite,
}
use pico_common.Http.Text.{codes, snprintf, print_d, http_response_headers}
use pico_common.Http.Url.{UrlItem, register_url}
use pico_common.Http.Response.{first_error}
use pico_common.Http.Response.Written.{html_server_send_get_responce_lem, length-replicate}
use pico_common.Http.Request.{Generator, handle_tcp_data}
use pico_common.Http.Request.Closed.{EndsZero}
use pico_common.Http.Request.Safety.{GoodPage, AllGood, both-Follows, handle_tcp_data-KeepsOpen}
use pico_common.Tcp.Session.{Err, is_ok, Session, Tcp, Event, tcp_server_accept, run}
use pico_common.Tcp.Session.Safety.{
  IsOpen, IsSafe, Yields, Follows, AllOrdinary, tcp_server_send_data-IsOpen, run-IsSafe,
}
use pico_common.Example.{temp_page, status_page, index_page, http_response_file_download_header}
use pico_common.Example.Safety.{temp_page-short}
use pico_common.Example.Sensor.{
  send_page, send_from, send_file, temp_c_html_page, temp_f_html_page, temp_html_page,
  create_status_html_page, create_index_html_page, file_html_page, register_page, first_pages,
  sensor_pages,
}

register_url-AllGood :
    (item : UrlItem Generator) (pages : List (UrlItem Generator))
    → GoodPage item.html_generator_func
    → AllGood pages
    → AllGood (register_url item pages)
unfolding register_url
register_url-AllGood item [] page good = (page, tt)
register_url-AllGood item (x ∷ xs) page good = elim (Bool-cases (ltb item.addr x.addr)) [
  | inl before ↦ rw before (page, good)
  | inr later ↦ elim (Bool-cases (item.addr == x.addr)) [
    | inl same ↦ rw (later, same) (page, good.1)
    | inr behind ↦ rw (later, behind) (good.0, register_url-AllGood item xs page good.1)
  ]
]

register_page-AllGood :
    (addr : List ℕ → ℕ) (url : List ℕ) (page : Generator) (pages : List (UrlItem Generator))
    → GoodPage (some page)
    → AllGood pages
    → AllGood (register_page addr url page pages)
register_page-AllGood addr url page pages good rest =
    register_url-AllGood (record { addr = addr url; url = url; html_generator_func = some page })
      pages good rest

send_page-Follows :
    (env : Tcp) (text : List ℕ) (s : Session)
    → length text ≤ 1024
    → IsOpen s
    → Yields (Follows s) (send_page env text s)
unfolding send_page snprintf
send_page-Follows env text s short o =
    let page = snprintf 1024 text in
    rw
      (html_server_send_get_responce_lem env s page.0 page.1 (
        omega (
          arith,
          length-overwrite (replicate 1024 0) 0 (take (1024 - 1) text),
          length-replicate 1024,
        )))
      (both-Follows env s (http_response_headers page.1) (take page.1 page.0) first_error o)

send_from-Follows :
    (env : Tcp) (s : Session) (buf : List ℕ) (n : ℕ)
    → n ≤ length buf
    → IsOpen s
    → Yields (Follows s) (send_from env s buf n)
unfolding send_from
send_from-Follows env s buf n room o =
    rw (load_bytes-eq-take buf 0 n (omega arith), ◌>>=◌)
      (tcp_server_send_data-IsOpen env s (take n buf) o)

send_file-Follows : (env : Tcp) (s : Session) → IsOpen s → Yields (Follows s) (send_file env s)
unfolding send_file snprintf print_d
send_file-Follows env s o =
    let header = snprintf 256 (http_response_file_download_header 128 (codes "file.txt")) in
    let (s1, e1, sent, (o1, same)) = send_from-Follows env s header.0 header.1 (omega arith) o in
    let (s2, e2, sent', (o2, same')) =
      send_from-Follows env s1 (replicate 128 b'H') 128 (omega arith) o1 in
    rw (sent, ◌>>=◌)
      (elim (Bool-cases (is_ok e1)) [
        | inl fine ↦ rw fine (s2, e2, sent', (o2, same' ∙ same))
        | inr bad ↦ rw bad (s1, e1, refl, (o1, same))
      ])

accept-IsSafe :
    (env : Tcp) (err : Err) (has_pcb : Bool) → IsSafe (tcp_server_accept env err has_pcb).0
unfolding tcp_server_accept
accept-IsSafe env err has_pcb = elim (Bool-cases (is_ok err)) [
  | inr bad ↦ rw bad (inr (refl, omega arith))
  | inl fine ↦ elim (Bool-cases has_pcb) [
    | inr gone ↦ rw (fine, gone) (inr (refl, omega arith))
    | inl there ↦ elim (Bool-cases env.calloc_ok) [
      | inr full ↦ rw (fine, there, full) (inr (refl, omega arith))
      | inl room ↦
          rw (fine, there, room)
            (inl (
              record {
                state = record { written_len = 0; sent_len = 0; dont_close_on_send_finish = false };
                held = refl;
                pcb_held = refl;
                listens = refl;
              },
              refl,
            ))
    ]
  ]
]

module _ (env : Tcp) (addr : List ℕ → ℕ) (temp_c temp_f : List ℕ)
    (short : length temp_c + length temp_f ≤ 900) where
  sensor_pages-AllGood : AllGood (sensor_pages env addr temp_c temp_f)
  unfolding sensor_pages first_pages
  sensor_pages-AllGood =
      let p1 = register_page addr (codes "/status") (create_status_html_page env) [] in
      let p2 = register_page addr (codes "/index.html") (create_index_html_page env) p1 in
      let p3 = register_page addr (codes "/file") (file_html_page env) p2 in
      let p4 = register_page addr (codes "/tempC") (temp_c_html_page env temp_c) p3 in
      let p5 = register_page addr (codes "/tempF") (temp_f_html_page env temp_f) p4 in
      let g1 =
        register_page-AllGood addr (codes "/status") (create_status_html_page env) []
          (λ params s o. send_page-Follows env status_page s (omega arith) o) tt in
      let g2 =
        register_page-AllGood addr (codes "/index.html") (create_index_html_page env) p1
          (λ params s o. send_page-Follows env index_page s (omega arith) o) g1 in
      let g3 =
        register_page-AllGood addr (codes "/file") (file_html_page env) p2
          (λ params s o. send_file-Follows env s o) g2 in
      let g4 =
        register_page-AllGood addr (codes "/tempC") (temp_c_html_page env temp_c) p3
          (λ params s o. send_page-Follows env temp_c s (omega (arith, short)) o) g3 in
      let g5 =
        register_page-AllGood addr (codes "/tempF") (temp_f_html_page env temp_f) p4
          (λ params s o. send_page-Follows env temp_f s (omega (arith, short)) o) g4 in
      register_page-AllGood addr (codes "/temp") (temp_html_page env temp_c temp_f) p5
        (λ params s o.
          send_page-Follows env (temp_page temp_c temp_f) s
            (omega (arith, temp_page-short temp_c temp_f short)) o)
        g5

  -- From the call of `tcp_server_accept`, whatever it is given, no sequence of acknowledgements, packets of any
  -- length and content, closes by the peer, time-outs and aborts makes the server of main.cpp use memory that is
  -- not its own or lies outside its arrays, whatever lwIP answers, where the buffer for a packet has 128 bytes and
  -- held a zero as its last one, and the texts of the two temperatures have at most 900 bytes together; every
  -- packet was freed then where the connection is open, and else all but at most one.
  pub sensor-IsSafe :
      (err : Err) (has_pcb : Bool) (buffer : List ℕ) (events : List Event)
      → EndsZero 127 buffer
      → AllOrdinary events
      → (s' : Session) × (run env
            (some (handle_tcp_data env (sensor_pages env addr temp_c temp_f) none))
            buffer
            (tcp_server_accept env err has_pcb).0
            events
          ≡ some s')
        × IsSafe s'
  sensor-IsSafe err has_pcb buffer events ends ord =
      run-IsSafe env (handle_tcp_data env (sensor_pages env addr temp_c temp_f) none) buffer events
        (tcp_server_accept env err has_pcb).0
        (handle_tcp_data-KeepsOpen env (sensor_pages env addr temp_c temp_f) 123 buffer
          sensor_pages-AllGood ends (omega arith))
        ord (accept-IsSafe env err has_pcb)
