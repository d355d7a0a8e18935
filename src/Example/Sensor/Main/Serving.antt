-- ===== src/Example/Sensor/Main/Serving.antt =====
-- main.cpp: a request to the program that was started.
use pico_common.Common.{
  ◌<◌, ◌^◌, ℕ, ◌+◌, ◌-◌, ◌≤◌, ◌≡◌, ◌≢◌, refl, ◌∙◌, ap, List, [], ◌∷◌, ◌++◌, true, false, Option,
  none, some, arith, ◌>>=◌, length, take, drop, take-length, overwrite, overwrite-zero,
  copy_partial,
}
use pico_common.Http.Text.Numbers.{AreDigits, value_from, print_d-AreDigits, print_d-value}
use pico_common.Http.Text.{print_d, codes, http_response_headers}
use pico_common.Http.Text.Strings.{Without}
use pico_common.Http.Request.{handle_tcp_data}
use pico_common.Http.Lifecycle.{OnData, prepared, http_server_start}
use pico_common.Wifi.{Start, Answers}
use pico_common.Tcp.Session.{
  ok, Session, Tcp, Handler, arrived, after_data, receive, tcp_server_recv, tcp_server_accept,
  on_event, run,
}
use pico_common.Tcp.Session.Safety.{IsOpen}
use pico_common.Tcp.Lifecycle.{tcp_server_start_timeout, live, Global, Opens}
use pico_common.Tcp.Lifecycle.Laws.{
  AllWell, started, tcp_server_start_timeout_well, tcp_server_start_timeout_fails,
  tcp_server_start_timeout_status,
}
use pico_common.Filesystem.Hal.{Hal, Laws}
use pico_common.Filesystem.Boot.Count.{init_filesystem_lem}
use pico_common.Status.Temperature.{Adc}
use pico_common.Example.{temp_page}
use pico_common.Example.Startup.{prepare_loop}
use pico_common.Example.Sensor.{sensor_pages}
use pico_common.Example.Sensor.Pages.{get_temp-Delivers}
use pico_common.Example.Sensor.Main.{
  Program, wifi_ssid, wifi_password, host_name, after_filesystem, main,
}

-- The arguments that `main` gives to the start.
abbrev pub network : Start
network = record {
  wifi_ssid = wifi_ssid;
  wifi_password = wifi_password;
  hostname = host_name;
  wifi_connect_timeout_ms = 30000;
}

-- A connection that the server has just accepted.
abbrev accepted : Session
accepted = record {
  con = some (record { written_len = 0; sent_len = 0; dont_close_on_send_finish = false });
  pcb = true;
  callbacks = true;
  written = [];
  received = 0;
  packets = 0;
}

accepted-IsOpen : IsOpen accepted
accepted-IsOpen = record {
  state = record { written_len = 0; sent_len = 0; dont_close_on_send_finish = false };
  held = refl;
  pcb_held = refl;
  listens = refl;
}

one_packet-IsOpen : IsOpen (record accepted { packets = 1 })
unfolding accepted-IsOpen
one_packet-IsOpen = record {
  state = accepted-IsOpen.state;
  held = refl;
  pcb_held = refl;
  listens = refl;
}

accept_lem : (env : Tcp) → env.calloc_ok ≡ true → tcp_server_accept env ok true ≡ (accepted, ok)
unfolding tcp_server_accept
accept_lem env room = rw room refl

after_data_lem :
    (env : Tcp) (total : ℕ) (s : Session)
    → s.pcb ≡ true
    → after_data env total (s, ok)
      ≡ some (record s { received = s.received + total; packets = s.packets - 1 }, ok)
unfolding after_data
after_data_lem env total s held = rw held refl

event_lem :
    (env : Tcp) (handler : Option Handler) (buffer p : List ℕ) (s : Session)
    → s.callbacks ≡ true
    → on_event env handler buffer s (arrived p) ≡ tcp_server_recv env handler buffer s (some p)
unfolding on_event
event_lem env handler buffer p s listens = rw listens refl

recv_lem :
    (env : Tcp) (handler : Handler) (buffer p bytes : List ℕ) (b n : ℕ) (s s1 : Session)
    → s1.pcb ≡ true
    → copy_partial (b ∷ p) (length buffer - 1) buffer ≡ bytes
    → length (take (length buffer - 1) (b ∷ p)) ≡ n
    → handler bytes n (record s { packets = s.packets + 1 }) ≡ some (s1, ok)
    → tcp_server_recv env (some handler) buffer s (some (b ∷ p))
      ≡ some (record s1 { received = s1.received + length (b ∷ p); packets = s1.packets - 1 }, ok)
unfolding tcp_server_recv receive
recv_lem env handler buffer p bytes b n s s1 held copied counted answers =
    rw (copied, counted, answers, ◌>>=◌) (after_data_lem env (length (b ∷ p)) s1 held)

-- A packet that is answered: what the connection is left with.
run-arrived :
    (env : Tcp) (handler : Handler) (buffer p bytes : List ℕ) (b n : ℕ) (s s1 : Session)
    → IsOpen s
    → IsOpen s1
    → copy_partial (b ∷ p) (length buffer - 1) buffer ≡ bytes
    → length (take (length buffer - 1) (b ∷ p)) ≡ n
    → handler bytes n (record s { packets = s.packets + 1 }) ≡ some (s1, ok)
    → run env (some handler) buffer s (arrived (b ∷ p) ∷ [])
      ≡ some (record s1 { received = s1.received + length (b ∷ p); packets = s1.packets - 1 })
unfolding run
run-arrived env handler buffer p bytes b n s s1 o o1 copied counted answers =
    ap (λ r. r >>= λ (s', _). run env (some handler) buffer s' [])
      (event_lem env (some handler) buffer (b ∷ p) s o.listens
        ∙ recv_lem env handler buffer p bytes b n s s1 o1.pcb_held copied counted answers)

-- A packet that leaves the array's next byte as it is, which is a zero.
copied-request :
    (buffer text rest : List ℕ)
    → length text + 1 ≤ length buffer
    → drop (length text) buffer ≡ 0 ∷ rest
    → copy_partial text (length buffer - 1) buffer ≡ text ++ 0 ∷ rest
copied-request buffer text rest room closed =
    ap (overwrite buffer 0) (take-length (length buffer - 1) text (omega arith))
    ∙ (overwrite-zero buffer text (omega arith) ∙ ap (λ t. text ++ t) closed)

module _ {Disk : Type 0} (hal : Hal Disk) (laws : Laws hal) (env : Tcp) (a : Answers) (o : Opens)
    (addr : List ℕ → ℕ) (temp_c temp_f : List ℕ) where
  main_lem :
      (adc : Adc) (g : Global OnData) (now : ℕ) (d : Disk)
      → (d' : Disk) × (main hal env a o addr temp_c temp_f adc g now d
          ≡ some (after_filesystem hal env a o addr temp_c temp_f adc g now d'))
  unfolding main
  main_lem adc g now d =
      let (d', done, held, others) = init_filesystem_lem hal laws d in
      (
        d',
        ap
            (λ r.
              r >>= λ disk. some (after_filesystem hal env a o addr temp_c temp_f adc g now disk))
            done,
      )

  server_lem :
      (adc : Adc) (g : Global OnData) (now : ℕ) (d : Disk)
      → AllWell a o network 80
      → (after_filesystem hal env a o addr temp_c temp_f adc g now d).server
        ≡ started a network (prepared env g)
  unfolding after_filesystem http_server_start
  server_lem adc g now d well =
      ap (λ r. r.0) (tcp_server_start_timeout_well a o network 80 (prepared env g) well)

  -- On a flash that can be mounted, where the wifi, the memory, the port and the backlog are granted and lwIP
  -- takes every write: `main` comes to its loop with a server that listens, and a connection that is then
  -- accepted and sends "GET /temp ", with a text without a question mark or a zero behind it, in a packet that
  -- fits into the buffer before a zero, is sent the header for the temperature page and the page with both
  -- temperatures, the packet is freed, and the connection stays open. The texts of the temperatures have at most 900 bytes together.
  pub main-serves_temp :
      (adc : Adc) (g : Global OnData) (now : ℕ) (d : Disk) (buffer more rest : List ℕ)
      → AllWell a o network 80
      → env.calloc_ok ≡ true
      → ((k : ℕ) → env.write_err k ≡ ok)
      → length temp_c + length temp_f ≤ 900
      → Without b'?' more
      → Without 0 more
      → length buffer ≡ 128
      → length (codes "GET /temp " ++ more) ≤ 127
      → drop (length (codes "GET /temp " ++ more)) buffer ≡ 0 ∷ rest
      → let text = temp_page temp_c temp_f in
        (p : Program Disk) × (main hal env a o addr temp_c temp_f adc g now d ≡ some p)
        × (p.server.tcp_server_state ≡ live true)
        × (p.server.tcp_server_max_read_size ≡ length buffer)
        × (on_data : OnData) × (p.server.tcp_server_on_data_recived ≡ some on_data)
        × (s' : Session) × (run env
              (some (on_data p.pages none))
              buffer
              (tcp_server_accept env ok true).0
              (arrived (codes "GET /temp " ++ more) ∷ [])
            ≡ some s')
        × (s'.written ≡ http_response_headers (length text) ∷ text ∷ [])
        × (s'.packets ≡ 0)
        × IsOpen s'
  unfolding after_filesystem sensor_pages
  main-serves_temp adc g now d buffer more rest well room takes short plain zeroless size fits
        closed =
      let (d', done) = main_lem adc g now d in
      let server = server_lem adc g now d' well in
      let packet = codes "GET /temp " ++ more in
      let (s1, answers, wrote, (o1, same)) =
        get_temp-Delivers env addr temp_c temp_f more rest
          (length (take (length buffer - 1) packet)) (record accepted { packets = 1 }) short
          one_packet-IsOpen takes plain zeroless in
      let copied = copied-request buffer packet rest (omega (arith, size, fits)) closed in
      (
        after_filesystem hal env a o addr temp_c temp_f adc g now d',
        done,
        ap (λ s. s.tcp_server_state) server,
        ap (λ s. s.tcp_server_max_read_size) server ∙ omega (arith, size),
        handle_tcp_data env,
        ap (λ s. s.tcp_server_on_data_recived) server,
        record s1 { received = s1.received + length packet; packets = s1.packets - 1 },
        ap
              (λ r.
                run env (some (handle_tcp_data env (sensor_pages env addr temp_c temp_f) none))
                  buffer r.0 (arrived packet ∷ []))
              (accept_lem env room)
            ∙ run-arrived env (handle_tcp_data env (sensor_pages env addr temp_c temp_f) none)
                buffer (codes "ET /temp " ++ more) (packet ++ 0 ∷ rest) b'G'
                (length (take (length buffer - 1) packet)) accepted s1 accepted-IsOpen o1 copied
                refl answers,
        wrote,
        omega (arith, same),
        record { state = o1.state; held = o1.held; pcb_held = o1.pcb_held; listens = o1.listens },
      )

  -- On a flash that can be mounted, where no server listened before and the start of the server fails, `main` prints
  -- the decimal digits of its status and comes to its loop nevertheless, and no server listens.
  pub main-loops_unserved :
      (adc : Adc) (g : Global OnData) (now : ℕ) (d : Disk)
      → g.tcp_server_state ≢ live true
      → (http_server_start env a o wifi_ssid wifi_password host_name 80 g).1 ≢ 0
      → (p : Program Disk) × (main hal env a o addr temp_c temp_f adc g now d ≡ some p)
        × (number : List ℕ) × (p.printed
            ≡ prepare_loop 7 ++ (codes "tcp_server start status: " ++ (number ++ codes "\n")) ∷ [])
        × AreDigits number
        × (value_from 0 number
            ≡ (http_server_start env a o wifi_ssid wifi_password host_name 80 g).1)
        × (p.server.tcp_server_state ≢ live true)
  unfolding after_filesystem http_server_start
  main-loops_unserved adc g now d off fails =
      let (d', done) = main_lem adc g now d in
      let status = (tcp_server_start_timeout a o network 80 (prepared env g)).1 in
      let small : status < 2 ^ 31 =
        omega (arith, tcp_server_start_timeout_status a o network 80 (prepared env g)) in
      (
        after_filesystem hal env a o addr temp_c temp_f adc g now d',
        done,
        print_d status,
        refl,
        print_d-AreDigits status small,
        print_d-value status small,
        tcp_server_start_timeout_fails a o network 80 (prepared env g) off fails,
      )
