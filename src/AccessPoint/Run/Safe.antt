-- ===== src/AccessPoint/Run/Safe.antt =====
-- ap_website/picow_access_point.c: the memory that the histories of a connection use.
use pico_common.Common.{
  ℕ, ◌+◌, ◌-◌, ◌%◌, ◌^◌, ◌≤◌, ◌≡◌, refl, List, [], ◌∷◌, ◌++◌, Bool, true, false, Option, none, some,
  arith, inl, inr, ltb, leb, ◌==◌, if◌then◌else◌, ◌>>=◌, length, take, Bool-cases, copy_partial,
  ltb_false→le,
}
use pico_common.Http.Text.{codes}
use pico_common.Http.Text.Closed.{HasZero, strncmp_eq-total}
use pico_common.Tcp.Session.{
  Err, ok, abrt, is_ok, Tcp, Event, acked, arrived, peer_closed, timed_out, broken,
}
use pico_common.Tcp.Session.Safety.{IsOrdinary, AllOrdinary}
use pico_common.AccessPoint.Connection.{
  Con, Session, Step, tcp_close_client_connection, ap_tcp_server_sent,
}
use pico_common.Http.Request.Closed.{EndsZero, EndsZero-HasZero, copy_partial-EndsZero}
use pico_common.AccessPoint.Buffer.{parse_request-total}
use pico_common.AccessPoint.Request.{
  Generator, GetHandler, Site, after_handler, try_handler, answer_page, http_get_generate,
  handle_get, finish, receive_into, receive, ap_tcp_server_recv,
}
use pico_common.AccessPoint.Safety.{
  IsSound, IsOpen, IsSafe, Sound, goes_on, gives_up, Sound-if_ok, with_con-IsOpen, close_lem,
}
use pico_common.AccessPoint.Safety.Answers.{send_default-Sound}
use pico_common.AccessPoint.Run.{callback, on_event, run}
use pico_common.AccessPoint.Run.Pages.{
  answered, declined, SoundPage, Handled, SoundHandler, IsSoundSite, create_html_page-total,
  packets-IsOpen,
}

module _ (env : Tcp) (site : Site) (ok_site : IsSoundSite site) where
  after_handler-Sound :
      (request : List ℕ) (r : Option (Session × Option Err))
      → HasZero request
      → Handled r
      → Sound (r >>= after_handler env site request)
  unfolding after_handler
  after_handler-Sound request r z (answered s e sound) = sound
  after_handler-Sound request r z (declined s o) =
      send_default-Sound env site s request o z ok_site.url_short

  answer_page-Sound :
      (request : List ℕ) (params : Option (List ℕ)) (s : Session) (page : Option Generator)
      → IsOpen s
      → HasZero request
      → SoundPage page
      → Sound (answer_page env site request params s page)
  unfolding answer_page
  answer_page-Sound request params s (some g) o z sound = sound params s o
  answer_page-Sound request params s none o z sound = try site.get_handler ok_site.handler_sound
    where
      try :
          (h : Option GetHandler) → SoundHandler h → Sound (try_handler env site h request params s)
      try none sound = send_default-Sound env site s request o z ok_site.url_short
      try (some h) sound =
          after_handler-Sound request (h request params s) z (sound request params s o)

  http_get_generate-Sound :
      (s : Session) (request : List ℕ) (params : Option (List ℕ))
      → IsOpen s
      → HasZero request
      → Sound (http_get_generate env site s request params)
  unfolding http_get_generate
  http_get_generate-Sound s request params o z =
      let (page, is, sound) = create_html_page-total request site.pages z ok_site.pages_sound in
      rw (is, ◌>>=◌) (answer_page-Sound request params s page o z sound)

  handle_get-Sound :
      (s : Session) (con : Con) (headers : List ℕ)
      → IsOpen s
      → IsSound con
      → EndsZero 127 headers
      → Sound (handle_get env site s con headers)
  unfolding handle_get
  handle_get-Sound s con headers o sound e =
      let (request, params, cut, z, e') = parse_request-total 123 headers e in
      rw (cut, ◌>>=◌)
        (http_get_generate-Sound
          (record s { con = some (record con { headers = take 4 headers ++ request }) }) request
          params
          (with_con-IsOpen s (record con { headers = take 4 headers ++ request }) o
            (record { headers_end = e'; result_size = sound.result_size }))
          z)

  finish_lem :
      (total : ℕ) (s : Session)
      → s.pcb ≡ true
      → finish total s
        ≡ some (record s { received = s.received + total; packets = s.packets - 1 }, ok)
  unfolding finish
  finish_lem total s held = rw held refl

  finish-Sound : (total : ℕ) (s : Session) → IsOpen s → Sound (finish total s)
  finish-Sound total s o = rw (finish_lem total s o.pcb_held) (
      goes_on (record s { received = s.received + total; packets = s.packets - 1 }) ok refl
        (record {
          state = o.state;
          held = o.held;
          pcb_held = o.pcb_held;
          listens = o.listens;
          sound = o.sound;
        }))

  receive_into-Sound :
      (s : Session) (p : List ℕ) (con : Con)
      → IsOpen s
      → IsSound con
      → Sound (receive_into env site s p con)
  unfolding receive_into
  receive_into-Sound s p con o sound =
      let (is_get, is) =
        strncmp_eq-total (codes "GET") headers (EndsZero-HasZero headers headers_end)
          (ground arith) in
      rw (is, ◌>>=◌)
        (Sound-if_ok (finish (length p)) (answered is_get) λ s1 o1. finish-Sound (length p) s1 o1)
    where
      n : ℕ
      n = if ltb 127 (length p) then 127 else length p

      headers : List ℕ
      headers = copy_partial p n con.headers

      small : n ≤ 127
      small = elim (Bool-cases (ltb 127 (length p))) [
        | inl long ↦ rw long (omega arith)
        | inr short ↦ rw short (ltb_false→le 127 (length p) short)
      ]

      headers_end : EndsZero 127 headers
      headers_end = copy_partial-EndsZero p con.headers n small sound.headers_end

      s' : Session
      s' = record s { con = some (record con { headers = headers }) }

      o' : IsOpen s'
      o' =
          with_con-IsOpen s (record con { headers = headers }) o
            (record { headers_end = headers_end; result_size = sound.result_size })

      answered :
          (b : Bool) → Sound (if b then handle_get env site s' con headers else some (s', ok))
      answered true = handle_get-Sound s' con headers o' sound headers_end
      answered false = goes_on s' ok refl o'

  -- A step that faults nowhere, and leaves a session with the property.
  abbrev Yields : (Session → Type 0) → Step → Type 0
  Yields P r = (s : Session) × (e : Err) × (r ≡ some (s, e)) × P s

  Sound-Yields : {r : Step} → Sound r → Yields IsSafe r
  Sound-Yields (goes_on s e fine o) = (s, e, refl, inl o)
  Sound-Yields (gives_up s e bad safe) = (s, e, refl, safe)

  close-Yields :
      (s : Session) (e : Err) → IsOpen s → Yields IsSafe (tcp_close_client_connection env s e)
  close-Yields s e o = (
    record s { con = none; pcb = false; callbacks = false },
    if is_ok env.close_err then e else abrt,
    close_lem env s e o,
    inr refl,
  )

  receive_lem :
      (s : Session) (p : List ℕ) (con : Con)
      → s.con ≡ some con
      → receive env site s p ≡ receive_into env site s p con
  unfolding receive
  receive_lem s p con held = rw (held, ◌>>=◌) refl

  recv-Yields :
      (s : Session) (p : List ℕ) → IsOpen s → Yields IsSafe (ap_tcp_server_recv env site s (some p))
  unfolding ap_tcp_server_recv
  recv-Yields s p o = elim (Bool-cases (length p == 0)) [
    | inl empty ↦ rw empty (
      record s1 { packets = s1.packets - 1 },
      ok,
      refl,
      inl (packets-IsOpen s (s1.packets - 1) o),
    )
    | inr some_bytes ↦ rw some_bytes (
        Sound-Yields (
          rw (receive_lem s1 p o.state o.held)
            (receive_into-Sound s1 p o.state (packets-IsOpen s (s.packets + 1) o) o.sound)))
  ]
    where
      s1 : Session
      s1 = record s { packets = s.packets + 1 }

  sent_lem :
      (s : Session) (con : Con) (n : ℕ)
      → s.con ≡ some con
      → let s' = record s { con = some (record con { sent_len = (con.sent_len + n) % 2 ^ 32 }) } in
        ap_tcp_server_sent env s n ≡ (
          if leb ((con.header_len + con.result_len) % 2 ^ 32) ((con.sent_len + n) % 2 ^ 32)
          then tcp_close_client_connection env s' ok
          else some (s', ok))
  unfolding ap_tcp_server_sent
  sent_lem s con n held = rw (held, ◌>>=◌) refl

  sent-Yields : (s : Session) (n : ℕ) → IsOpen s → Yields IsSafe (ap_tcp_server_sent env s n)
  sent-Yields s n o = rw (sent_lem s o.state n o.held) (
      finished (
        leb ((o.state.header_len + o.state.result_len) % 2 ^ 32) ((o.state.sent_len + n) % 2 ^ 32)))
    where
      con : Con
      con = record o.state { sent_len = (o.state.sent_len + n) % 2 ^ 32 }

      s' : Session
      s' = record s { con = some con }

      o' : IsOpen s'
      o' =
          with_con-IsOpen s con o
            (record { headers_end = o.sound.headers_end; result_size = o.sound.result_size })

      finished :
          (b : Bool)
          → Yields IsSafe (if b then tcp_close_client_connection env s' ok else some (s', ok))
      finished true = close-Yields s' ok o'
      finished false = (s', ok, refl, inl o')

  callback-Yields :
      (s : Session) (e : Event) → IsOpen s → IsOrdinary e → Yields IsSafe (callback env site s e)
  unfolding callback
  callback-Yields s (acked n) o ord = sent-Yields s n o
  callback-Yields s (arrived p) o ord = recv-Yields s p o
  callback-Yields s peer_closed o ord = close-Yields s ok o
  callback-Yields s timed_out o ord = close-Yields s ok o
  callback-Yields s (broken e) o ord =
      (record s { pcb = false; callbacks = false }, e, rw ord refl, inr refl)

  listening_lem :
      (s : Session) (e : Event) → s.callbacks ≡ true → on_event env site s e ≡ callback env site s e
  unfolding on_event
  listening_lem s e listens = rw listens refl

  pub on_event-Yields :
      (s : Session) (e : Event) → IsSafe s → IsOrdinary e → Yields IsSafe (on_event env site s e)
  unfolding on_event
  on_event-Yields s e (inl o) ord = rw (listening_lem s e o.listens) (callback-Yields s e o ord)
  on_event-Yields s e (inr deaf) ord = (s, ok, rw deaf refl, inr deaf)

  -- From an open connection, or one that is over, no sequence of acknowledgements, packets of any length
  -- and content, closes by the peer, time-outs and aborts makes the callbacks use memory that is not the
  -- program's or lies outside its arrays, whatever lwIP answers, where the pages and the handler do so
  -- neither, and `default_url` has at most 17 bytes.
  pub run-IsSafe :
      (events : List Event) (s : Session)
      → IsSafe s
      → AllOrdinary events
      → (s' : Session) × (run env site s events ≡ some s') × IsSafe s'
  unfolding run
  run-IsSafe [] s safe ord = (s, refl, safe)
  run-IsSafe (e ∷ es) s safe ord =
      let (s1, e1, step, safe1) = on_event-Yields s e safe ord.0 in
      let (s2, rest, safe2) = run-IsSafe es s1 safe1 ord.1 in (s2, rw (step, ◌>>=◌) rest, safe2)
