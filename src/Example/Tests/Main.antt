-- ===== src/Example/Tests/Main.antt =====
-- main_ap.cpp and main.cpp: the two programs from their start on.
use pico_common.Common.{
  ℕ, ◌≡◌, refl, List, [], ◌∷◌, ◌++◌, true, false, none, some, arith, length, replicate,
}
use pico_common.Http.Text.{codes, http_response_headers}
use pico_common.Http.Lifecycle.{OnData}
use pico_common.Wifi.{Answers}
use pico_common.Tcp.Session.{ok, Session, acked, peer_closed, arrived, tcp_server_accept, run}
use pico_common.Tcp.Session.Safety.{IsOpen, IsSafe}
use pico_common.Example.Sensor.{sensor_pages}
use pico_common.Example.Sensor.Safety.{sensor-IsSafe}
use pico_common.Http.Request.{handle_tcp_data}
use pico_common.Tcp.Lifecycle.{null, live, Global, Opens}
use pico_common.Filesystem.Tests.{Memory, memory, memory-Laws, flash}
use pico_common.Status.Temperature.{Adc}
use pico_common.Example.{temp_page}
use pico_common.Example.Sensor.{sensor_pages}
use pico_common.Example.Sensor.Main.{Program, main}
use pico_common.Example.Sensor.Main.Serving.{main-serves_temp}
use pico_common.Example.Tests.{tcp}

abbrev adc : Adc
adc = record { initialised = false; temp_sensor_enabled = false; input = none }

abbrev joined : Answers
joined = record { init_ok = true; connect_ok = λ name password ms. true }

abbrev opens : Opens
opens = record { calloc_ok = true; new_ok = true; bind_ok = λ port. true; listen_ok = true }

abbrev idle : Global OnData
idle = record {
  wifi = record { connected = false; inits = 0; netif_hostname = none; netif_up = false };
  tcp_server_state = null;
  last_wifi_ssid = none;
  tcp_server_max_read_size = 1024;
  tcp_server_on_data_recived = none;
  pcbs = 0;
}

abbrev zeros : List ℕ
zeros = replicate 128 0

main-serves_temp_example :
    let text = temp_page (codes "21.50") (codes "70.70") in
    (p : Program Memory) × (main memory tcp joined opens length
        (codes "21.50")
        (codes "70.70")
        adc
        idle
        9
        flash
      ≡ some p)
    × (p.server.tcp_server_state ≡ live true)
    × (p.server.tcp_server_max_read_size ≡ length zeros)
    × (on_data : OnData) × (p.server.tcp_server_on_data_recived ≡ some on_data)
    × (s' : Session) × (run tcp
          (some (on_data p.pages none))
          zeros
          (tcp_server_accept tcp ok true).0
          (arrived (codes "GET /temp " ++ codes "HTTP/1.1") ∷ [])
        ≡ some s')
    × (s'.written ≡ http_response_headers (length text) ∷ text ∷ [])
    × (s'.packets ≡ 0)
    × IsOpen s'
main-serves_temp_example =
    main-serves_temp memory memory-Laws tcp joined opens length (codes "21.50") (codes "70.70") adc
      idle 9 flash zeros (codes "HTTP/1.1") (replicate 109 0)
      (record {
        up = refl;
        joined = refl;
        memory = refl;
        made = refl;
        port_free = refl;
        listens = refl;
      })
      refl (λ k. refl) (omega arith) (ground arith) (ground arith) refl (omega arith) refl

sensor-IsSafe_example :
    (s' : Session) × (run tcp
        (some (handle_tcp_data tcp (sensor_pages tcp length (codes "21.50") (codes "70.70")) none))
        zeros
        (tcp_server_accept tcp ok true).0
        (arrived (codes "GET /nowhere?a=1 HTTP/1.1")
          ∷ acked 9
          ∷ arrived (codes "GET /file ")
          ∷ peer_closed
          ∷ [])
      ≡ some s')
    × IsSafe s'
sensor-IsSafe_example =
    sensor-IsSafe tcp length (codes "21.50") (codes "70.70") (ground arith) ok true zeros
      (arrived (codes "GET /nowhere?a=1 HTTP/1.1")
        ∷ acked 9
        ∷ arrived (codes "GET /file ")
        ∷ peer_closed
        ∷ [])
      (record { size = refl; last = refl }) (tt, (tt, (tt, (tt, tt))))
