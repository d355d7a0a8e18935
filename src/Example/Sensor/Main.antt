-- ===== src/Example/Sensor/Main.antt =====
-- main.cpp: `main`, up to its loop. Nothing is registered before it.
pub mod Serving
use pico_common.Common.{ℕ, List, [], ◌∷◌, ◌++◌, Bool, false, Option, none, some, ◌>>=◌}
use pico_common.Http.Text.{codes, print_d}
use pico_common.Http.Url.{UrlItem}
use pico_common.Http.Request.{Generator}
use pico_common.Http.Lifecycle.{OnData, http_server_start}
use pico_common.Wifi.{Answers}
use pico_common.Tcp.Session.{Tcp}
use pico_common.Tcp.Lifecycle.{Global, Opens}
use pico_common.Filesystem.Hal.{Hal}
use pico_common.Filesystem.Boot.{init_filesystem}
use pico_common.Status.Temperature.{Adc, temperture_init}
use pico_common.Console.Commands.{Commands}
use pico_common.Console.Defaults.{CommandFunction}
use pico_common.Example.Startup.{prepare_loop, register_commands}
use pico_common.Example.Sensor.{sensor_pages}
use pico_common.Example.Blink.{Light}

abbrev pub wifi_ssid : List ℕ
wifi_ssid = codes "2WIRE484"

abbrev pub wifi_password : List ℕ
wifi_password = codes "0328357434"

abbrev pub host_name : List ℕ
host_name = codes "sensor"

-- The program in its loop: what was printed, the converter, the commands, the files, the server's state, the
-- pages, and the light.
pub record Program (Disk : Type 0) : Type 0 where
  pub printed : List (List ℕ)
  pub adc : Adc
  pub commands : Commands CommandFunction
  pub disk : Disk
  pub server : Global OnData
  pub pages : List (UrlItem Generator)
  pub light : Light

-- The status that the start reports is printed, and not looked at.
abbrev pub status_line : ℕ → List ℕ
status_line status = codes "tcp_server start status: " ++ (print_d status ++ codes "\n")

module _ {Disk : Type 0} (hal : Hal Disk) (env : Tcp) (a : Answers) (o : Opens) (addr : List ℕ → ℕ)
    (temp_c temp_f : List ℕ) where
  -- From `init_filesystem`'s return on, where the clock reads `now` before the loop.
  unfoldable pub after_filesystem : Adc → Global OnData → ℕ → Disk → Program Disk
  unfolding http_server_start prepare_loop register_commands sensor_pages print_d temperture_init
  after_filesystem adc g now disk =
      let started = http_server_start env a o wifi_ssid wifi_password host_name 80 g in
      record {
        printed = prepare_loop 7 ++ status_line started.1 ∷ [];
        adc = (temperture_init adc).0;
        commands = register_commands [];
        disk = disk;
        server = started.0;
        pages = sensor_pages env addr temp_c temp_f;
        light = record { prev_time = now; led_state = false; puts = [] };
      }

  -- `none` is the use of a file that could not be opened.
  unfoldable pub main : Adc → Global OnData → ℕ → Disk → Option (Program Disk)
  unfolding init_filesystem after_filesystem
  main adc g now disk =
      init_filesystem hal disk >>= λ disk'. some (after_filesystem adc g now disk')
