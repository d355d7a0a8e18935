-- ===== src/Example/Main.antt =====
-- main_ap.cpp: `main`, up to its loop. Nothing is registered before it.
use pico_common.Common.{
  ℕ, ◌+◌, ◌%◌, ◌^◌, ◌≡◌, refl, ◌∙◌, ap, List, [], ◌∷◌, ◌++◌, false, Option, some, ◌==◌,
  if◌then◌else◌, ◌>>=◌, ◌⊎◌, inl, inr,
}
use pico_common.Http.Text.{codes}
use pico_common.Tcp.Session.{Tcp}
use pico_common.Filesystem.Hal.{Hal, Laws}
use pico_common.Filesystem.Values.{get_int}
use pico_common.Filesystem.Boot.{boot_count_name, init_filesystem}
use pico_common.Filesystem.Boot.Count.{boots, init_filesystem-get_int}
use pico_common.Status.Temperature.{Adc, temperture_init}
use pico_common.Console.Commands.{Commands}
use pico_common.Console.Defaults.{CommandFunction}
use pico_common.AccessPoint.Request.{Site}
use pico_common.AccessPoint.Lifecycle.{Globals, Answers, access_point_init}
use pico_common.AccessPoint.Lifecycle.Laws.{AllWell, running, access_point_init_status}
use pico_common.Example.{main_site}
use pico_common.Example.Startup.{prepare_loop, register_commands}
use pico_common.Example.Blink.{Light}

-- The program: what was printed, the converter, the commands, the files and the access point.
pub record Program (Disk : Type 0) : Type 0 where
  pub printed : List (List ℕ)
  pub adc : Adc
  pub commands : Commands CommandFunction
  pub disk : Disk
  pub globals : Globals

-- `main` comes to its loop, with the site and the light, or returns -1.
pub data Outcome (Disk : Type 0) : Type 0 where
  loops : Program Disk → Site → Light → Outcome Disk
  returns : Program Disk → Outcome Disk

module _ {Disk : Type 0} (hal : Hal Disk) (env : Tcp) (a : Answers) (addr : List ℕ → ℕ)
    (temp_c temp_f : List ℕ) where
  -- From `init_filesystem`'s return on, where the clock reads `now` before the loop.
  unfoldable pub after_filesystem : Adc → Globals → ℕ → Disk → Outcome Disk
  unfolding access_point_init prepare_loop register_commands temperture_init
  after_filesystem adc g now disk =
      let (g', status) = access_point_init a g in
      let p : Program Disk = record {
        printed = prepare_loop 7;
        adc = (temperture_init adc).0;
        commands = register_commands [];
        disk = disk;
        globals = g';
      } in
      let failed : Program Disk = record p {
        printed = p.printed ++ codes "Access point init failed" ∷ [];
      } in
      let light : Light = record { prev_time = now; led_state = false; puts = [] } in
      if status == 0 then loops p (main_site env addr temp_c temp_f) light else returns failed

  -- `none` is the use of a file that could not be opened.
  unfoldable pub main : Adc → Globals → ℕ → Disk → Option (Outcome Disk)
  unfolding init_filesystem after_filesystem
  main adc g now disk =
      init_filesystem hal disk >>= λ disk'. some (after_filesystem adc g now disk')

  -- The program in its loop.
  abbrev pub in_loop : Adc → Globals → Disk → Program Disk
  in_loop adc g disk = record {
    printed = prepare_loop 7;
    adc = (temperture_init adc).0;
    commands = register_commands [];
    disk = disk;
    globals = running a g;
  }

  -- The program that gives up.
  abbrev pub given_up : Adc → Globals → Disk → Program Disk
  given_up adc g disk = record {
    printed = prepare_loop 7 ++ codes "Access point init failed" ∷ [];
    adc = (temperture_init adc).0;
    commands = register_commands [];
    disk = disk;
    globals = (access_point_init a g).0;
  }

  after_filesystem_status :
      (adc : Adc) (g : Globals) (now : ℕ) (disk : Disk)
      → (AllWell a
          × (after_filesystem adc g now disk
              ≡ loops
                  (in_loop adc g disk)
                  (main_site env addr temp_c temp_f)
                  (record { prev_time = now; led_state = false; puts = [] })))
        ⊎ ((¬ (AllWell a)) × (after_filesystem adc g now disk ≡ returns (given_up adc g disk)))
  unfolding after_filesystem
  after_filesystem_status adc g now disk = elim (access_point_init_status a g) [
    | inl (well, starts) ↦ inl (well, rw starts refl)
    | inr (ill, fails) ↦ inr (ill, rw fails refl)
  ]

  -- On a flash that can be mounted, `main` adds one to the count of starts. It then comes to its loop, with the
  -- site's pages and an access point that runs, where the memory, the chip, the control block, the port and
  -- the backlog are granted; else it says that the access point has failed and returns.
  pub main-loops_or_returns :
      (laws : Laws hal) (adc : Adc) (g : Globals) (now : ℕ) (d : Disk)
      → (d' : Disk) × ((get_int hal d' boot_count_name).1 ≡ (boots hal laws d + 1) % 2 ^ 32)
        × ((AllWell a
              × (main adc g now d
                  ≡ some (
                      loops
                        (in_loop adc g d')
                        (main_site env addr temp_c temp_f)
                        (record { prev_time = now; led_state = false; puts = [] }))))
            ⊎ ((¬ (AllWell a)) × (main adc g now d ≡ some (returns (given_up adc g d')))))
  unfolding main
  main-loops_or_returns laws adc g now d =
      let (d', done, count, others) = init_filesystem-get_int hal laws d in
      let after : main adc g now d ≡ some (after_filesystem adc g now d') =
        ap (λ r. r >>= λ disk. some (after_filesystem adc g now disk)) done in
      (
        d',
        count,
        elim (after_filesystem_status adc g now d') [
          | inl (well, e) ↦ inl (well, after ∙ ap some e)
          | inr (ill, e) ↦ inr (ill, after ∙ ap some e)
        ],
      )
