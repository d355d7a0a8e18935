-- ===== src/Status/Tests.antt =====
-- serial_console/system_status.c: a concrete platform, a day and a second after its start.
use pico_common.Common.{ℕ, ◌+◌, ◌*◌, ◌<◌, ◌≡◌, List, [], ◌∷◌, ◌++◌, arith, length}
use pico_common.Http.Text.{codes}
use pico_common.Http.Text.Numbers.{AreDigits, value_from}
use pico_common.Status.{Platform, print_current_system_uptime}
use pico_common.Status.Uptime.{print_current_system_uptime-value}

abbrev pub platform : Platform
platform = record {
  pico_flash_size_bytes = 2097152;
  flash_binary_end = 268800000;
  xip_base = 268435456;
  stack_limit = 537130000;
  bss_end = 536900000;
  mallinfo = record {
    arena = 4096;
    ordblks = 1;
    smblks = 0;
    hblks = 0;
    hblkhd = 0;
    usmblks = 0;
    fsmblks = 0;
    uordblks = 3000;
    fordblks = 1096;
    keepcost = 1096;
  };
  time = 86401;
  percent_of = λ a b. codes "17.38";
  percent_left = λ a b. codes "1.30";
}

print_current_system_uptime-value_example :
    (days : List ℕ) × (hours : List ℕ) × (minutes : List ℕ) × (seconds : List ℕ)
    × (print_current_system_uptime platform
        ≡ (codes "Uptime: "
            ++ (days
                ++ (codes " days, "
                    ++ (hours ++ (b':' ∷ (minutes ++ (b':' ∷ (seconds ++ codes "\n"))))))))
          ∷ [])
    × AreDigits days
    × AreDigits hours
    × AreDigits minutes
    × AreDigits seconds
    × (length hours ≡ 2)
    × (length minutes ≡ 2)
    × (length seconds ≡ 2)
    × (value_from 0 hours < 24)
    × (value_from 0 minutes < 60)
    × (value_from 0 seconds < 60)
    × (((value_from 0 days * 24 + value_from 0 hours) * 60 + value_from 0 minutes) * 60
          + value_from 0 seconds
        ≡ 86401)
print_current_system_uptime-value_example = print_current_system_uptime-value platform (omega arith)
