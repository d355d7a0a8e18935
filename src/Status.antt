-- ===== src/Status.antt =====
-- serial_console/system_status.c: what the status commands print. What the linker and the SDK define, what
-- newlib's `mallinfo` and `time` answer, and the texts of floating point numbers are parameters.
pub mod Uptime
pub mod Heap
pub mod Temperature
pub mod Tests
use pico_common.Common.{ℕ, ◌+◌, ◌-◌, ◌*◌, ◌/◌, ◌%◌, ◌^◌, List, [], ◌∷◌, ◌++◌, ltb, if◌then◌else◌}
use pico_common.Http.Text.{codes, digits, print_d}

-- `struct mallinfo`.
pub record Mallinfo : Type 0 where
  pub arena : ℕ
  pub ordblks : ℕ
  pub smblks : ℕ
  pub hblks : ℕ
  pub hblkhd : ℕ
  pub usmblks : ℕ
  pub fsmblks : ℕ
  pub uordblks : ℕ
  pub fordblks : ℕ
  pub keepcost : ℕ

-- The addresses and sizes that the linker script and the SDK define; what `mallinfo` and `time` answer;
-- and, as `%.2f` prints them, `a / (double)b * 100` and `100 - a / (double)b * 100`.
pub record Platform : Type 0 where
  pub pico_flash_size_bytes : ℕ
  pub flash_binary_end : ℕ
  pub xip_base : ℕ
  pub stack_limit : ℕ
  pub bss_end : ℕ
  pub mallinfo : Mallinfo
  pub time : ℕ
  pub percent_of : ℕ → ℕ → List ℕ
  pub percent_left : ℕ → ℕ → List ℕ

-- `%u` and `PRIu32`.
abbrev pub print_u : ℕ → List ℕ
print_u n = digits 10 n

unfoldable pub print_flash_usage : Platform → List (List ℕ)
unfolding digits
print_flash_usage p =
    let program_size = (p.flash_binary_end + (2 ^ 32 - p.xip_base)) % 2 ^ 32 in
    let flash_used = p.percent_of program_size p.pico_flash_size_bytes in
    (codes "Currently used flash memory: " ++ (flash_used ++ codes "% bytes\n"))
    ∷ (codes "Maximum flash memory: " ++ (print_u p.pico_flash_size_bytes ++ codes " bytes\n"))
    ∷ []

-- `getTotalHeap`: a difference of addresses, as 32 bits.
unfoldable pub get_total_heap : Platform → ℕ
get_total_heap p = (p.stack_limit + (2 ^ 32 - p.bss_end)) % 2 ^ 32

-- `getFreeHeap`.
unfoldable pub get_free_heap : Platform → ℕ
unfolding get_total_heap
get_free_heap p = (get_total_heap p + (2 ^ 32 - p.mallinfo.uordblks)) % 2 ^ 32

abbrev pub print_field : List ℕ → ℕ → List ℕ
print_field label n = label ++ (print_d n ++ codes "\n")

unfoldable pub print_mallinfo : Platform → List (List ℕ)
unfolding print_d
print_mallinfo p =
    let m = p.mallinfo in
    print_field (codes "Total non-mmapped bytes (arena): ") m.arena
    ∷ print_field (codes "# of free chunks (ordblks): ") m.ordblks
    ∷ print_field (codes "# of free fastbin blocks (smblks): ") m.smblks
    ∷ print_field (codes "# of mapped regions (hblks): ") m.hblks
    ∷ print_field (codes "Bytes in mapped regions (hblkhd): ") m.hblkhd
    ∷ print_field (codes "Max. total allocated space (usmblks): ") m.usmblks
    ∷ print_field (codes "Free bytes held in fastbins (fsmblks): ") m.fsmblks
    ∷ print_field (codes "Total allocated space (uordblks): ") m.uordblks
    ∷ print_field (codes "Total free space (fordblks): ") m.fordblks
    ∷ print_field (codes "Top-most, releasable (via malloc_trim) space (keepcost): ") m.keepcost
    ∷ []

unfoldable pub print_ram_usage : Platform → List (List ℕ)
unfolding get_total_heap get_free_heap digits
print_ram_usage p =
    let avalable_ram = get_free_heap p in
    let total_ram = get_total_heap p in
    (codes "avalable_ram: " ++ (print_u avalable_ram ++ codes " bytes.\n"))
    ∷ (codes "total_ram: " ++ (print_u total_ram ++ codes " bytes.\n"))
    ∷ (codes "ram_used: " ++ (p.percent_left avalable_ram total_ram ++ codes "%\n"))
    ∷ []

-- `%02d` of a number that is not negative.
unfoldable pub two_digits : ℕ → List ℕ
unfolding print_d
two_digits n = if ltb n 10 then b'0' ∷ print_d n else print_d n

-- The days are stored in an `int`; `print_d` takes numbers mod 2 ^ 32.
unfoldable pub print_current_system_uptime : Platform → List (List ℕ)
unfolding print_d two_digits
print_current_system_uptime p =
    let now = p.time in
    let seconds = now % 60 in
    let minutes = now / 60 % 60 in
    let hours = now / 3600 % 24 in
    let days = now / 86400 % 2 ^ 32 in
    (codes "Uptime: "
      ++ (print_d days
          ++ (codes " days, "
              ++ (two_digits hours
                  ++ (b':'
                      ∷ (two_digits minutes ++ (b':' ∷ (two_digits seconds ++ codes "\n"))))))))
    ∷ []
