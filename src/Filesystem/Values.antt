-- ===== src/Filesystem/Values.antt =====
-- filesystem/filesystem.c: get_int, set_int, get_string and set_string. An int is its four bytes, as a
-- number below 2 ^ 32.
pub mod Laws
use pico_common.Common.{
  ℕ, zero, suc, ◌+◌, ◌-◌, ◌*◌, ◌/◌, ◌%◌, ◌^◌, List, [], ◌∷◌, Option, none, some, length, overwrite,
  replicate, store_bytes, load_bytes, ◌>>=◌,
}
use pico_common.Filesystem.Hal.{Hal, Opened, file, failed, rdonly, wronly_creat}

-- -1.
abbrev pub invalid_file : ℕ
invalid_file = 2 ^ 32 - 1

-- The bytes of an int in memory, the lowest first.
abbrev pub int_bytes : ℕ → List ℕ
int_bytes n = n % 256 ∷ n / 256 % 256 ∷ n / 65536 % 256 ∷ n / 16777216 % 256 ∷ []

abbrev pub int_of : List ℕ → ℕ
int_of [] = 0
int_of (b ∷ bs) = b + 256 * int_of bs

-- An int that was 0, after a read into its bytes.
abbrev pub int_read : Option (List ℕ) → ℕ
int_read none = 0
int_read (some bytes) = int_of (overwrite (replicate 4 0) 0 bytes)

module _ {Disk : Type 0} (hal : Hal Disk) where
  unfoldable pub get_int_from : Disk × Opened → Disk × ℕ
  get_int_from (d, failed) = (d, invalid_file)
  get_int_from (d, file fd) =
      let (d', bytes) = hal.pico_read d fd 4 in (hal.pico_close d' fd, int_read bytes)

  unfoldable pub get_int : Disk → List ℕ → Disk × ℕ
  unfolding get_int_from
  get_int d filename = get_int_from (hal.pico_open d filename rdonly)

  unfoldable pub set_int_in : Disk × Opened → ℕ → Disk
  set_int_in (d, failed) value = d
  set_int_in (d, file fd) value = hal.pico_close (hal.pico_write d fd (int_bytes value)) fd

  unfoldable pub set_int : Disk → List ℕ → ℕ → Disk
  unfolding set_int_in
  set_int d filename value = set_int_in (hal.pico_open d filename wronly_creat) value

  -- What a read into an array leaves there, and the number of bytes, or -1 where it fails. `none` is a
  -- write behind the array.
  abbrev pub string_read : List ℕ → Option (List ℕ) → Option (List ℕ × ℕ)
  string_read dst none = some (dst, invalid_file)
  string_read dst (some bytes) = store_bytes dst 0 bytes >>= λ dst'. some (dst', length bytes)

  unfoldable pub get_string_from : Disk × Opened → List ℕ → ℕ → Option (Disk × (List ℕ × ℕ))
  unfolding store_bytes
  get_string_from (d, failed) dst dst_size = some (d, (dst, invalid_file))
  get_string_from (d, file fd) dst dst_size =
      let (d', bytes) = hal.pico_read d fd dst_size in
      string_read dst bytes >>= λ r. some (hal.pico_close d' fd, r)

  unfoldable pub get_string : Disk → List ℕ → List ℕ → ℕ → Option (Disk × (List ℕ × ℕ))
  unfolding get_string_from
  get_string d filename dst dst_size =
      get_string_from (hal.pico_open d filename rdonly) dst dst_size

  -- `none` is a read behind the array of the value.
  unfoldable pub set_string_in : Disk × Opened → List ℕ → ℕ → Option Disk
  unfolding load_bytes
  set_string_in (d, failed) value value_length = some d
  set_string_in (d, file fd) value value_length = load_bytes value 0 value_length >>= λ bytes.
      some (hal.pico_close (hal.pico_write d fd bytes) fd)

  unfoldable pub set_string : Disk → List ℕ → List ℕ → ℕ → Option Disk
  unfolding set_string_in
  set_string d filename value value_length =
      set_string_in (hal.pico_open d filename wronly_creat) value value_length
