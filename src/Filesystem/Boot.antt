-- ===== src/Filesystem/Boot.antt =====
-- filesystem/filesystem.c: init_filesystem, which counts the starts in a file.
pub mod Count
use pico_common.Common.{
  ℕ, ◌+◌, ◌%◌, ◌^◌, List, true, false, Bool, Option, none, some, if◌then◌else◌, ◌>>=◌,
}
use pico_common.Http.Text.{codes}
use pico_common.Filesystem.Hal.{Hal, Opened, file, failed, rdwr_creat}
use pico_common.Filesystem.Values.{int_bytes, int_read}

abbrev pub boot_count_name : List ℕ
boot_count_name = codes "boot_count"

abbrev pub format_filesystem : Bool
format_filesystem = false

module _ {Disk : Type 0} (hal : Hal Disk) where
  -- The result of `pico_open` is not looked at, so `none` is a use of an error as a handle.
  unfoldable pub count_boot_in : Disk × Opened → Option Disk
  count_boot_in (d, failed) = none
  count_boot_in (d, file fd) =
      let (d1, bytes) = hal.pico_read d fd 4 in
      let d2 = hal.pico_rewind d1 fd in
      let d3 = hal.pico_write d2 fd (int_bytes ((int_read bytes + 1) % 2 ^ 32)) in
      some (hal.pico_close d3 fd)

  -- Mounted, or formatted where that fails.
  unfoldable pub mount_or_format : Disk → Disk
  mount_or_format d =
      let (d1, mounted) = hal.pico_mount d format_filesystem in
      if mounted then d1 else (hal.pico_mount d1 true).0

  unfoldable pub init_filesystem : Disk → Option Disk
  unfolding count_boot_in mount_or_format
  init_filesystem d = count_boot_in (hal.pico_open (mount_or_format d) boot_count_name rdwr_creat)

  unfoldable pub deinit_filesystem : Disk → Disk
  deinit_filesystem d = (hal.pico_unmount d).0
