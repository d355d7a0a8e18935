-- ===== src/Filesystem/Boot/Count.antt =====
-- filesystem/filesystem.c: what a start leaves in the files.
use pico_common.Common.{
  ℕ, ◌+◌, ◌%◌, ◌^◌, ◌≤◌, ◌≡◌, ◌≢◌, refl, ◌∙◌, ap, List, ◌++◌, some, arith, length, take, drop,
}
use pico_common.Filesystem.Hal.{Hal, Laws, rdwr_creat, or_empty}
use pico_common.Filesystem.Values.{int_bytes, int_read, get_int}
use pico_common.Filesystem.Values.Laws.{int_of-int_bytes, get_int_lem}
use pico_common.Filesystem.Boot.{boot_count_name, count_boot_in, mount_or_format, init_filesystem}

module _ {Disk : Type 0} (hal : Hal Disk) (laws : Laws hal) where
  -- The starts that a flash has seen: what is in the file, or none.
  abbrev pub boots : Disk → ℕ
  boots d = int_read (some (take 4 (or_empty (laws.contents d boot_count_name))))

  mount_lem :
      (d : Disk)
      → (other : List ℕ) → laws.contents (mount_or_format hal d) other ≡ laws.contents d other
  unfolding mount_or_format
  mount_lem d other = let (d', mounted, same) = laws.mount_lem d in rw mounted (same other)

  pub init_filesystem_lem :
      (d : Disk)
      → (d' : Disk) × (init_filesystem hal d ≡ some d')
        × (laws.contents d' boot_count_name
            ≡ some (
                int_bytes ((boots d + 1) % 2 ^ 32)
                ++ drop 4 (or_empty (laws.contents d boot_count_name))))
        × ((other : List ℕ)
            → other ≢ boot_count_name
            → laws.contents d' other ≡ laws.contents d other)
  unfolding init_filesystem count_boot_in
  init_filesystem_lem d =
      let old = or_empty (laws.contents (mount_or_format hal d) boot_count_name) in
      let bound : 0 ≤ length old = omega arith in
      let (d1, fd, opened, at, held, others) =
        laws.open_creat (mount_or_format hal d) boot_count_name rdwr_creat refl in
      let (d2, got, at2, same2) = laws.read_lem d1 fd 4 0 boot_count_name old at held in
      let (at3, same3) = laws.rewind_lem d2 fd (0 + length (take 4 old)) boot_count_name at2 in
      let value = int_bytes ((int_read (some (take 4 old)) + 1) % 2 ^ 32) in
      let (now, rest) =
        laws.write_lem (hal.pico_rewind d2 fd) fd 0 boot_count_name old value at3
          (same3 boot_count_name ∙ same2 boot_count_name ∙ held) bound in
      let same_old : old ≡ or_empty (laws.contents d boot_count_name) =
        ap or_empty (mount_lem d boot_count_name) in
      (
        hal.pico_close (hal.pico_write (hal.pico_rewind d2 fd) fd value) fd,
        rw (opened, got) refl,
        laws.close_lem (hal.pico_write (hal.pico_rewind d2 fd) fd value) fd boot_count_name
            ∙ now
            ∙ ap (λ o. some (int_bytes ((int_read (some (take 4 o)) + 1) % 2 ^ 32) ++ drop 4 o))
                same_old,
        λ other ne.
            laws.close_lem (hal.pico_write (hal.pico_rewind d2 fd) fd value) fd other
            ∙ rest other ne
            ∙ same3 other
            ∙ same2 other
            ∙ others other ne
            ∙ mount_lem d other,
      )

  -- On a flash that can be mounted, a start adds one to the count in its file, mod 2 ^ 32, or writes 1
  -- where there is no such file, and changes no other file.
  pub init_filesystem-get_int :
      (d : Disk)
      → (d' : Disk) × (init_filesystem hal d ≡ some d')
        × ((get_int hal d' boot_count_name).1 ≡ (boots d + 1) % 2 ^ 32)
        × ((other : List ℕ)
            → other ≢ boot_count_name
            → laws.contents d' other ≡ laws.contents d other)
  init_filesystem-get_int d =
      let (d', done, held, others) = init_filesystem_lem d in
      (
        d',
        done,
        get_int_lem hal laws d' boot_count_name
              (int_bytes ((boots d + 1) % 2 ^ 32)
                ++ drop 4 (or_empty (laws.contents d boot_count_name)))
              held
            ∙ int_of-int_bytes ((boots d + 1) % 2 ^ 32) (omega arith),
        others,
      )
