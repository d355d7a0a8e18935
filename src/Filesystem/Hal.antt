-- ===== src/Filesystem/Hal.antt =====
-- The file layer that filesystem/filesystem.c calls (pico_hal over littlefs, which is not part of the
-- repository): its functions, and what their documentation says of them.
use pico_common.Common.{
  ℕ, ◌+◌, ◌≤◌, ◌≡◌, ◌≢◌, List, [], ◌++◌, Bool, true, false, Option, none, some, length, take, drop,
}

-- The flags of `pico_open` that the code uses.
pub data Mode : Type 0 where
  rdonly wronly_creat rdwr_creat : Mode

-- LFS_O_CREAT.
abbrev pub creates : Mode → Bool
creates rdonly = false
creates wronly_creat = true
creates rdwr_creat = true

pub data Opened : Type 0 where
  file : ℕ → Opened
  failed : Opened

-- The functions, on what the flash holds and the files that are open. A read is of at most so many bytes,
-- and `none` where it fails.
pub record Hal (Disk : Type 0) : Type 0 where
  pub pico_open : Disk → List ℕ → Mode → Disk × Opened
  pub pico_read : Disk → ℕ → ℕ → Disk × Option (List ℕ)
  pub pico_write : Disk → ℕ → List ℕ → Disk
  pub pico_rewind : Disk → ℕ → Disk
  pub pico_close : Disk → ℕ → Disk
  pub pico_mount : Disk → Bool → Disk × Bool
  pub pico_unmount : Disk → Disk × Bool

-- A file after a write of the bytes at a position within it.
abbrev pub written : List ℕ → ℕ → List ℕ → List ℕ
written old at bytes = take at old ++ (bytes ++ drop (at + length bytes) old)

-- What is there, or nothing.
abbrev pub or_empty : Option (List ℕ) → List ℕ
or_empty none = []
or_empty (some old) = old

-- How the functions behave while the flash has room and no error: by the files' contents, and the name and
-- position of a file that is open.
pub record Laws {Disk : Type 0} (hal : Hal Disk) : Type 0 where
  pub contents : Disk → List ℕ → Option (List ℕ)
  pub handle : Disk → ℕ → Option (List ℕ × ℕ)
  pub open_missing :
      (d : Disk) (name : List ℕ)
      → contents d name ≡ none
      → (d' : Disk) × (hal.pico_open d name rdonly ≡ (d', failed))
        × ((other : List ℕ) → contents d' other ≡ contents d other)
  pub open_there :
      (d : Disk) (name old : List ℕ)
      → contents d name ≡ some old
      → (d' : Disk) × (fd : ℕ) × (hal.pico_open d name rdonly ≡ (d', file fd))
        × (handle d' fd ≡ some (name, 0))
        × ((other : List ℕ) → contents d' other ≡ contents d other)
  pub open_creat :
      (d : Disk) (name : List ℕ) (mode : Mode)
      → creates mode ≡ true
      → (d' : Disk) × (fd : ℕ) × (hal.pico_open d name mode ≡ (d', file fd))
        × (handle d' fd ≡ some (name, 0))
        × (contents d' name ≡ some (or_empty (contents d name)))
        × ((other : List ℕ) → other ≢ name → contents d' other ≡ contents d other)
  pub read_lem :
      (d : Disk) (fd n at : ℕ) (name old : List ℕ)
      → handle d fd ≡ some (name, at)
      → contents d name ≡ some old
      → (d' : Disk) × (hal.pico_read d fd n ≡ (d', some (take n (drop at old))))
        × (handle d' fd ≡ some (name, at + length (take n (drop at old))))
        × ((other : List ℕ) → contents d' other ≡ contents d other)
  pub write_lem :
      (d : Disk) (fd at : ℕ) (name old bytes : List ℕ)
      → handle d fd ≡ some (name, at)
      → contents d name ≡ some old
      → at ≤ length old
      → (contents (hal.pico_write d fd bytes) name ≡ some (written old at bytes))
        × ((other : List ℕ)
            → other ≢ name
            → contents (hal.pico_write d fd bytes) other ≡ contents d other)
  pub rewind_lem :
      (d : Disk) (fd at : ℕ) (name : List ℕ)
      → handle d fd ≡ some (name, at)
      → (handle (hal.pico_rewind d fd) fd ≡ some (name, 0))
        × ((other : List ℕ) → contents (hal.pico_rewind d fd) other ≡ contents d other)
  pub close_lem :
      (d : Disk) (fd : ℕ) (other : List ℕ) → contents (hal.pico_close d fd) other ≡ contents d other
  pub mount_lem :
      (d : Disk)
      → (d' : Disk) × (hal.pico_mount d false ≡ (d', true))
        × ((other : List ℕ) → contents d' other ≡ contents d other)
