-- ===== src/Filesystem/Tests.antt =====
-- filesystem/filesystem.c: concrete files, over a file layer in memory with one open file at a time.
use pico_common.Common.{
  ℕ, ◌+◌, ◌%◌, ◌^◌, ◌≡◌, ◌≢◌, refl, sym, ap, ◌∙◌, List, [], ◌∷◌, ◌++◌, true, Option, none, some,
  arith, if◌then◌else◌, ◌>>=◌, length, take, drop, overwrite, bytes_eq, bytes_eq_refl, bytes_eq_ne,
}
use pico_common.Http.Text.{codes}
use pico_common.Filesystem.Hal.{
  Hal, Laws, Mode, rdonly, wronly_creat, rdwr_creat, creates, Opened, file, failed, written,
  or_empty,
}
use pico_common.Filesystem.Values.{get_int, set_int, get_string, set_string}
use pico_common.Filesystem.Values.Laws.{get_int-set_int, get_string-set_string}
use pico_common.Filesystem.Boot.{boot_count_name, init_filesystem}
use pico_common.Filesystem.Boot.Count.{boots, init_filesystem-get_int}

pub record Memory : Type 0 where
  pub files : List ℕ → Option (List ℕ)
  pub opened : Option (List ℕ × ℕ)

abbrev pub put : List ℕ → List ℕ → (List ℕ → Option (List ℕ)) → List ℕ → Option (List ℕ)
put name bytes files other = if bytes_eq name other then some bytes else files other

pub put_same :
    (name bytes : List ℕ) (files : List ℕ → Option (List ℕ))
    → put name bytes files name ≡ some bytes
put_same name bytes files = rw (bytes_eq_refl name) refl

pub put_other :
    (name bytes : List ℕ) (files : List ℕ → Option (List ℕ)) (other : List ℕ)
    → other ≢ name
    → put name bytes files other ≡ files other
put_other name bytes files other ne = rw (bytes_eq_ne name other λ e. ne (sym e)) refl

abbrev pub open_read : Memory → List ℕ → Option (List ℕ) → Memory × Opened
open_read d name none = (d, failed)
open_read d name (some old) = (record d { opened = some (name, 0) }, file 0)

abbrev pub open_write : Memory → List ℕ → Memory × Opened
open_write d name =
    (record { files = put name (or_empty (d.files name)) d.files; opened = some (name, 0) }, file 0)

abbrev pub open_mode : Memory → List ℕ → Mode → Memory × Opened
open_mode d name rdonly = open_read d name (d.files name)
open_mode d name wronly_creat = open_write d name
open_mode d name rdwr_creat = open_write d name

abbrev pub read_file : Memory → ℕ → List ℕ → ℕ → Option (List ℕ) → Memory × Option (List ℕ)
read_file d n name at none = (d, none)
read_file d n name at (some old) = (
  record d { opened = some (name, at + length (take n (drop at old))) },
  some (take n (drop at old)),
)

abbrev pub read_opened : Memory → ℕ → Option (List ℕ × ℕ) → Memory × Option (List ℕ)
read_opened d n none = (d, none)
read_opened d n (some (name, at)) = read_file d n name at (d.files name)

abbrev pub write_opened : Memory → List ℕ → Option (List ℕ × ℕ) → Memory
write_opened d bytes none = d
write_opened d bytes (some (name, at)) = record d {
  files = put name (written (or_empty (d.files name)) at bytes) d.files;
  opened = some (name, at + length bytes);
}

abbrev pub rewind_opened : Memory → Option (List ℕ × ℕ) → Memory
rewind_opened d none = d
rewind_opened d (some (name, at)) = record d { opened = some (name, 0) }

abbrev pub memory : Hal Memory
memory = record {
  pico_open = open_mode;
  pico_read = λ d fd n. read_opened d n d.opened;
  pico_write = λ d fd bytes. write_opened d bytes d.opened;
  pico_rewind = λ d fd. rewind_opened d d.opened;
  pico_close = λ d fd. record d { opened = none };
  pico_mount = λ d format. (d, true);
  pico_unmount = λ d. (d, true);
}

pub open_creat_lem :
    (d : Memory) (name : List ℕ) (mode : Mode)
    → creates mode ≡ true
    → (d' : Memory) × (fd : ℕ) × (open_mode d name mode ≡ (d', file fd))
      × (d'.opened ≡ some (name, 0))
      × (d'.files name ≡ some (or_empty (d.files name)))
      × ((other : List ℕ) → other ≢ name → d'.files other ≡ d.files other)
open_creat_lem d name rdonly c = ground arith
open_creat_lem d name wronly_creat c = (
  (open_write d name).0,
  0,
  refl,
  refl,
  put_same name (or_empty (d.files name)) d.files,
  put_other name (or_empty (d.files name)) d.files,
)
open_creat_lem d name rdwr_creat c = (
  (open_write d name).0,
  0,
  refl,
  refl,
  put_same name (or_empty (d.files name)) d.files,
  put_other name (or_empty (d.files name)) d.files,
)

abbrev pub memory-Laws : Laws memory
memory-Laws = record {
  contents = λ d. d.files;
  handle = λ d fd. d.opened;
  open_missing = λ d name gone. (d, rw gone refl, λ other. refl);
  open_there = λ d name old held.
      (record d { opened = some (name, 0) }, 0, rw held refl, refl, λ other. refl);
  open_creat = open_creat_lem;
  read_lem = λ d fd n at name old opened held. (
    record d { opened = some (name, at + length (take n (drop at old))) },
    rw (opened, held) refl,
    refl,
    λ other. refl,
  );
  write_lem = λ d fd at name old bytes opened held within. rw opened (
    put_same name (written (or_empty (d.files name)) at bytes) d.files
        ∙ ap (λ o. some (written (or_empty o) at bytes)) held,
    put_other name (written (or_empty (d.files name)) at bytes) d.files,
  );
  rewind_lem = λ d fd at name opened. rw opened (refl, λ other. refl);
  close_lem = λ d fd other. refl;
  mount_lem = λ d. (d, refl, λ other. refl);
}

-- A flash with one longer text, and a count of starts.
abbrev pub flash : Memory
flash = record {
  files =
      put boot_count_name (7 ∷ 0 ∷ 0 ∷ 0 ∷ []) (put (codes "name") (codes "hello") λ other. none);
  opened = none;
}

get_int-set_int_example :
    (get_int memory (set_int memory flash (codes "count") 70000) (codes "count")).1 ≡ 70000
get_int-set_int_example =
    get_int-set_int memory memory-Laws flash (codes "count") 70000 (omega arith)

get_string-set_string_example :
    let text = take 5 (codes "by" ++ drop 2 (or_empty (flash.files (codes "name")))) in
    (d' : Memory) × ((set_string memory flash (codes "name") (codes "by") 2 >>= λ d1.
    get_string memory d1 (codes "name") (0 ∷ 0 ∷ 0 ∷ 0 ∷ 0 ∷ []) 5)
      ≡ some (d', (overwrite (0 ∷ 0 ∷ 0 ∷ 0 ∷ 0 ∷ []) 0 text, length text)))
get_string-set_string_example =
    get_string-set_string memory memory-Laws flash (codes "name") (codes "by")
      (0 ∷ 0 ∷ 0 ∷ 0 ∷ 0 ∷ []) 5 (omega arith)

init_filesystem-get_int_example :
    (d' : Memory) × (init_filesystem memory flash ≡ some d')
    × ((get_int memory d' boot_count_name).1 ≡ (boots memory memory-Laws flash + 1) % 2 ^ 32)
    × ((other : List ℕ) → other ≢ boot_count_name → d'.files other ≡ flash.files other)
init_filesystem-get_int_example = init_filesystem-get_int memory memory-Laws flash
