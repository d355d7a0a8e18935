-- ===== src/Filesystem/Values/Laws.antt =====
-- filesystem/filesystem.c: storing and reading back.
use pico_common.Common.{
  ℕ, ◌^◌, ◌≤◌, ◌<◌, ◌≡◌, refl, ◌∙◌, ap, List, ◌++◌, none, some, arith, length, length-take, take,
  drop, overwrite, ◌>>=◌, load_bytes-eq-take, store_bytes-eq-overwrite, take-length,
}
use pico_common.Filesystem.Hal.{Hal, Laws, wronly_creat, or_empty}
use pico_common.Filesystem.Values.{
  invalid_file, int_bytes, int_of, int_read, get_int_from, get_int, set_int_in, set_int,
  get_string_from, get_string, set_string_in, set_string,
}

pub int_of-int_bytes : (n : ℕ) → n < 2 ^ 32 → int_of (int_bytes n) ≡ n
int_of-int_bytes n small = omega arith

module _ {Disk : Type 0} (hal : Hal Disk) (laws : Laws hal) where
  -- What is in a file after its start was overwritten.
  pub set_int-contents :
      (d : Disk) (name : List ℕ) (value : ℕ)
      → laws.contents (set_int hal d name value) name
        ≡ some (int_bytes value ++ drop 4 (or_empty (laws.contents d name)))
  unfolding set_int set_int_in
  set_int-contents d name value =
      let bound : 0 ≤ length (or_empty (laws.contents d name)) = omega arith in
      let (d', fd, opened, at, held, others) = laws.open_creat d name wronly_creat refl in
      let (now, rest) =
        laws.write_lem d' fd 0 name (or_empty (laws.contents d name)) (int_bytes value) at held
          bound in
      rw (opened, laws.close_lem (hal.pico_write d' fd (int_bytes value)) fd name) now

  pub get_int_lem :
      (d : Disk) (name old : List ℕ)
      → laws.contents d name ≡ some old
      → (get_int hal d name).1 ≡ int_read (some (take 4 old))
  unfolding get_int get_int_from
  get_int_lem d name old held =
      let (d', fd, opened, at, same) = laws.open_there d name old held in
      let (d'', got, at', same') = laws.read_lem d' fd 4 0 name old at (same name ∙ held) in
      rw (opened, got) refl

  -- A file that is not there reads as -1.
  get_int_absent :
      (d : Disk) (name : List ℕ)
      → laws.contents d name ≡ none
      → (get_int hal d name).1 ≡ invalid_file
  unfolding get_int get_int_from
  get_int_absent d name gone =
      let (d', closed, same) = laws.open_missing d name gone in rw closed refl

  -- A number that was stored is read back, whatever the file held before, if anything.
  pub get_int-set_int :
      (d : Disk) (name : List ℕ) (value : ℕ)
      → value < 2 ^ 32
      → (get_int hal (set_int hal d name value) name).1 ≡ value
  get_int-set_int d name value small =
      get_int_lem (set_int hal d name value) name
        (int_bytes value ++ drop 4 (or_empty (laws.contents d name)))
        (set_int-contents d name value)
      ∙ int_of-int_bytes value small

  get_string_lem :
      (d : Disk) (name old dst : List ℕ) (dst_size : ℕ)
      → laws.contents d name ≡ some old
      → dst_size ≤ length dst
      → (d' : Disk) × (get_string hal d name dst dst_size
          ≡ some (d', (overwrite dst 0 (take dst_size old), length (take dst_size old))))
  unfolding get_string get_string_from
  get_string_lem d name old dst dst_size held room =
      let (d', fd, opened, at, same) = laws.open_there d name old held in
      let (d'', got, at', same') = laws.read_lem d' fd dst_size 0 name old at (same name ∙ held) in
      (
        hal.pico_close d'' fd,
        rw
            (
              opened,
              got,
              store_bytes-eq-overwrite dst 0 (take dst_size old)
                  (omega (arith, length-take dst_size old)),
              ◌>>=◌,
            )
            refl,
      )

  set_string_lem :
      (d : Disk) (name value : List ℕ)
      → (d' : Disk) × (set_string hal d name value (length value) ≡ some d')
        × (laws.contents d' name
            ≡ some (value ++ drop (length value) (or_empty (laws.contents d name))))
  unfolding set_string set_string_in
  set_string_lem d name value =
      let bound : 0 ≤ length (or_empty (laws.contents d name)) = omega arith in
      let (d', fd, opened, at, held, others) = laws.open_creat d name wronly_creat refl in
      let (now, rest) =
        laws.write_lem d' fd 0 name (or_empty (laws.contents d name)) value at held bound in
      (
        hal.pico_close (hal.pico_write d' fd value) fd,
        rw
            (
              opened,
              load_bytes-eq-take value 0 (length value) (omega arith),
              take-length (length value) value (omega arith),
              ◌>>=◌,
            )
            refl,
        laws.close_lem (hal.pico_write d' fd value) fd name
            ∙ now
            ∙ ap (λ k. some (value ++ drop k (or_empty (laws.contents d name)))) (omega arith),
      )

  -- A text that was stored is read back from its file, followed by what the file held behind it: a shorter
  -- text leaves the end of the one before. The read goes into an array that has the bytes asked for.
  pub get_string-set_string :
      (d : Disk) (name value dst : List ℕ) (dst_size : ℕ)
      → dst_size ≤ length dst
      → let text = take dst_size (value ++ drop (length value) (or_empty (laws.contents d name))) in
        (d' : Disk) × ((set_string hal d name value (length value) >>= λ d1.
        get_string hal d1 name dst dst_size)
          ≡ some (d', (overwrite dst 0 text, length text)))
  get_string-set_string d name value dst dst_size room =
      let (d1, stored, held) = set_string_lem d name value in
      let (d2, got) =
        get_string_lem d1 name (value ++ drop (length value) (or_empty (laws.contents d name))) dst
          dst_size held room in
      (d2, rw (stored, ◌>>=◌) got)
