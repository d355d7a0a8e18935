-- ===== src/Http/Text/Strings.antt =====
-- Searches in a C string.
use pico_common.Common.{
  ℕ, ◌+◌, ◌<◌, ◌≡◌, ◌≢◌, refl, ap, ◌∙◌, List, [], ◌∷◌, ◌++◌, some, arith, length,
}
use pico_common.Http.Text.{
  at, missing, over_read, strchr, find_first_index_from, find_first_index, c_string,
}

-- None of the bytes is `ch`.
abbrev pub Without : ℕ → List ℕ → Type 0
Without ch [] = Unit {0}
Without ch (b ∷ bs) = (b ≢ ch) × Without ch bs

pub strchr-found :
    (pre : List ℕ) (ch : ℕ) (rest : List ℕ)
    → Without ch pre
    → Without 0 pre
    → strchr (pre ++ ch ∷ rest) ch ≡ at (length pre)
unfolding strchr
strchr-found [] ch rest w z = ground arith
strchr-found (b ∷ bs) ch rest w z = ground (arith, strchr-found bs ch rest w.1 z.1)

pub strchr-missing :
    (pre : List ℕ) (ch : ℕ) (rest : List ℕ)
    → Without ch pre
    → Without 0 pre
    → ch ≢ 0
    → strchr (pre ++ 0 ∷ rest) ch ≡ missing
unfolding strchr
strchr-missing [] ch rest w z ne = ground arith
strchr-missing (b ∷ bs) ch rest w z ne = ground (arith, strchr-missing bs ch rest w.1 z.1 ne)

pub c_string-zero : (pre rest : List ℕ) → Without 0 pre → c_string (pre ++ 0 ∷ rest) ≡ some pre
unfolding c_string
c_string-zero [] rest z = refl
c_string-zero (b ∷ bs) rest z = ground (arith, c_string-zero bs rest z.1)

-- Without a zero in the array, a search for a byte that is not there leaves it.
pub strchr-over_read : (s : List ℕ) (ch : ℕ) → Without ch s → Without 0 s → strchr s ch ≡ over_read
unfolding strchr
strchr-over_read [] ch w z = refl
strchr-over_read (b ∷ bs) ch w z = ground (arith, strchr-over_read bs ch w.1 z.1)

find_from-found :
    (pre : List ℕ) (ch max i : ℕ) (rest : List ℕ)
    → Without ch pre
    → Without 0 pre
    → ch ≢ 0
    → i + length pre < max
    → find_first_index_from (pre ++ ch ∷ rest) ch max i ≡ at (i + length pre)
unfolding find_first_index_from
find_from-found [] ch max i rest w z ne lt = ground arith
find_from-found (b ∷ bs) ch max i rest w z ne lt =
    ground (arith, find_from-found bs ch max (i + 1) rest w.1 z.1 ne)

find_from-missing :
    (pre : List ℕ) (ch max i : ℕ) (rest : List ℕ)
    → Without ch pre
    → Without 0 pre
    → find_first_index_from (pre ++ 0 ∷ rest) ch max i ≡ missing
unfolding find_first_index_from
find_from-missing [] ch max i rest w z = refl
find_from-missing (b ∷ bs) ch max i rest w z =
    ground (arith, find_from-missing bs ch max (i + 1) rest w.1 z.1)

pub find_first_index-found :
    (pre : List ℕ) (ch max : ℕ) (rest : List ℕ)
    → Without ch pre
    → Without 0 pre
    → ch ≢ 0
    → length pre < max
    → find_first_index (pre ++ ch ∷ rest) ch max ≡ at (length pre)
unfolding find_first_index
find_first_index-found pre ch max rest w z ne lt =
    find_from-found pre ch max 0 rest w z ne (omega arith) ∙ ap at (omega arith)

pub find_first_index-missing :
    (pre : List ℕ) (ch max : ℕ) (rest : List ℕ)
    → Without ch pre
    → Without 0 pre
    → find_first_index (pre ++ 0 ∷ rest) ch max ≡ missing
unfolding find_first_index
find_first_index-missing pre ch max rest w z = find_from-missing pre ch max 0 rest w z
