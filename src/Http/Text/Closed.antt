-- ===== src/Http/Text/Closed.antt =====
-- C strings in an array whose last byte is a zero: nothing is read behind it.
use pico_common.Common.{
  ℕ, zero, suc, ◌+◌, ◌<◌, ◌≡◌, ◌≢◌, refl, ◌⊎◌, inl, inr, List, [], ◌∷◌, Bool, true, false, some,
  arith, ltb, ltb→lt, Bool-cases, ◌==◌, get_elem?,
}
use pico_common.Http.Text.{
  at, missing, strchr, find_first_index_from, find_first_index, c_string, strncmp_eq,
}
use pico_common.Http.Text.Strings.{Without}

-- A zero stands somewhere in the array.
abbrev pub HasZero : List ℕ → Type 0
HasZero [] = ⊥
HasZero (b ∷ bs) = (b ≡ 0) ⊎ HasZero bs

pub HasZero-of-get_elem? : (xs : List ℕ) (i : ℕ) → get_elem? xs i ≡ some 0 → HasZero xs
HasZero-of-get_elem? [] i h = cc
HasZero-of-get_elem? (x ∷ xs) zero h = inl (ground arith)
HasZero-of-get_elem? (x ∷ xs) (suc i) h = inr (HasZero-of-get_elem? xs i h)

pub c_string-total : (s : List ℕ) → HasZero s → (t : List ℕ) × (c_string s ≡ some t)
unfolding c_string
c_string-total [] z = absurd z
c_string-total (b ∷ bs) (inl e) = ([], ground arith)
c_string-total (b ∷ bs) (inr z) =
    let (t, e) = c_string-total bs z in
    elim (Bool-cases (b == 0)) [
      | inl zero_byte ↦ ([], rw zero_byte refl)
      | inr other ↦ (b ∷ t, rw (other, e) refl)
    ]

pub strncmp_eq-total :
    (prefix s : List ℕ) → HasZero s → Without 0 prefix → (b : Bool) × (strncmp_eq prefix s ≡ some b)
unfolding strncmp_eq
strncmp_eq-total [] s z w = (true, refl)
strncmp_eq-total (p ∷ ps) [] z w = absurd z
strncmp_eq-total (p ∷ ps) (b ∷ bs) (inl e) w = (false, ground arith)
strncmp_eq-total (p ∷ ps) (b ∷ bs) (inr z) w =
    let (r, e) = strncmp_eq-total ps bs z w.1 in
    elim (Bool-cases (p == b)) [
      | inl same ↦ (r, rw (same, e) refl)
      | inr differ ↦ (false, rw differ refl)
    ]

pub strchr-total :
    (s : List ℕ) (ch : ℕ)
    → HasZero s
    → ch ≢ 0
    → (strchr s ch ≡ missing) ⊎ ((i : ℕ) × (strchr s ch ≡ at i))
unfolding strchr
strchr-total [] ch z ne = absurd z
strchr-total (b ∷ bs) ch (inl e) ne = inl (ground arith)
strchr-total (b ∷ bs) ch (inr z) ne = elim (strchr-total bs ch z ne) [
  | inl e ↦ elim (Bool-cases (b == ch)) [
    | inl here ↦ inr (0, rw here refl)
    | inr there ↦ inl (ground arith)
  ]
  | inr (i, e) ↦ elim (Bool-cases (b == ch)) [
    | inl here ↦ inr (0, rw here refl)
    | inr there ↦ elim (Bool-cases (b == 0)) [
      | inl end ↦ inl (rw (there, end) refl)
      | inr more ↦ inr (suc i, rw (there, more, e) refl)
    ]
  ]
]

find_from-total :
    (s : List ℕ) (ch max i : ℕ)
    → HasZero s
    → (find_first_index_from s ch max i ≡ missing)
      ⊎ ((j : ℕ) × (find_first_index_from s ch max i ≡ at j) × (j < max))
unfolding find_first_index_from
find_from-total [] ch max i z = absurd z
find_from-total (b ∷ bs) ch max i (inl e) = inl (ground arith)
find_from-total (b ∷ bs) ch max i (inr z) = elim (Bool-cases (b == 0)) [
  | inl end ↦ inl (rw end refl)
  | inr more ↦ elim (Bool-cases (ltb i max)) [
    | inr past ↦ inl (rw (more, past) refl)
    | inl room ↦ elim (Bool-cases (b == ch)) [
      | inl here ↦ inr (i, rw (more, room, here) refl, ltb→lt i max room)
      | inr there ↦ rw (more, room, there) (find_from-total bs ch max (i + 1) z)
    ]
  ]
]

pub find_first_index-total :
    (s : List ℕ) (ch max : ℕ)
    → HasZero s
    → (find_first_index s ch max ≡ missing)
      ⊎ ((j : ℕ) × (find_first_index s ch max ≡ at j) × (j < max))
unfolding find_first_index
find_first_index-total s ch max z = find_from-total s ch max 0 z
